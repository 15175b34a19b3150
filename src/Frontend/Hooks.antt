-- ===== src/Frontend/Hooks.antt =====
-- What the hooks of @tanstack/react-query and the browser's storage give the pages of
-- web/src/frontend.
use mesh2mesh.Base.{Text, Bool, true, false, Option, none, some, List}

-- `useQuery`: an error may leave the data of an earlier answer.
pub data Fetched (D : Type 0) : Type 0 where
  pending : Fetched D
  query_failed : (message : Text) (earlier : Option D) → Fetched D
  fetched : D → Fetched D

-- `query.data`
abbrev pub data_of : {D : Type 0} → Fetched D → Option D
data_of pending = none
data_of (query_failed message earlier) = earlier
data_of (fetched d) = some d

-- `useMutation`: `isPending`, `isError`
pub data Mutation : Type 0 where
  idle sending : Mutation
  refused : (message : Text) → Mutation

abbrev pub is_sending : Mutation → Bool
is_sending sending = true
is_sending _ = false

abbrev pub mutation_error : Mutation → Option Text
mutation_error (refused message) = some message
mutation_error _ = none

-- One key of `localStorage`, which may throw on any access, or on writes alone.
pub data Storage : Type 0 where
  denied : Storage
  read_only : Option Text → Storage
  writable : Option Text → Storage

-- `getItem` in a `try`
abbrev pub read_item : Storage → Option Text
read_item denied = none
read_item (read_only v) = v
read_item (writable v) = v

-- `setItem` in a `try`
abbrev pub write_item : Text → Storage → Storage
write_item v (writable w) = writable (some v)
write_item v s = s

-- What the handlers of the pages ask of the query client, of sonner and of the router.
pub data Effect : Type 0 where
  invalidates : (key : List Text) → Effect
  toasts : Text → Effect
  toasts_error : Text → Effect
  goes_to_machines : (tenant : Option Text) → Effect
  goes_to_tenants : Effect
