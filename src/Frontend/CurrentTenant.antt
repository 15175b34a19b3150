-- ===== src/Frontend/CurrentTenant.antt =====
-- web/src/frontend/lib/current-tenant.ts: the tenant that the admin pages show.
pub mod Steady
use mesh2mesh.Base.{
  get_elem?, find, Text, text_eq, ◌or_else◌, Bool, false, Option, none, some, List,
}
use mesh2mesh.Frontend.Api.{Tenant}
use mesh2mesh.Frontend.Hooks.{Fetched, data_of, Storage, read_item, write_item}

-- `t.id === wanted`
abbrev pub is_wanted : Option Text → Tenant → Bool
is_wanted none t = false
is_wanted (some w) t = text_eq t.id w

-- `data?.find(…) ?? data?.[0]`
abbrev pub pick : Option Text → Option (List Tenant) → Option Tenant
pick wanted none = none
pick wanted (some ts) = find (is_wanted wanted) ts or_else get_elem? ts 0

unfoldable pub current_tenant : Fetched (List Tenant) → Option Text → Storage → Option Tenant
current_tenant answer from_url storage = pick (from_url or_else read_item storage) (data_of answer)

-- The effect that remembers the tenant.
pub remember : Option Tenant → Storage → Storage
remember none storage = storage
remember (some t) storage = write_item t.id storage
