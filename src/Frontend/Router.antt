-- ===== src/Frontend/Router.antt =====
-- web/src/frontend/router.tsx: the search parameters of each route and the guards of its pages, and
-- web/src/frontend/main.tsx: what an error of any request does.
pub mod Guard
use mesh2mesh.Base.{
  Text, lit, text_eq, join, ltb, ◌==◌, if◌then◌else◌, ℕ, ◌+◌, Bool, true, false, not, ◌&&◌, Option,
  none, some, List, [], ◌∷◌,
}
use mesh2mesh.Frontend.Api.{ApiUser, Thrown, network_error, api_error, Result, ok, err}

-- A value of the search that the router has parsed.
pub data Value : Type 0 where
  text_value : Text → Value
  bool_value : Bool → Value
  other_value : Value

-- `typeof v === "string" ? v : undefined`
abbrev pub text_param : Option Value → Option Text
text_param (some (text_value s)) = some s
text_param _ = none

-- `v === true || v === "true" ? true : undefined`
abbrev pub flag_param : Option Value → Bool
flag_param (some (text_value s)) = text_eq s (lit "true")
flag_param (some (bool_value b)) = b
flag_param _ = false

pub record LoginSearch : Type 0 where
  pub redirect : Option Text
  pub error : Option Text
  pub signup : Bool

pub record TenantSearch : Type 0 where
  pub tenant : Option Text

pub record TenantsSearch : Type 0 where
  pub create : Bool
  pub join : Bool

unfoldable pub login_search : (Text → Option Value) → LoginSearch
login_search s = record {
  redirect = text_param (s (lit "redirect"));
  error = text_param (s (lit "error"));
  signup = flag_param (s (lit "signup"));
}

unfoldable pub tenant_search : (Text → Option Value) → TenantSearch
tenant_search s = record { tenant = text_param (s (lit "tenant")) }

unfoldable pub tenants_search : (Text → Option Value) → TenantsSearch
tenants_search s = record {
  create = flag_param (s (lit "create"));
  join = flag_param (s (lit "join"));
}

-- The routes of the tree, and the pages outside it.
pub data Page : Type 0 where
  landing_page login_page no_page : Page
  invite_page : (code : Text) → Page
  admin_page machines_page members_page tenants_page : Page

pub data Target : Type 0 where
  to_login : LoginSearch → Target
  to_machines : Target

pub data Loaded : Type 0 where
  opened : Page → Loaded
  redirected : Target → Loaded
  broken : Thrown → Loaded

abbrev pub login_of : Text → Bool → LoginSearch
login_of href signup = record { redirect = some href; error = none; signup = signup }

abbrev pub login_for : Text → Bool → Target
login_for href signup = to_login (login_of href signup)

abbrev guarded : Result (Option ApiUser) → Target → Loaded → Loaded
guarded (err e) target onward = broken e
guarded (ok none) target onward = redirected target
guarded (ok (some user)) target onward = onward

-- The `beforeLoad` functions on the way to a page; `answer` is that of `ensureQueryData(meQuery)`.
pub before_load : Result (Option ApiUser) → (href : Text) → Page → Loaded
before_load answer href landing_page = opened landing_page
before_load answer href login_page = opened login_page
before_load answer href no_page = opened no_page
before_load answer href (invite_page code) =
    guarded answer (login_for href true) (opened (invite_page code))
before_load answer href admin_page = guarded answer (login_for href false) (redirected to_machines)
before_load answer href p = guarded answer (login_for href false) (opened p)

-- The query client and the router, as `onError` changes them: the cached answer of `meQuery`.
pub record AppState : Type 0 where
  pub me : Option (Option ApiUser)
  pub href : Text
  pub navigations : List Target

-- `ensureQueryData(meQuery)`: the cached answer where there is one.
abbrev ensured : Result (Option ApiUser) → Option (Option ApiUser) → Result (Option ApiUser)
ensured answer none = answer
ensured answer (some m) = ok m

pub load_page : Result (Option ApiUser) → AppState → Page → Loaded
unfolding before_load
load_page answer app p = before_load (ensured answer app.me) app.href p

abbrev pub is_signed_out : Thrown → Bool
is_signed_out (network_error m) = false
is_signed_out (api_error e) = e.status == 401

-- `onError(err)`
pub on_error : Thrown → AppState → AppState
on_error e app =
    if is_signed_out e
    then record app { me = some none; navigations = login_for app.href false ∷ app.navigations }
    else app

abbrev is_client_error : Thrown → Bool
is_client_error (network_error m) = false
is_client_error (api_error e) = ltb e.status 500

-- `retry: (count, err) => …`
pub retry : ℕ → Thrown → Bool
retry count e = not (is_client_error e) && ltb count 2

-- The requests of one query, on the errors that they would meet in turn: the number that is sent.
pub attempts : (errors : List Thrown) (count : ℕ) → ℕ
unfolding retry
attempts [] count = 1
attempts (e ∷ es) count =
    let more = attempts es (count + 1) in if retry count e then 1 + more else 1
