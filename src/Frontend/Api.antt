-- ===== src/Frontend/Api.antt =====
-- web/src/frontend/api.ts: the data that the API sends, the requests that the application makes,
-- and the cache entries that they fill.
pub mod Served
pub mod Forwarded
pub mod Keys
use mesh2mesh.Base.{
  null, Text, lit, show, if◌then◌else◌, within, ◌or◌, is_some, encode_uri_component, ℕ, Bool, true,
  false, Option, none, some, List, [], ◌∷◌, ◌++◌,
}

pub record ApiUser : Type 0 where
  pub sub : Text
  pub name : Text
  pub email : Option Text
  pub username : Option Text

pub data Role : Type 0 where
  owner member : Role

pub record Tenant : Type 0 where
  pub id : Text
  pub name : Text
  pub cidr : Text
  pub created_at : Text
  pub role : Role

pub record Member : Type 0 where
  pub user_id : Text
  pub email : Text
  pub name : Text
  pub role : Role
  pub created_at : Text

pub record Invite : Type 0 where
  pub id : Text
  pub code : Text
  pub role : Role
  pub max_uses : ℕ
  pub expires_at : Text

pub record Peer : Type 0 where
  pub peer_id : Text
  pub name : Text
  pub public_key : Text
  pub mesh_ip : Text
  pub created_at : Text
  pub direct_reachable : Bool
  pub endpoint : Option Text
  pub endpoint_updated_at : Option Text
  pub nat_endpoint : Option Text

pub record RuntimeConfig : Type 0 where
  pub public_api_url : Text
  pub auth_enabled : Bool

pub record ApiError : Type 0 where
  pub status : ℕ
  pub message : Text

-- What `request` throws: the error of `fetch` itself, or an `ApiError`.
pub data Thrown : Type 0 where
  network_error : Text → Thrown
  api_error : ApiError → Thrown

pub data Result (T : Type 0) : Type 0 where
  ok : T → Result T
  err : Thrown → Result T

-- An answer to `fetch`. The body is absent where it is no JSON; `error_of` reads its `error`.
pub data Answered (B : Type 0) : Type 0 where
  rejected_fetch : Text → Answered B
  answered_with : (status : ℕ) (status_text : Text) (body : Option B) → Answered B

abbrev error_field : {B : Type 0} → (B → Option Text) → Option B → Option Text
error_field error_of none = none
error_field error_of (some b) = error_of b

-- `request(path, init)`: a body is given as it is, null where it was no JSON.
unfoldable pub request : {B : Type 0} → (B → Option Text) → Answered B → Result (Option B)
request error_of (rejected_fetch why) = err (network_error why)
request error_of (answered_with status status_text body) =
    if within 200 299 status
    then ok body
    else err (
        api_error (record {
          status = status;
          message = error_field error_of body or (show status ++ 32 ∷ status_text);
        }))

abbrev pub peer_refresh_ms : ℕ
peer_refresh_ms = 15000

-- Every request that the application makes.
pub data Call : Type 0 where
  get_me get_health get_config get_tenants : Call
  get_peers : (tenant : Text) → Call
  get_members : (tenant : Text) → Call
  create_tenant : (name : Text) (cidr : Option Text) → Call
  create_invite : (tenant : Text) (role : Role) (ttl_seconds max_uses : ℕ) → Call
  accept_invite : (code : Text) → Call
  claim_tenant : (tenant : Text) → Call
  remove_member : (tenant user : Text) → Call

abbrev me_url : Text
me_url = lit "/api/v1/me"

abbrev pub tenant_url : Text → Text
tenant_url id = me_url ++ (lit "/tenants/" ++ encode_uri_component id)

unfoldable pub call_path : Call → Text
call_path get_me = lit "/auth/me"
call_path get_health = lit "/api/healthz"
call_path get_config = lit "/config.json"
call_path get_tenants = me_url ++ lit "/tenants"
call_path (get_peers t) = tenant_url t ++ lit "/peers"
call_path (get_members t) = tenant_url t ++ lit "/members"
call_path (create_tenant name cidr) = me_url ++ lit "/tenants"
call_path (create_invite t role ttl uses) = tenant_url t ++ lit "/invites"
call_path (accept_invite code) = me_url ++ lit "/invites/accept"
call_path (claim_tenant t) = tenant_url t ++ lit "/claim"
call_path (remove_member t user) = tenant_url t ++ (lit "/members/" ++ encode_uri_component user)

unfoldable pub call_method : Call → Text
call_method (create_tenant name cidr) = lit "POST"
call_method (create_invite t role ttl uses) = lit "POST"
call_method (accept_invite code) = lit "POST"
call_method (claim_tenant t) = lit "POST"
call_method (remove_member t user) = lit "DELETE"
call_method _ = lit "GET"

-- The objects that are sent as JSON.
pub data Sent : Type 0 where
  tenant_input : (name : Text) (cidr : Option Text) → Sent
  invite_input : Role → (ttl_seconds max_uses : ℕ) → Sent
  code_input : Text → Sent
  empty_object : Sent

-- `input.cidr ? input : { name: input.name }`
abbrev non_empty : Option Text → Option Text
non_empty none = none
non_empty (some s) = if null s then none else some s

pub call_body : Call → Option Sent
call_body (create_tenant name cidr) = some (tenant_input name (non_empty cidr))
call_body (create_invite t role ttl uses) = some (invite_input role ttl uses)
call_body (accept_invite code) = some (code_input code)
call_body (claim_tenant t) = some empty_object
call_body _ = none

-- `headers: init?.body ? { "Content-Type": … } : undefined`
unfoldable pub call_content_type : Call → Option Text
unfolding call_body
call_content_type c = if is_some (call_body c) then some (lit "application/json") else none

-- The queries, each with its `queryKey` and its options; `none` is the client's default.
pub data Query : Type 0 where
  me_query health_query config_query tenants_query : Query
  peers_query : (tenant : Text) → Query
  members_query : (tenant : Text) → Query

pub query_key : Query → List Text
query_key me_query = lit "me" ∷ []
query_key health_query = lit "health" ∷ []
query_key config_query = lit "config" ∷ []
query_key tenants_query = lit "tenants" ∷ []
query_key (peers_query t) = lit "tenants" ∷ t ∷ lit "peers" ∷ []
query_key (members_query t) = lit "tenants" ∷ t ∷ lit "members" ∷ []

unfoldable pub query_call : Query → Call
query_call me_query = get_me
query_call health_query = get_health
query_call config_query = get_config
query_call tenants_query = get_tenants
query_call (peers_query t) = get_peers t
query_call (members_query t) = get_members t

pub data StaleTime : Type 0 where
  default_stale never_stale : StaleTime
  stale_after : ℕ → StaleTime

pub record QueryOptions : Type 0 where
  pub stale_time : StaleTime
  pub refetch_interval : Option ℕ
  pub retries : Bool

unfoldable pub query_options : Query → QueryOptions
query_options me_query = record {
  stale_time = stale_after 60000;
  refetch_interval = none;
  retries = true;
}
query_options health_query = record {
  stale_time = default_stale;
  refetch_interval = some peer_refresh_ms;
  retries = false;
}
query_options config_query = record {
  stale_time = never_stale;
  refetch_interval = none;
  retries = true;
}
query_options (peers_query t) = record {
  stale_time = default_stale;
  refetch_interval = some peer_refresh_ms;
  retries = true;
}
query_options _ = record { stale_time = default_stale; refetch_interval = none; retries = true }
