-- ===== src/Control/Tests.antt =====
-- Runs of the control plane's models, and the theorems at them.
use mesh2mesh.Backend.Config.{Config}
use mesh2mesh.Backend.Http.{User, Request}
use mesh2mesh.Backend.Proxy.{upstream}
use mesh2mesh.Backend.Proxy.Meets.{me_request, user_there, IsCarried, as_user-upstream}
use mesh2mesh.Base.{
  take, drop, All, Text, lit, is_space, trim, is_unreserved, encode_uri_component, ℕ, ◌-◌, ◌*◌, ◌/◌,
  ◌≡◌, refl, ◌⊎◌, inl, Bool, ◌||◌, Option, none, some, List, [], ◌∷◌, ◌++◌, arith,
}
use mesh2mesh.Control.Access.{
  handle, MeRequest, MeRoute, get_my_tenant, create_my_tenant, remove_from_tenant, Draws,
  ttl_of_body, no_such_tenant, parse_cidr, as_user,
}
use mesh2mesh.Control.Access.Guards.{role_in}
use mesh2mesh.Control.Access.Others.{as_user-others}
use mesh2mesh.Control.Access.Requests.{begins, asks, MeReach-IsDatabase}
use mesh2mesh.Control.Access.Unknown.{shows, as_user-unknown}
use mesh2mesh.Control.Addr.{Prefix, pow2, last_addr, free_addr, search, next_free_addr}
use mesh2mesh.Control.Addr.Pool.{IsLowest, next_free_addr-IsLowest}
use mesh2mesh.Control.Netip.{Addr, v4, AddrPort, addr_eq, to_bytes}
use mesh2mesh.Control.Relay.{new_relay, forget, issue, register, as_4, handle_frame}
use mesh2mesh.Control.Relay.Arrivals.{Incoming, receive_all, LastRegistration}
use mesh2mesh.Control.Relay.Delivery.{data_frame, handle_frame-delivers}
use mesh2mesh.Control.Relay.Isolation.{IsProper, handle_frame-IsProper}
use mesh2mesh.Control.Relay.Reach.{RelayFlow, registrations_of, grant, RelayReach, boots, issues}
use mesh2mesh.Control.Store.{MemberRow, Database, role_owner, create_tenant, create_owned_tenant}
use mesh2mesh.Control.Store.Steps.{IsDatabase}
use mesh2mesh.Control.Wire.{type_relay_register, type_relay_ack, type_relay_data, encode, decode}

-- Two peers of a tenant, and their tokens.
abbrev alice_token : List ℕ
alice_token = 1 ∷ 2 ∷ 3 ∷ 4 ∷ 5 ∷ 6 ∷ 7 ∷ 8 ∷ 9 ∷ 10 ∷ 11 ∷ 12 ∷ 13 ∷ 14 ∷ 15 ∷ 16 ∷ []

abbrev bob_token : List ℕ
bob_token = 9 ∷ 9 ∷ 3 ∷ 4 ∷ 5 ∷ 6 ∷ 7 ∷ 8 ∷ 9 ∷ 10 ∷ 11 ∷ 12 ∷ 13 ∷ 14 ∷ 15 ∷ 16 ∷ []

-- 10.203.0.2 and 10.203.0.3
abbrev alice_ip : ℕ
alice_ip = 181075970

abbrev bob_ip : ℕ
bob_ip = 181075971

abbrev alice_home : AddrPort
alice_home = record { ip = v4 3232235777; port = 51820 }

abbrev bob_home : AddrPort
bob_home = record { ip = v4 3232235778; port = 51820 }

abbrev alice_alone : RelayFlow
alice_alone = record {
  relay = (issue (lit "alice") (lit "office") (v4 alice_ip) alice_token new_relay).1;
  issued = grant (lit "alice") (lit "office") (v4 alice_ip) alice_token ∷ [];
  registrations = [];
}

abbrev both : RelayFlow
both = record {
  relay = (issue (lit "bob") (lit "office") (v4 bob_ip) bob_token alice_alone.relay).1;
  issued = grant (lit "bob") (lit "office") (v4 bob_ip) bob_token ∷ alice_alone.issued;
  registrations = [];
}

both-RelayReach : RelayReach both
both-RelayReach =
    issues (lit "bob") (lit "office") (v4 bob_ip) bob_token
      (issues (lit "alice") (lit "office") (v4 alice_ip) alice_token boots refl) refl

abbrev greeting : List ℕ
greeting = 104 ∷ 105 ∷ []

-- Both register, a datagram that is no frame comes in between, and Alice sends a frame before.
abbrev arrivals : List Incoming
arrivals =
    (encode [] type_relay_register bob_token, (bob_home, 1000))
    ∷ ([], (bob_home, 1500))
    ∷ (encode [] type_relay_register alice_token, (alice_home, 2000))
    ∷ (encode [] type_relay_data (10 ∷ 203 ∷ 0 ∷ 3 ∷ 104 ∷ []), (alice_home, 2500))
    ∷ []

bob_registers : LastRegistration bob_token bob_home 1000 arrivals
unfolding encode decode
bob_registers = record {
  earlier = [];
  later = drop 1 arrivals;
  whole = refl;
  steady = ((tt, omega arith), (((refl, tt), omega arith), ((tt, omega arith), tt)));
}

alice_registers : LastRegistration alice_token alice_home 2000 arrivals
unfolding encode decode
alice_registers = record {
  earlier = take 2 arrivals;
  later = drop 3 arrivals;
  whole = refl;
  steady = ((tt, omega arith), tt);
}

handle_frame-delivers_example :
    (handle_frame
      (data_frame (to_bytes 4 bob_ip) greeting)
      alice_home
      3000
      (receive_all arrivals both).relay).0
    ≡ record { frame = data_frame (as_4 (v4 alice_ip)) greeting; to = bob_home } ∷ []
unfolding issue forget lit
handle_frame-delivers_example =
    handle_frame-delivers both arrivals 0 1 alice_token bob_token alice_home bob_home bob_ip
      greeting 2000 1000 3000 both-RelayReach refl refl refl refl refl refl refl refl
      alice_registers bob_registers (omega arith) (omega arith) (omega arith) (omega arith)

handle_frame-IsProper_example :
    All
      (IsProper both.issued
        (registrations_of (encode [] type_relay_register alice_token) alice_home ++ [])
        (encode [] type_relay_register alice_token)
        alice_home)
      (handle_frame (encode [] type_relay_register alice_token) alice_home 1000 both.relay).0
handle_frame-IsProper_example =
    handle_frame-IsProper both (encode [] type_relay_register alice_token) alice_home 1000
      both-RelayReach

-- The registration is acknowledged.
acknowledged :
    (handle_frame (encode [] type_relay_register alice_token) alice_home 1000 both.relay).0
    ≡ record { frame = encode [] type_relay_ack alice_token; to = alice_home } ∷ []
unfolding handle_frame issue forget encode decode register lit
acknowledged = refl

-- 192.168.1.0/29 with .2 and .3 in use
abbrev some_used : Addr → Bool
some_used a = addr_eq a (v4 3232235778) || addr_eq a (v4 3232235779)

next_free_addr-IsLowest_example :
    IsLowest
      (3232235776 / pow2 (32 - 29) * pow2 (32 - 29))
      (pow2 (32 - 29))
      some_used
      (next_free_addr (pow2 (32 - 29)) (record { addr = v4 3232235776; bits = 29 }) some_used)
next_free_addr-IsLowest_example =
    next_free_addr-IsLowest 3232235776 29 some_used (omega arith) (omega arith)

fourth_is_free :
    next_free_addr 8 (record { addr = v4 3232235776; bits = 29 }) some_used
    ≡ some (free_addr (v4 3232235780))
unfolding next_free_addr search last_addr
fourth_is_free = refl

-- A control plane whose library functions are simple ones, and a tenant of alice's.
abbrev secret : Text
secret = lit "secret"

abbrev decoded_name : Text → Option Text
decoded_name name = some name

abbrev hashed : Text → List ℕ
hashed code = code

abbrev parsed : Text → Prefix ⊎ Text
parsed cidr = inl (record { addr = v4 181075968; bits = 16 })

abbrev request_of : Text → MeRequest
request_of user = record {
  authorization = lit "Bearer secret";
  user_id = user;
  user_email = [];
  user_name = user;
}

abbrev drawn : Draws
drawn = record { id = lit "office"; code = lit "m2mi_1"; now = 5 }

abbrev empty_database : Database
empty_database = record { tenants = []; tenant_members = []; tenant_invites = [] }

abbrev alice_row : MemberRow
alice_row = record {
  tenant_id = lit "office";
  user_id = lit "alice";
  email = none;
  name = some (lit "alice");
  role = role_owner;
  created_at = 5;
}

abbrev office_database : Database
office_database = record {
  tenants =
      record {
        id = lit "office";
        name = lit "Office";
        cidr = record { addr = v4 181075968; bits = 16 };
        created_at = 5;
      }
      ∷ [];
  tenant_members = alice_row ∷ [];
  tenant_invites = [];
}

abbrev office_body : MeRoute
office_body = create_my_tenant (some (record { name = lit "Office"; cidr = [] }))

office_is_made :
    (as_user secret trim decoded_name hashed parsed
      (request_of (lit "alice"))
      office_body
      drawn
      empty_database).1
    ≡ office_database
unfolding as_user handle lit trim parse_cidr create_owned_tenant create_tenant is_space
office_is_made = refl

MeReach-IsDatabase_example :
    IsDatabase
      (as_user secret trim decoded_name hashed parsed
        (request_of (lit "alice"))
        office_body
        drawn
        empty_database).1
MeReach-IsDatabase_example =
    MeReach-IsDatabase secret trim decoded_name hashed parsed
      (asks (request_of (lit "alice")) office_body drawn begins refl refl)

as_user-others_example :
    role_in
      (lit "office")
      (lit "alice")
      (as_user secret trim decoded_name hashed parsed
        (request_of (lit "bob"))
        (remove_from_tenant (lit "office") (lit "alice"))
        drawn
        office_database).1.tenant_members
    ≡ role_in (lit "office") (lit "alice") office_database.tenant_members
unfolding lit trim is_space
as_user-others_example =
    as_user-others secret trim decoded_name hashed parsed (request_of (lit "bob"))
      (remove_from_tenant (lit "office") (lit "alice")) drawn office_database (lit "office")
      (lit "alice") refl refl

as_user-unknown_example :
    as_user secret trim decoded_name hashed parsed
      (request_of (lit "bob"))
      (get_my_tenant (lit "office"))
      drawn
      office_database
    ≡ (no_such_tenant, office_database)
unfolding lit trim is_space
as_user-unknown_example =
    as_user-unknown secret trim decoded_name hashed parsed (request_of (lit "bob"))
      (get_my_tenant (lit "office")) drawn office_database (lit "office") shows refl refl refl refl

-- A number of seconds whose nanoseconds pass 2 ^ 64 is a fraction of a second.
wrapped_ttl :
    ttl_of_body (record { role = []; ttl_seconds = 18446744074; max_uses = 0 }) ≡ 290448384
wrapped_ttl = refl

-- The web server in front of that control plane, and a request that it forwards.
abbrev console_config : Config
console_config = record {
  listen_port = 8080;
  control_plane = lit "http://cp";
  public_api_url = lit "http://cp";
  control_plane_token = secret;
  oidc = none;
}

abbrev ada : User
ada = record { sub = lit "ada"; name = lit "Ada"; email = none; username = none }

abbrev office_request : Request
office_request = record {
  method = lit "GET";
  path = lit "/api/v1/me/tenants/office";
  query = [];
  cookie = none;
  origin = none;
  chunks = [];
}

ada-IsCarried : IsCarried ada
unfolding lit
ada-IsCarried = record { id = refl; email = refl; name = refl }

as_user-upstream_example :
    (sent : MeRequest) × (me_request
        (upstream console_config office_request (lit "/v1/me/tenants/office") ada none)
      ≡ some sent)
    × (as_user secret trim decoded_name hashed parsed sent
          (get_my_tenant (lit "office"))
          drawn
          office_database
        ≡ handle secret trim decoded_name hashed parsed
            (get_my_tenant (lit "office"))
            drawn
            (user_there trim ada)
            office_database)
unfolding lit trim is_space encode_uri_component is_unreserved
as_user-upstream_example =
    as_user-upstream trim decoded_name hashed parsed console_config ada office_request
      (lit "/v1/me/tenants/office") none (get_my_tenant (lit "office")) drawn office_database refl
      refl ada-IsCarried refl refl

-- An id beyond Latin-1 reaches nobody.
zoe_is_not_carried :
    me_request (upstream console_config office_request [] (record ada { sub = 351 ∷ [] }) none)
    ≡ none
unfolding me_request lit
zoe_is_not_carried = refl
