-- ===== src/Frontend/Tests.antt =====
-- Runs of the pages of web/src/frontend on concrete data.
use mesh2mesh.Backend.Tests.{
  test_platform, test_files, test_config as server_config, test_world, test_auth, post_request,
  post_is_known, post_is_same_origin, test_user as server_user,
}
use mesh2mesh.Backend.Index.{handle}
use mesh2mesh.Backend.Index.Access.{body_of}
use mesh2mesh.Backend.Proxy.{is_hex_or_dash, is_api_route, forward, upstream}
use mesh2mesh.Backend.Proxy.Patterns.{IsTenantId}
use mesh2mesh.Base.{
  length, drop, all, All, Text, lit, is_hex, is_word, trim, join, leb, ◌==◌, ◌-◌, ◌≡◌, refl, ◌↔◌,
  inl, inr, Bool, true, false, not, none, some, [], ◌∷◌, ◌++◌, map, arith,
}
use mesh2mesh.Frontend.Api.{
  Call, create_tenant, member, Peer, remove_member, accept_invite, ApiUser, owner, Tenant, Invite,
  RuntimeConfig, ApiError, call_path, call_method,
}
use mesh2mesh.Frontend.Api.Forwarded.{has_dot_segment, call_IsForwarded}
use mesh2mesh.Frontend.Api.Served.{HasAt, remove_member_at}
use mesh2mesh.Frontend.CurrentTenant.{current_tenant}
use mesh2mesh.Frontend.Devices.{DeviceForm, join_command}
use mesh2mesh.Frontend.Devices.Commands.{join_words, words-join_command}
use mesh2mesh.Frontend.Hooks.{fetched, idle, writable}
use mesh2mesh.Frontend.Machines.{shown}
use mesh2mesh.Frontend.Machines.Order.{IsSorted}
use mesh2mesh.Frontend.Machines.Search.{Has, IsFound, shown_iff}
use mesh2mesh.Frontend.Members.{creates, chooses_expiry, invite_link, after_events}
use mesh2mesh.Frontend.Members.Invites.{IsOfferedInvite, after_events-IsOfferedInvite}
use mesh2mesh.Frontend.Router.{AppState}
use mesh2mesh.Frontend.Shell.{shell_arg}
use mesh2mesh.Frontend.Shell.Words.{words, words-join-shell_arg}
use mesh2mesh.Frontend.Tenants.{join_call}
use mesh2mesh.Frontend.Tenants.Pasted.{IsInviteCode, join_call-invite_link}
use mesh2mesh.Frontend.Theme.{dark, theme_text, ThemePage, load_theme, set_theme, mount}
use mesh2mesh.Frontend.Theme.Shown.{IsShown, loads, sets, mounts, ThemeReach-IsShown}
use mesh2mesh.Frontend.Time.{ago_of}
use mesh2mesh.Frontend.Time.Laws.{Fits, ago_of-Fits}

abbrev test_id : Text
test_id = lit "0123abcd-0123-4567-89ab-0123456789ab"

test_id-IsTenantId : IsTenantId test_id
unfolding lit is_hex_or_dash is_hex
test_id-IsTenantId = (refl, refl)

abbrev test_tenant : Tenant
test_tenant = record {
  id = test_id;
  name = lit "acme";
  cidr = lit "10.0.0.0/16";
  created_at = lit "t";
  role = owner;
}

abbrev test_user : ApiUser
test_user = record { sub = lit "u1"; name = lit "Ada"; email = none; username = none }

abbrev founding : Call
founding = create_tenant (lit "office") none

founding_path : post_request.path ≡ call_path founding
unfolding lit call_path
founding_path = refl

founding_method : post_request.method ≡ call_method founding
unfolding call_method
founding_method = refl

call_IsForwarded_example :
    (path : Text) × (call_path founding ≡ lit "/api" ++ path)
    × ((handle test_platform test_files server_config test_world post_request test_auth).0
        ≡ forward (upstream server_config post_request path server_user (body_of post_request)))
    × (has_dot_segment (call_path founding) ≡ false)
call_IsForwarded_example =
    call_IsForwarded test_platform test_files server_config test_world post_request test_auth
      server_user founding refl tt founding_path founding_method post_is_known
      (inr post_is_same_origin) (ground arith)

mail_HasAt : HasAt (lit "a@b")
unfolding lit
mail_HasAt = inr (inl refl)

remove_member_at_example :
    is_api_route
      (call_method (remove_member test_id (lit "a@b")))
      (drop 4 (call_path (remove_member test_id (lit "a@b"))))
    ≡ false
remove_member_at_example = remove_member_at test_id (lit "a@b") test_id-IsTenantId mail_HasAt

words-join-shell_arg_example :
    words (join (32 ∷ []) (map shell_arg (lit "it's" ∷ lit "a b" ∷ [])))
    ≡ some (lit "it's" ∷ lit "a b" ∷ [])
words-join-shell_arg_example = words-join-shell_arg (lit "it's" ∷ lit "a b" ∷ [])

abbrev test_config : RuntimeConfig
test_config = record { public_api_url = lit "http://cp:8090"; auth_enabled = true }

abbrev test_form : DeviceForm
test_form = record { name = lit " web 1 "; port = lit "51820"; verbose = true }

words-join_command_example :
    words (join_command test_tenant (some test_config) test_form)
    ≡ some (join_words test_tenant (some test_config) (trim test_form.name))
words-join_command_example =
    words-join_command test_tenant (some test_config) test_form test_id-IsTenantId

abbrev test_peer : Peer
test_peer = record {
  peer_id = lit "p1";
  name = lit "web";
  public_key = lit "k";
  mesh_ip = lit "10.0.0.2";
  created_at = lit "t";
  direct_reachable = false;
  endpoint = some (lit "1.2.3.4:5");
  endpoint_updated_at = some (lit "t");
  nat_endpoint = none;
}

ago_of-Fits_example : Fits (7500000 - 0) (ago_of 7500000 0)
ago_of-Fits_example = ago_of-Fits 7500000 0

abbrev test_app : AppState
test_app = record { me = some (some test_user); href = lit "/admin/members"; navigations = [] }

abbrev expired : ApiError
expired = record { status = 401; message = lit "not logged in" }

picked : current_tenant (fetched (test_tenant ∷ [])) none (writable none) ≡ some test_tenant
unfolding current_tenant
picked = refl

abbrev dark_page : ThemePage
dark_page = set_theme dark (mount 1 (load_theme (writable none) false))

ThemeReach-IsShown_example : IsShown dark_page
ThemeReach-IsShown_example = ThemeReach-IsShown dark_page (
    sets dark (mount 1 (load_theme (writable none) false))
      (mounts 1 (load_theme (writable none) false) (loads (writable none) false)))

dark_is_stored : dark_page.storage ≡ writable (some (theme_text dark))
unfolding set_theme mount load_theme
dark_is_stored = refl

abbrev test_invite : Invite
test_invite = record {
  id = lit "i1";
  code = lit "m2mi_Ab-9";
  role = member;
  max_uses = 1;
  expires_at = lit "t";
}

test_invite-IsInviteCode : IsInviteCode test_invite.code
unfolding lit is_word
test_invite-IsInviteCode = (lit "Ab-9", refl, refl, refl)

origin_plain : all (λ c. not (c == b'_')) (lit "https://ui") ≡ true
unfolding lit
origin_plain = refl

join_call-invite_link_example :
    join_call (invite_link (lit "https://ui") test_invite) idle
    ≡ some (accept_invite test_invite.code)
join_call-invite_link_example =
    join_call-invite_link (lit "https://ui") test_invite origin_plain test_invite-IsInviteCode

after_events-IsOfferedInvite_example :
    All IsOfferedInvite (after_events (creates test_id ∷ chooses_expiry 2 ∷ [])).unanswered
after_events-IsOfferedInvite_example =
    after_events-IsOfferedInvite (creates test_id ∷ chooses_expiry 2 ∷ [])

abbrev shorter : Text → Text → Bool
shorter a b = leb (length a) (length b)

shorter_total : (a b : Text) → shorter a b ≡ false → shorter b a ≡ true
shorter_total a b h = ground arith

shorter_trans : (a b c : Text) → shorter a b ≡ true → shorter b c ≡ true → shorter a c ≡ true
shorter_trans a b c h k = ground arith

shown_iff_example :
    (Has test_peer (shown (λ s. s) shorter (lit "0.2") (some (test_peer ∷ [])))
      ↔ (Has test_peer (test_peer ∷ []) × IsFound (λ s. s) (trim (lit "0.2")) test_peer))
    × IsSorted shorter (shown (λ s. s) shorter (lit "0.2") (some (test_peer ∷ [])))
shown_iff_example =
    shown_iff (λ s. s) shorter (lit "0.2") test_peer (test_peer ∷ []) shorter_total shorter_trans
