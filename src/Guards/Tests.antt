-- ===== src/Guards/Tests.antt =====
-- The theorems of the guards at concrete requests.
use text.Mathlib.Text.{◌==◌}
use trust_post.Common.{◌≤◌, ◌<◌, ◌≡◌, refl, String, Bool, true, false, some, [], ◌∷◌, Memᴰ}
use trust_post.Errors.{Result, ok}
use trust_post.Prisma.ListTable.{list_table}
use trust_post.Roles.{UserRoles, hierarchy}
use trust_post.Sessions.{Session, find_active_by_id, is_session, validate_session}
use trust_post.Guards.{
  AccessPayload, RefreshPayload, RefreshUser, starts_with, second_word, guard_route,
  refresh_token_guard,
}
use trust_post.Guards.Access.{guard_route-admits, refresh_token_guard_sound}

-- A verification that knows every token.
abbrev verify_admin : String → Result AccessPayload
verify_admin token = ok (record { sub = "u1"; role = UserRoles.admin })

moderators_only :
    guard_route verify_admin false (some UserRoles.moderator) (some "Bearer t") ≡ ok true
unfolding guard_route starts_with
moderators_only = refl

guard_route-admits_example :
    (◌≡◌ {A = Bool} false false)
    × ((auth : String) × (payload : AccessPayload) × (some "Bearer t" ≡ some auth)
        × (verify_admin (second_word auth) ≡ ok payload)
        × (hierarchy UserRoles.moderator ≤ hierarchy payload.role))
guard_route-admits_example =
    guard_route-admits verify_admin false UserRoles.moderator (some "Bearer t") moderators_only

abbrev verify_session : String → Result RefreshPayload
verify_session token = ok (record { sub = "u1"; session_id = "s1" })

abbrev live_session : Session
live_session = record {
  id = "s1";
  user_id = "u1";
  refresh_token_hash = "token";
  device_id = "phone";
  user_agent = "Firefox";
  ip = "10.0.0.1";
  last_used_at = some 3;
  expires_at = 9000;
  created_at = 1;
}

abbrev as_hash : String → String → Bool
as_hash token hash = token == hash

refreshed_user :
    refresh_token_guard list_table as_hash verify_session 100 (some "token") (live_session ∷ [])
    ≡ ok (record { user_id = "u1"; session_id = "s1" })
unfolding refresh_token_guard validate_session find_active_by_id is_session
refreshed_user = refl

refresh_token_guard_sound_example :
    (token : String) × (payload : RefreshPayload) × (s : Session) × (some "token" ≡ some token)
    × (verify_session token ≡ ok payload)
    × (◌≡◌ {A = RefreshUser}
        (record { user_id = "u1"; session_id = "s1" })
        (record { user_id = payload.sub; session_id = payload.session_id }))
    × Memᴰ s (live_session ∷ [])
    × (s.id ≡ payload.session_id)
    × (100 < s.expires_at)
    × (as_hash token s.refresh_token_hash ≡ true)
refresh_token_guard_sound_example =
    refresh_token_guard_sound list_table as_hash verify_session 100 (some "token")
      (live_session ∷ []) (record { user_id = "u1"; session_id = "s1" }) refreshed_user
