-- ===== src/Sessions.antt =====
-- modules/auth/sessions under src: the sessions of a user, one for each device
-- (repo/session-repo.ts, services/sessions.service.ts, services/sessions-policy.service.ts). The
-- table is a parameter, the clock an argument, and so is the comparison of a token with a hash.
-- Log lines are left out.
pub mod Ownership
mod Tests
use text.Mathlib.Text.{◌==◌}
use trust_post.Common.{
  ℕ, ◌-◌, ◌≤◌, String, Bool, true, false, not, ◌&&◌, ◌||◌, Option, none, some, List, [], ◌∷◌, map,
  length, take, filter, ltb, leb, nat_eq, get_or, if◌then◌else◌,
}
use trust_post.Common.Text.{◌<>◌, show_nat}
use trust_post.Errors.{not_found, forbidden, Result, ok, err}
use trust_post.Actions.{Action, pure, guard, require, ◌>>=◌, ◌>>◌, proceed}
use trust_post.Prisma.{Table}

pub record Session : Type 0 where
  pub id : String
  pub user_id : String
  pub refresh_token_hash : String
  pub device_id : String
  pub user_agent : String
  pub ip : String
  pub last_used_at : Option ℕ
  pub expires_at : ℕ
  pub created_at : ℕ

pub record UserSession : Type 0 where
  pub session_id : String
  pub user_id : String
  pub refresh_token_hash : String
  pub device_id : String
  pub user_agent : String
  pub ip : String
  pub expires_at : ℕ

abbrev pub Sessions : Type 0
Sessions = List Session

-- `where: { userId, deviceId }`
unfoldable pub is_device : String → String → Session → Bool
is_device user_id device_id s = s.user_id == user_id && s.device_id == device_id

unfoldable pub is_of_user : String → Session → Bool
is_of_user user_id s = s.user_id == user_id

unfoldable pub is_session : String → Session → Bool
is_session id s = s.id == id

-- `in: ids`
unfoldable pub is_in : List String → String → Bool
is_in [] id = false
is_in (i ∷ ids) id = i == id || is_in ids id

-- `update` and `create` of the upsert.
unfoldable pub refreshed : ℕ → UserSession → Session → Session
refreshed now login s = record s {
  refresh_token_hash = login.refresh_token_hash;
  ip = login.ip;
  user_agent = login.user_agent;
  last_used_at = some now;
  expires_at = login.expires_at;
}

unfoldable pub new_session : ℕ → ℕ → UserSession → Session
new_session now created_at login = record {
  id = login.session_id;
  user_id = login.user_id;
  refresh_token_hash = login.refresh_token_hash;
  device_id = login.device_id;
  user_agent = login.user_agent;
  ip = login.ip;
  last_used_at = some now;
  expires_at = login.expires_at;
  created_at = created_at;
}

-- `a.lastUsedAt?.getTime() ?? a.createdAt.getTime()`
unfoldable pub last_active : Session → ℕ
last_active s = get_or s.last_used_at s.created_at

-- `sort((a, b) => key(a) - key(b))`, which is stable.
unfoldable pub insert_by : (Session → ℕ) → Session → Sessions → Sessions
insert_by key s [] = s ∷ []
insert_by key s (t ∷ ts) = if leb (key s) (key t) then s ∷ t ∷ ts else t ∷ insert_by key s ts

unfoldable pub sort_by : (Session → ℕ) → Sessions → Sessions
unfolding insert_by
sort_by key [] = []
sort_by key (s ∷ ss) = insert_by key s (sort_by key ss)

abbrev pub max_devices : ℕ
max_devices = 5

module _ (db : Table Session) where
  unfoldable pub find_by_user_id : String → Sessions → Sessions
  find_by_user_id user_id rows = db.find_many (is_of_user user_id) rows

  unfoldable pub find_by_user_id_and_device_id : String → String → Sessions → Option Session
  find_by_user_id_and_device_id user_id device_id rows =
      db.find_first (is_device user_id device_id) rows

  unfoldable pub find_active_by_id : ℕ → String → Sessions → Option Session
  unfolding is_session
  find_active_by_id now id rows = db.find_first (λ s. is_session id s && ltb now s.expires_at) rows

  -- `updated_at` and `made_at` are the two readings of the clock.
  unfoldable pub upsert : (updated_at made_at created_at : ℕ) → UserSession → Sessions → Sessions
  unfolding refreshed new_session
  upsert updated_at made_at created_at login rows =
      db.upsert (is_device login.user_id login.device_id) (refreshed updated_at login)
        (new_session made_at created_at login) rows

  unfoldable pub delete_by_user_id : String → Sessions → ℕ × Sessions
  delete_by_user_id user_id rows = db.delete_many (is_of_user user_id) rows

  unfoldable pub delete_sessions_except_current : String → String → Sessions → ℕ × Sessions
  delete_sessions_except_current user_id id rows =
      db.delete_many (λ s. is_of_user user_id s && not (is_session id s)) rows

  unfoldable pub delete_by_ids : List String → Sessions → ℕ × Sessions
  unfolding is_in
  delete_by_ids ids rows = db.delete_many (λ s. is_in ids s.id) rows

  -- The sessions that `prepareForLogin` removes.
  unfoldable pub ids_to_delete : String → String → Sessions → List String
  unfolding last_active sort_by find_by_user_id
  ids_to_delete user_id device_id rows =
      let sessions = find_by_user_id user_id rows in
      map (λ (s : Session). s.id)
        (take (length sessions - max_devices)
          (sort_by last_active (filter (λ s. not (s.device_id == device_id)) sessions)))

  -- `excess <= 0` is tested as `length <= MAX_DEVICES`.
  unfoldable pub prepare_for_login : String → String → Sessions → Sessions
  unfolding ids_to_delete delete_by_ids find_by_user_id
  prepare_for_login user_id device_id rows =
      if leb (length (find_by_user_id user_id rows)) max_devices
      then rows
      else (delete_by_ids (ids_to_delete user_id device_id rows) rows).1

  -- The two messages of a deletion.
  abbrev deleted_message : ℕ → String
  deleted_message count =
      if nat_eq count 0 then "No sessions deleted" else show_nat count <> " sessions deleted"

  unfoldable pub delete_all_except_current_session : String → String → Action Sessions String
  unfolding delete_sessions_except_current
  delete_all_except_current_session user_id session_id rows =
      let (count, kept) = delete_sessions_except_current user_id session_id rows in
      (ok (deleted_message count), kept)

  unfoldable pub delete_all_sessions : String → Action Sessions String
  unfolding delete_by_user_id
  delete_all_sessions user_id rows =
      let (count, kept) = delete_by_user_id user_id rows in (ok (deleted_message count), kept)

  unfoldable pub delete_by_session_id : String → String → Action Sessions String
  unfolding delete_by_ids
  delete_by_session_id session_id user_id rows =
      (do
        session ←
            require (db.find_first (is_session session_id) rows) (not_found "Session not found")
        guard (session.user_id == user_id) (forbidden "You can only delete your own sessions")
        removed session_id)
        rows
    where
      removed : String → Action Sessions String
      removed session_id rows =
          let (count, kept) = delete_by_ids (session_id ∷ []) rows in
          (ok (if nat_eq count 0 then "No session deleted" else "Session deleted"), kept)

  -- `compare` is the hashing service's comparison of a token with a hash.
  unfoldable pub validate_session : (String → String → Bool) → ℕ → String → String → Sessions → Bool
  unfolding find_active_by_id
  validate_session compare now session_id token rows =
      elim (find_active_by_id now session_id rows) [
        | none ↦ false
        | some session ↦ compare token session.refresh_token_hash
      ]
