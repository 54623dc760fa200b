-- ===== src/Auth.antt =====
-- modules/auth/services/auth.service.ts under src, with the operations of modules/users/services/users.service.ts
-- and modules/users/repo/users-repo.ts that it calls: login, logout and the links that set a
-- password or verify an address. The columns that nothing here reads are left out, and so are log lines
-- and the mails; the clock and new ids are arguments.
pub mod Reset
pub mod Login
mod Tests
use package.text.Mathlib.Text.{◌==◌}
use trust_post.Common.{
  ◌≡◌, ◌<◌, ℕ, String, Bool, true, false, not, ◌&&◌, Option, none, some, List, [], ◌∷◌,
  if◌then◌else◌,
}
use trust_post.Common.Text.{◌<>◌}
use trust_post.Errors.{bad_request, not_found, prisma, Result, ok, err}
use trust_post.Actions.{Action, pure, modify, guard, require, ◌>>=◌, ◌>>◌, proceed}
use trust_post.Roles.{UserRoles}
use trust_post.Prisma.{Table}
use trust_post.Sessions.{
  Session, Sessions, UserSession, find_by_user_id_and_device_id, prepare_for_login, upsert,
  delete_all_sessions, delete_by_session_id,
}

pub record AuthUser : Type 0 where
  pub id : String
  pub email : String
  pub password : Option String
  pub role : UserRoles
  pub is_active : Bool
  pub is_email_verified : Bool

-- Redis, reached by the ioredis package: the keys that have not expired. `set` has the lifetime of the key
-- in seconds (`SETEX`); a key with a lifetime is there when it has just been set, which is all that
-- the law says, so how long it stays is left open.
pub record Redis (R : Type 0) : Type 0 where
  pub get : String → R → Option String
  pub set : String → String → ℕ → R → R
  pub del : String → R → R
  pub get-set :
      (key value : String) (ttl_seconds : ℕ) (r : R)
      → 0 < ttl_seconds
      → get key (set key value ttl_seconds r) ≡ some value
  pub get-del : (key : String) (r : R) → get key (del key r) ≡ none

-- The hashing of passwords and tokens (the argon2 package), and JSON's reading and writing of the payload of a reset: the
-- user id that it has, if that is a string; a text that is no object throws.
pub record Codec : Type 0 where
  pub create_hash : String → String
  pub verify : String → String → Bool
  pub verify-create_hash : (password : String) → verify password (create_hash password) ≡ true
  pub stringify : String → String → String
  pub parse : String → Option (Option String)
  pub stringify_nonempty : (id email : String) → (stringify id email == "") ≡ false
  pub parse-stringify : (id email : String) → parse (stringify id email) ≡ some (some id)

-- The tables and the links in Redis.
pub record AuthStore (R : Type 0) : Type 0 where
  pub users : List AuthUser
  pub sessions : Sessions
  pub links : R

pub record UserCredentials : Type 0 where
  pub email : String
  pub password : String
  pub device_id : String

pub record SetPassword : Type 0 where
  pub password : String
  pub confirm_password : String

-- What a login takes from outside: the signing of tokens (JWT), the request, a new id and the clock.
pub record LoginContext : Type 0 where
  pub generate_access : String → UserRoles → String
  pub generate_refresh : String → String → String
  pub user_agent : String
  pub ip : String
  pub new_session_id : String
  pub updated_at : ℕ
  pub made_at : ℕ
  pub created_at : ℕ
  pub expires_at : ℕ

-- `where: { id }`, `where: { email }`
unfoldable pub is_auth_user : String → AuthUser → Bool
is_auth_user id u = u.id == id

unfoldable pub has_email : String → AuthUser → Bool
has_email email u = u.email == email

-- `data` of the updates.
unfoldable pub with_password : String → AuthUser → AuthUser
with_password hash u = record u { password = some hash }

unfoldable pub with_verified_email : AuthUser → AuthUser
with_verified_email u = record u { is_email_verified = true }

unfoldable pub activated : String → AuthUser → AuthUser
activated hash u = record u { password = some hash; is_email_verified = true; is_active = true }

-- A key of Redis.
abbrev pub reset_key : String → String
reset_key uuid = "password-reset:" <> uuid

abbrev pub verify_key : String → String
verify_key uuid = "email-verify:" <> uuid

abbrev pub activate_key : String → String
activate_key uuid = "activate-account:" <> uuid

-- The id, unless it is empty.
abbrev pub unless_empty : String → Option String
unless_empty id = if id == "" then none else some id

abbrev read_payload : String → Option (Option String) → Option String
read_payload payload none = unless_empty payload
read_payload payload (some none) = none
read_payload payload (some (some id)) = unless_empty id

-- `parsePasswordResetPayload`: the user id; an older payload is the user id itself.
unfoldable pub parse_password_reset_payload : Codec → String → Option String
parse_password_reset_payload codec payload = read_payload payload (codec.parse payload)

-- `if (!value)` on a text that may be missing.
abbrev pub truthy : Option String → Option String
truthy none = none
truthy (some value) = unless_empty value

module _ {R : Type 0} (user : Table AuthUser) (session : Table Session) (redis : Redis R)
    (codec : Codec) where
  unfoldable pub find_by_email : String → AuthStore R → Option AuthUser
  unfolding has_email
  find_by_email email s = user.find_first (has_email email) s.users

  unfoldable pub find_by_id : String → AuthStore R → Option AuthUser
  unfolding is_auth_user
  find_by_id id s = user.find_first (is_auth_user id) s.users

  -- `user.update` by the id.
  unfoldable pub update_user : (AuthUser → AuthUser) → String → Action (AuthStore R) (Unit {0})
  unfolding is_auth_user
  update_user change id s = elim (user.update (is_auth_user id) change s.users) [
    | none ↦ (err (prisma "P2025"), s)
    | some rows ↦ (ok tt, record s { users = rows })
  ]

  -- A call on the sessions, within the state.
  unfoldable pub with_sessions : {A : Type 0} → Action Sessions A → Action (AuthStore R) A
  with_sessions m s = let (result, rows) = m s.sessions in (result, record s { sessions = rows })

  unfoldable pub drop_link : String → AuthStore R → AuthStore R
  drop_link key s = record s { links = redis.del key s.links }

  unfoldable pub reset_password_by_id : String → String → Action (AuthStore R) (Unit {0})
  unfolding find_by_id update_user with_password
  reset_password_by_id id password s =
      (do
        found ← require (find_by_id id s) (not_found "User not found")
        update_user (with_password (codec.create_hash password)) id)
        s

  unfoldable pub activate_user : String → String → Action (AuthStore R) (Unit {0})
  unfolding find_by_id update_user activated
  activate_user id password s =
      (do
        found ← require (find_by_id id s) (not_found "User not found")
        update_user (activated (codec.create_hash password)) id)
        s

  unfoldable pub set_password : String → SetPassword → Action (AuthStore R) (Unit {0})
  unfolding parse_password_reset_payload reset_password_by_id with_sessions drop_link
  set_password uuid input s =
      (do
        guard (input.password == input.confirm_password) (bad_request "Passwords do not match")
        payload ←
            require (truthy (redis.get (reset_key uuid) s.links))
              (bad_request "Invalid or expired password reset link")
        id ←
            require (parse_password_reset_payload codec payload)
              (bad_request "Invalid or expired password reset link")
        reset_password_by_id id input.password
        note ← with_sessions (delete_all_sessions session id)
        modify (drop_link (reset_key uuid)))
        s

  unfoldable pub verify_email : String → Action (AuthStore R) (Unit {0})
  unfolding update_user with_verified_email drop_link
  verify_email uuid s =
      (do
        id ←
            require (truthy (redis.get (verify_key uuid) s.links))
              (bad_request "Invalid or expired verification link")
        update_user with_verified_email id
        modify (drop_link (verify_key uuid)))
        s

  unfoldable pub activate_account : String → SetPassword → Action (AuthStore R) String
  unfolding activate_user with_sessions drop_link
  activate_account uuid input s =
      (do
        guard (input.password == input.confirm_password) (bad_request "Passwords do not match")
        id ←
            require (truthy (redis.get (activate_key uuid) s.links))
              (bad_request "Invalid or expired account activation link")
        activate_user id input.password
        note ← with_sessions (delete_all_sessions session id)
        modify (drop_link (activate_key uuid))
        pure "Account activated successfully, you can now log in")
        s

  unfoldable pub logout : String → String → Action (AuthStore R) String
  unfolding with_sessions
  logout session_id user_id = do
    note ← with_sessions (delete_by_session_id session session_id user_id)
    pure "Logged out successfully"

  unfoldable pub logout_all : String → Action (AuthStore R) String
  unfolding with_sessions
  logout_all user_id = do
    note ← with_sessions (delete_all_sessions session user_id)
    pure "Logged out from all sessions successfully"

  -- The link of `generateTemporaryLink` for the verification of an address; the text is what the mail holds.
  unfoldable pub generate_temporary_link :
      String → String → String → String → ℕ → AuthStore R → String × AuthStore R
  generate_temporary_link front_url uuid user_id key_prefix ttl_seconds s = (
    front_url <> "/" <> key_prefix <> "/" <> uuid,
    record s { links = redis.set (key_prefix <> ":" <> uuid) user_id ttl_seconds s.links },
  )

  unfoldable pub resend_email_verification : String → String → String → Action (AuthStore R) String
  unfolding find_by_email generate_temporary_link
  resend_email_verification front_url uuid email s =
      let message : String = "If the email exists, a verification link has been sent" in
      elim (find_by_email email s) [
        | none ↦ (ok message, s)
        | some u ↦
            if u.is_email_verified
            then (ok message, s)
            else (ok message, (generate_temporary_link front_url uuid u.id "email-verify" 3600 s).1)
      ]

  unfoldable pub resend_password_reset : String → String → Action (AuthStore R) String
  unfolding find_by_email
  resend_password_reset uuid email s =
      let message : String =
        "If the email exists and is verified, a password reset link has been sent" in
      elim (find_by_email email s) [
        | none ↦ (ok message, s)
        | some u ↦
            if u.is_email_verified
            then (
              ok message,
              record s {
                links = redis.set (reset_key uuid) (codec.stringify u.id u.email) 3600 s.links;
              },
            )
            else (ok message, s)
      ]

  -- The session that a login stores.
  unfoldable pub login_session :
      LoginContext → String → String → AuthUser → UserCredentials → UserSession
  login_session ctx session_id refresh_token u input = record {
    session_id = session_id;
    user_id = u.id;
    refresh_token_hash = codec.create_hash refresh_token;
    device_id = input.device_id;
    user_agent = ctx.user_agent;
    ip = ctx.ip;
    expires_at = ctx.expires_at;
  }

  -- `session ? session.sessionId : uuidv4()`
  abbrev pub session_id_of : String → Option Session → String
  session_id_of new_id none = new_id
  session_id_of new_id (some found) = found.id

  -- The sessions after a login: room is made, then the session of the device is stored.
  unfoldable pub store_session : LoginContext → UserSession → AuthStore R → AuthStore R
  store_session ctx row s = record s {
    sessions =
        upsert session ctx.updated_at ctx.made_at ctx.created_at row
          (prepare_for_login session row.user_id row.device_id s.sessions);
  }

  -- The password of a user who has one.
  abbrev pub password_matches : String → Option String → Bool
  password_matches password none = false
  password_matches password (some hash) = not (hash == "") && codec.verify password hash

  unfoldable pub login : LoginContext → UserCredentials → Action (AuthStore R) (String × String)
  unfolding find_by_email login_session store_session
  login ctx input s =
      (do
        u ← require (find_by_email input.email s) (bad_request "Invalid credentials")
        guard (password_matches input.password u.password) (bad_request "Invalid credentials")
        guard u.is_active (bad_request "Invalid credentials")
        guard u.is_email_verified (bad_request "Verify your email before logging in")
        let session_id =
            session_id_of ctx.new_session_id
              (find_by_user_id_and_device_id session u.id input.device_id s.sessions)
        let access_token = ctx.generate_access u.id u.role
        let refresh_token = ctx.generate_refresh u.id session_id
        modify (store_session ctx (login_session ctx session_id refresh_token u input))
        pure (access_token, refresh_token))
        s

  -- A new access token for a user that exists.
  unfoldable pub refresh : LoginContext → String → Action (AuthStore R) String
  unfolding find_by_id
  refresh ctx user_id s =
      (do
        u ← require (find_by_id user_id s) (not_found "User not found")
        pure (ctx.generate_access u.id u.role))
        s
