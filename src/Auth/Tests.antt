-- ===== src/Auth/Tests.antt =====
-- The theorems of the login at a concrete store.
use package.text.Mathlib.Text.{◌==◌}
use package.text.Mathlib.TextPositions.{eq_refl}
use trust_post.Common.{
  ◌≡◌, refl, String, true, false, Option, none, some, List, [], ◌∷◌, any, Memᴰ, if◌then◌else◌,
  Bool-cases, inl, inr, ap, arith, eq_iff,
}
use trust_post.Errors.{bad_request, ok, err}
use trust_post.Roles.{UserRoles}
use trust_post.Prisma.ListTable.{list_table}
use trust_post.Sessions.{
  Session, delete_all_sessions, delete_by_user_id, is_of_user, is_device,
  find_by_user_id_and_device_id, prepare_for_login, find_by_user_id, upsert, refreshed,
}
use trust_post.Auth.{
  AuthUser, AuthStore, Redis, Codec, LoginContext, UserCredentials, SetPassword, reset_key, truthy,
  parse_password_reset_payload, set_password, resend_password_reset, login, password_matches,
  is_auth_user, has_email, find_by_email, find_by_id, update_user, with_password,
  reset_password_by_id, with_sessions, drop_link, store_session, login_session,
}
use trust_post.Auth.Reset.{HasPassword, HasNoSession, set_password_secures, reset_link_works}
use trust_post.Auth.Login.{is_open, login_sound}

-- Keys in a list, the newest first.
abbrev find_key : String → List (String × Option String) → Option String
find_key key [] = none
find_key key ((k, value) ∷ rest) =
    let older = find_key key rest in if k == key then value else older

newest :
    (key : String) (value : Option String) (rest : List (String × Option String))
    → find_key key ((key, value) ∷ rest) ≡ value
newest key value rest = rw (eq_refl key) refl

abbrev list_redis : Redis (List (String × Option String))
list_redis = record {
  get = find_key;
  set = λ key value ttl r. (key, some value) ∷ r;
  del = λ key r. (key, none) ∷ r;
  get-set = λ key value ttl r h. newest key (some value) r;
  get-del = λ key r. newest key none r;
}

-- The text after the first character.
abbrev rest_of : String → Option (Option String)
rest_of String.[] = none
rest_of (String.◌∷◌ c s) = some (some s)

-- A mark before the text.
abbrev marked : String → String → String
marked String.[] s = s
marked (String.◌∷◌ c m) s = String.◌∷◌ c s

marked_nonempty : (s : String) → (marked "{" s == "") ≡ false
marked_nonempty s = elim (Bool-cases (marked "{" s == "")) [
  | inr differ ↦ differ
  | inl same ↦
      let gone : some (some s) ≡ none = ap rest_of ((eq_iff (marked "{" s) "").0 same) in
      absurd (ground (arith, gone))
]

abbrev plain_codec : Codec
plain_codec = record {
  create_hash = marked "#";
  verify = λ password hash. marked "#" password == hash;
  verify-create_hash = λ password. eq_refl (marked "#" password);
  stringify = λ id email. marked "{" id;
  stringify_nonempty = λ id email. marked_nonempty id;
  parse = rest_of;
  parse-stringify = λ id email. refl;
}

abbrev ann : AuthUser
ann = record {
  id = "u1";
  email = "ann@x";
  password = some "#old";
  role = UserRoles.user;
  is_active = true;
  is_email_verified = true;
}

abbrev ann_session : Session
ann_session = record {
  id = "s1";
  user_id = "u1";
  refresh_token_hash = "#t";
  device_id = "phone";
  user_agent = "";
  ip = "";
  last_used_at = none;
  expires_at = 90;
  created_at = 5;
}

abbrev store : AuthStore (List (String × Option String))
store = record {
  users = ann ∷ [];
  sessions = ann_session ∷ [];
  links = (reset_key "k", some "{u1") ∷ [];
}

abbrev new_password : SetPassword
new_password = record { password = "new"; confirm_password = "new" }

abbrev after_reset : AuthStore (List (String × Option String))
after_reset = record {
  users = record ann { password = some "#new" } ∷ [];
  sessions = [];
  links = (reset_key "k", none) ∷ (reset_key "k", some "{u1") ∷ [];
}

reset_run :
    set_password list_table list_table list_redis plain_codec "k" new_password store
    ≡ (ok tt, after_reset)
unfolding set_password parse_password_reset_payload reset_password_by_id find_by_id update_user
    with_password with_sessions delete_all_sessions delete_by_user_id is_of_user drop_link
    is_auth_user
reset_run = refl

set_password_secures_example :
    (payload : String) × (id : String) × (truthy (list_redis.get (reset_key "k") store.links)
      ≡ some payload)
    × (parse_password_reset_payload plain_codec payload ≡ some id)
    × (any (is_auth_user id) store.users ≡ true)
    × HasPassword plain_codec id "new" after_reset.users
    × HasNoSession id after_reset.sessions
    × ((again : SetPassword)
        → (again.password == again.confirm_password) ≡ true
        → set_password list_table list_table list_redis plain_codec "k" again after_reset
          ≡ (err (bad_request "Invalid or expired password reset link"), after_reset))
set_password_secures_example =
    set_password_secures list_table list_table list_redis plain_codec "k" new_password store
      after_reset reset_run

ann_found : find_by_email list_table list_table list_redis plain_codec "ann@x" store ≡ some ann
unfolding find_by_email has_email
ann_found = refl

reset_link_works_example :
    (set_password list_table list_table list_redis plain_codec "k2" new_password
      (resend_password_reset list_table list_table list_redis plain_codec "k2" "ann@x" store).1).0
    ≡ ok tt
reset_link_works_example =
    reset_link_works list_table list_table list_redis plain_codec "k2" "ann@x" new_password store
      ann ann_found refl refl refl

abbrev context : LoginContext
context = record {
  generate_access = λ id role. id;
  generate_refresh = λ id session. session;
  user_agent = "";
  ip = "";
  new_session_id = "s2";
  updated_at = 10;
  made_at = 11;
  created_at = 12;
  expires_at = 100;
}

abbrev from_phone : UserCredentials
from_phone = record { email = "ann@x"; password = "old"; device_id = "phone" }

abbrev after_login : AuthStore (List (String × Option String))
after_login = record {
  users = store.users;
  sessions =
      record ann_session { refresh_token_hash = "#s1"; last_used_at = some 10; expires_at = 100 }
      ∷ [];
  links = store.links;
}

login_run :
    login list_table list_table list_redis plain_codec context from_phone store
    ≡ (ok ("u1", "s1"), after_login)
unfolding login find_by_email has_email login_session store_session find_by_user_id_and_device_id
    prepare_for_login find_by_user_id upsert refreshed is_device is_of_user
login_run = refl

login_sound_example :
    (u : AuthUser) × Memᴰ u store.users
    × (has_email "ann@x" u ≡ true)
    × (password_matches list_table list_table list_redis plain_codec "old" u.password ≡ true)
    × (u.is_active ≡ true)
    × (u.is_email_verified ≡ true)
    × (any (is_open u.id "phone" (plain_codec.create_hash "s1")) after_login.sessions ≡ true)
    × (after_login.users ≡ store.users)
login_sound_example =
    login_sound list_table list_table list_redis plain_codec context from_phone store after_login
      "u1" "s1" login_run
