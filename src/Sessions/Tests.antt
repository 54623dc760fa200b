-- ===== src/Sessions/Tests.antt =====
-- The theorems of the sessions at concrete rows.
use trust_post.Common.{ℕ, refl, String, some, [], ◌∷◌, Memᴰ, inr}
use trust_post.Common.Text.{apart}
use trust_post.Prisma.ListTable.{list_table}
use trust_post.Sessions.{Session, Sessions, prepare_for_login, delete_by_session_id}
use trust_post.Sessions.Ownership.{
  HasUniqueSessions, prepare_for_login-mem, delete_by_session_id-mem,
}

abbrev session_of : String → String → String → ℕ → Session
session_of id user device used = record {
  id = id;
  user_id = user;
  refresh_token_hash = "hash";
  device_id = device;
  user_agent = "Firefox";
  ip = "10.0.0.1";
  last_used_at = some used;
  expires_at = 9000;
  created_at = 1;
}

abbrev rows : Sessions
rows =
    session_of "s1" "u1" "phone" 3
    ∷ session_of "s2" "u1" "tablet" 4
    ∷ session_of "s3" "u1" "laptop" 5
    ∷ session_of "s4" "u1" "tv" 6
    ∷ session_of "s5" "u1" "watch" 7
    ∷ session_of "s6" "u1" "car" 8
    ∷ session_of "s7" "u2" "desk" 9
    ∷ []

rows-HasUniqueSessions : HasUniqueSessions rows
rows-HasUniqueSessions = (
  (apart refl, (apart refl, (apart refl, (apart refl, (apart refl, (apart refl, tt)))))),
  (
    (apart refl, (apart refl, (apart refl, (apart refl, (apart refl, tt))))),
    (
      (apart refl, (apart refl, (apart refl, (apart refl, tt)))),
      (
        (apart refl, (apart refl, (apart refl, tt))),
        ((apart refl, (apart refl, tt)), ((apart refl, tt), (tt, tt))),
      ),
    ),
  ),
)

prepare_for_login-mem_example :
    Memᴰ (session_of "s1" "u1" "phone" 3) (prepare_for_login list_table "u1" "phone" rows)
prepare_for_login-mem_example =
    prepare_for_login-mem list_table rows rows-HasUniqueSessions (session_of "s1" "u1" "phone" 3)
      (Memᴰ.head refl) "u1" "phone" (inr refl)

delete_by_session_id-mem_example :
    Memᴰ (session_of "s1" "u1" "phone" 3) (delete_by_session_id list_table "s1" "u2" rows).1
delete_by_session_id-mem_example =
    delete_by_session_id-mem list_table rows rows-HasUniqueSessions (session_of "s1" "u1" "phone" 3)
      (Memᴰ.head refl) "s1" "u2" (apart refl)
