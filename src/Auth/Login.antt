-- ===== src/Auth/Login.antt =====
-- Who can log in, and what a login leaves (`login` of modules/auth/services/auth.service.ts under src).
use package.text.Mathlib.Text.{◌==◌}
use package.text.Mathlib.TextPositions.{eq_refl}
use trust_post.Common.{
  ◌≡◌, refl, sym, ap, ◌∙◌, subst, ℕ, String, Bool, true, ◌&&◌, [], ◌∷◌, ◌++◌, any, Memᴰ, Bool-cases,
  Option-cases, inl, inr, arith,
}
use trust_post.Errors.{Result, ok}
use trust_post.Prisma.{Table, update_where}
use trust_post.Sessions.{
  Session, Sessions, UserSession, is_device, refreshed, new_session, upsert,
  find_by_user_id_and_device_id, prepare_for_login,
}
use trust_post.Auth.{
  AuthUser, AuthStore, Redis, Codec, LoginContext, UserCredentials, has_email, password_matches,
  session_id_of, find_by_email, login_session, store_session, login,
}

-- A session of the device that has the hash.
abbrev pub is_open : String → String → String → Session → Bool
is_open user_id device_id hash r = is_device user_id device_id r && r.refresh_token_hash == hash

module _ (now : ℕ) (row : UserSession) where
  refreshed_open :
      (rows : Sessions)
      → any (is_device row.user_id row.device_id) rows ≡ true
      → any
          (is_open row.user_id row.device_id row.refresh_token_hash)
          (update_where (is_device row.user_id row.device_id) (refreshed now row) rows)
        ≡ true
  unfolding refreshed is_device
  refreshed_open [] h = h
  refreshed_open (r ∷ rows) h = elim (Bool-cases (is_device row.user_id row.device_id r)) [
    | inl own ↦ rw own (rw (own, eq_refl row.refresh_token_hash) refl)
    | inr other ↦ rw other (ground (arith, refreshed_open rows (rw other at h)))
  ]

  appended_open :
      (created_at : ℕ) (rows : Sessions)
      → any
          (is_open row.user_id row.device_id row.refresh_token_hash)
          (rows ++ new_session now created_at row ∷ [])
        ≡ true
  unfolding new_session is_device
  appended_open created_at [] =
      rw (eq_refl row.user_id, eq_refl row.device_id, eq_refl row.refresh_token_hash) refl
  appended_open created_at (r ∷ rows) = ground (arith, appended_open created_at rows)

upsert-any :
    (db : Table Session) (updated_at made_at created_at : ℕ) (row : UserSession) (rows : Sessions)
    → any
        (is_open row.user_id row.device_id row.refresh_token_hash)
        (upsert db updated_at made_at created_at row rows)
      ≡ true
unfolding upsert
upsert-any db updated_at made_at created_at row rows =
    ap (any (is_open row.user_id row.device_id row.refresh_token_hash)) (
      db.upsert_lem (is_device row.user_id row.device_id) (refreshed updated_at row)
        (new_session made_at created_at row) rows)
    ∙ elim (Bool-cases (any (is_device row.user_id row.device_id) rows)) [
      | inl there ↦ rw there (refreshed_open updated_at row rows there)
      | inr missing ↦ rw missing (appended_open made_at row created_at rows)
    ]

module _ {R : Type 0} (user : Table AuthUser) (session : Table Session) (redis : Redis R)
    (codec : Codec) where
  -- A login that ends well is of a user with the address given, whose password matches, who is active and has a
  -- verified address; and the user then has a session for the device with the hash of the refresh token
  -- that is answered. The users stay as they are.
  pub login_sound :
      (ctx : LoginContext) (input : UserCredentials) (s t : AuthStore R) (access refresh : String)
      → login user session redis codec ctx input s ≡ (ok (access, refresh), t)
      → (u : AuthUser) × Memᴰ u s.users
        × (has_email input.email u ≡ true)
        × (password_matches user session redis codec input.password u.password ≡ true)
        × (u.is_active ≡ true)
        × (u.is_email_verified ≡ true)
        × (any (is_open u.id input.device_id (codec.create_hash refresh)) t.sessions ≡ true)
        × (t.users ≡ s.users)
  unfolding login find_by_email store_session login_session
  login_sound ctx input s t access refresh e =
      elim (Option-cases (user.find_first (has_email input.email) s.users)) [
        | inl missing ↦ absurd (ground (arith, rw missing at e))
        | inr (u, found) ↦
            elim (Bool-cases
              (password_matches user session redis codec input.password u.password)) [
                | inr wrong ↦ absurd (ground (arith, rw (found, wrong) at e))
                | inl right ↦ elim (Bool-cases u.is_active) [
                  | inr inactive ↦ absurd (ground (arith, rw (found, right, inactive) at e))
                  | inl active ↦ elim (Bool-cases u.is_email_verified) [
                    | inr unverified ↦
                        absurd (ground (arith, rw (found, right, active, unverified) at e))
                    | inl verified ↦
                        let (there, own) =
                          user.find_first-some (has_email input.email) s.users found in
                        let done = rw (found, right, active, verified) at e in
                        let id =
                          session_id_of user session redis codec ctx.new_session_id (
                            find_by_user_id_and_device_id session u.id input.device_id
                              s.sessions) in
                        let token : ctx.generate_refresh u.id id ≡ refresh = ground (arith, done) in
                        let row =
                          login_session user session redis codec ctx id
                            (ctx.generate_refresh u.id id) u input in
                        let after : store_session user session redis codec ctx row s ≡ t =
                          ap (λ (x : Result (String × String) × AuthStore R). x.1) done in
                        (
                          u,
                          there,
                          own,
                          right,
                          active,
                          verified,
                          subst
                              (λ (x : AuthStore R).
                                any (is_open u.id input.device_id (codec.create_hash refresh))
                                  x.sessions
                                ≡ true)
                              after
                              (subst
                                (λ (k : String).
                                  any (is_open u.id input.device_id (codec.create_hash k))
                                    (store_session user session redis codec ctx row s).sessions
                                  ≡ true)
                                token
                                (upsert-any session ctx.updated_at ctx.made_at ctx.created_at row (
                                  prepare_for_login session row.user_id row.device_id s.sessions))),
                          ap (λ (x : AuthStore R). x.users) (sym after),
                        )
                  ]
                ]
              ]
      ]
