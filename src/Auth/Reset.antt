-- ===== src/Auth/Reset.antt =====
-- What a reset of a password leaves (`setPassword` of modules/auth/services/auth.service.ts under src).
use package.text.Mathlib.Text.{◌==◌}
use package.text.Mathlib.TextPositions.{eq_refl}
use trust_post.Common.{
  ◌≡◌, refl, sym, ap, subst, ℕ, String, true, false, not, none, some, List, [], ◌∷◌, any, filter,
  All, Bool-cases, Option-cases, inl, inr, arith,
}
use trust_post.Errors.{bad_request, Result, ok, err}
use trust_post.Actions.{proceed-eq-ok}
use trust_post.Prisma.{Table, update_where}
use trust_post.Prisma.Lists.{any_misses, mem-any}
use trust_post.Sessions.{Session, Sessions, is_of_user, delete_by_user_id, delete_all_sessions}
use trust_post.Auth.{
  AuthUser, AuthStore, Redis, Codec, SetPassword, is_auth_user, with_password, reset_key, truthy,
  parse_password_reset_payload, find_by_id, update_user, with_sessions, drop_link,
  reset_password_by_id, set_password, has_email, find_by_email, resend_password_reset,
}

-- Every user of the id has the password.
abbrev pub HasPassword : Codec → String → String → List AuthUser → Type 0
HasPassword codec id password users =
    All (λ u. is_auth_user id u ≡ true → u.password ≡ some (codec.create_hash password)) users

-- The user of the id has no session.
abbrev pub HasNoSession : String → Sessions → Type 0
HasNoSession id rows = All (λ r. is_of_user id r ≡ false) rows

no_session :
    (id : String) (rows : Sessions) → HasNoSession id (filter (λ r. not (is_of_user id r)) rows)
no_session id [] = tt
no_session id (r ∷ rows) = elim (Bool-cases (is_of_user id r)) [
  | inl own ↦ rw own (no_session id rows)
  | inr other ↦ rw other (other, no_session id rows)
]

module _ {R : Type 0} (user : Table AuthUser) (session : Table Session) (redis : Redis R)
    (codec : Codec) where
  changed :
      (id password : String) (rows : List AuthUser)
      → HasPassword codec id password
          (update_where (is_auth_user id) (with_password (codec.create_hash password)) rows)
  unfolding with_password
  changed id password [] = tt
  changed id password (u ∷ rows) = elim (Bool-cases (is_auth_user id u)) [
    | inl own ↦ (rw own (λ h. refl), changed id password rows)
    | inr other ↦ (rw other (λ h. absurd (ground (arith, other, h))), changed id password rows)
  ]

  reset-HasPassword :
      (id password : String) (s t : AuthStore R)
      → reset_password_by_id user session redis codec id password s ≡ (ok tt, t)
      → HasPassword codec id password t.users
  unfolding reset_password_by_id update_user
  reset-HasPassword id password s t e =
      elim (Option-cases (find_by_id user session redis codec id s)) [
        | inl missing ↦ absurd (ground (arith, rw missing at e))
        | inr (u, found) ↦ elim (Bool-cases (any (is_auth_user id) s.users)) [
          | inr none_there ↦ absurd (
              ground (
                arith,
                rw
                    (
                      found,
                      update_user,
                      user.update_lem (is_auth_user id) (with_password (codec.create_hash password))
                          s.users,
                      none_there,
                    )
                    at e,
              ))
          | inl there ↦
              subst
                (λ (x : Result (Unit {0}) × AuthStore R). HasPassword codec id password x.1.users)
                (rw
                  (
                    found,
                    update_user,
                    user.update_lem (is_auth_user id) (with_password (codec.create_hash password))
                        s.users,
                    there,
                  )
                  at e)
                (changed id password s.users)
        ]
      ]

  reset-any :
      (id password : String) (s t : AuthStore R)
      → reset_password_by_id user session redis codec id password s ≡ (ok tt, t)
      → any (is_auth_user id) s.users ≡ true
  unfolding reset_password_by_id update_user
  reset-any id password s t e = elim (Option-cases (find_by_id user session redis codec id s)) [
    | inl missing ↦ absurd (ground (arith, rw missing at e))
    | inr (u, found) ↦ elim (Bool-cases (any (is_auth_user id) s.users)) [
      | inl there ↦ there
      | inr none_there ↦ absurd (
          ground (
            arith,
            rw
                (
                  found,
                  update_user,
                  user.update_lem (is_auth_user id) (with_password (codec.create_hash password))
                      s.users,
                  none_there,
                )
                at e,
          ))
    ]
  ]

  -- The state after the sessions and the link are deleted.
  closed : String → String → AuthStore R → AuthStore R
  closed uuid id s =
      drop_link user session redis codec (reset_key uuid)
        (record s { sessions = (delete_by_user_id session id s.sessions).1 })

  closed-HasNoSession :
      (uuid id : String) (s : AuthStore R) → HasNoSession id (closed uuid id s).sessions
  unfolding closed drop_link delete_by_user_id
  closed-HasNoSession uuid id s =
      subst (λ (x : ℕ × Sessions). HasNoSession id x.1)
        (sym (session.delete_many_lem (is_of_user id) s.sessions)) (no_session id s.sessions)

  closed_users : (uuid id : String) (s : AuthStore R) → (closed uuid id s).users ≡ s.users
  unfolding closed drop_link
  closed_users uuid id s = refl

  closed_link :
      (uuid id : String) (s : AuthStore R)
      → redis.get (reset_key uuid) (closed uuid id s).links ≡ none
  unfolding closed drop_link
  closed_link uuid id s = redis.get-del (reset_key uuid) s.links

  -- A link that is gone is refused.
  refused :
      (uuid : String) (input : SetPassword) (s : AuthStore R)
      → (input.password == input.confirm_password) ≡ true
      → redis.get (reset_key uuid) s.links ≡ none
      → set_password user session redis codec uuid input s
        ≡ (err (bad_request "Invalid or expired password reset link"), s)
  unfolding set_password
  refused uuid input s same gone = rw (same, gone) refl

  -- A setPassword that ends well had a link with the id of a user; after it that user's password is the hash of the
  -- new one, the user has no session, and the link is used up: any setPassword by it with two equal
  -- passwords is refused and changes nothing.
  pub set_password_secures :
      (uuid : String) (input : SetPassword) (s t : AuthStore R)
      → set_password user session redis codec uuid input s ≡ (ok tt, t)
      → (payload : String) × (id : String) × (truthy (redis.get (reset_key uuid) s.links)
          ≡ some payload)
        × (parse_password_reset_payload codec payload ≡ some id)
        × (any (is_auth_user id) s.users ≡ true)
        × HasPassword codec id input.password t.users
        × HasNoSession id t.sessions
        × ((again : SetPassword)
            → (again.password == again.confirm_password) ≡ true
            → set_password user session redis codec uuid again t
              ≡ (err (bad_request "Invalid or expired password reset link"), t))
  unfolding set_password with_sessions delete_all_sessions closed
  set_password_secures uuid input s t e =
      elim (Bool-cases (input.password == input.confirm_password)) [
        | inr differ ↦ absurd (ground (arith, rw differ at e))
        | inl same ↦ elim (Option-cases (truthy (redis.get (reset_key uuid) s.links))) [
          | inl missing ↦ absurd (ground (arith, rw (same, missing) at e))
          | inr (payload, found) ↦
              elim (Option-cases (parse_password_reset_payload codec payload)) [
                | inl malformed ↦ absurd (ground (arith, rw (same, found, malformed) at e))
                | inr (id, parsed) ↦
                    let (a, u, reset, rest) =
                      proceed-eq-ok
                        (reset_password_by_id user session redis codec id input.password s) _
                        (rw (same, found, parsed) at e) in
                    let done : closed uuid id u ≡ t =
                      ap (λ (x : Result (Unit {0}) × AuthStore R). x.1) rest in
                    (
                      payload,
                      id,
                      found,
                      parsed,
                      reset-any id input.password s u reset,
                      subst (λ (x : AuthStore R). HasPassword codec id input.password x.users) done
                          (rw (closed_users uuid id u)
                            (reset-HasPassword id input.password s u reset)),
                      subst (λ (x : AuthStore R). HasNoSession id x.sessions) done
                          (closed-HasNoSession uuid id u),
                      λ again equal. refused uuid again t equal (
                          subst (λ (x : AuthStore R). redis.get (reset_key uuid) x.links ≡ none)
                            done (closed_link uuid id u)),
                    )
              ]
        ]
      ]

  reset_ok :
      (id password : String) (s : AuthStore R)
      → any (is_auth_user id) s.users ≡ true
      → (t : AuthStore R) × (reset_password_by_id user session redis codec id password s
          ≡ (ok tt, t))
  unfolding reset_password_by_id update_user find_by_id
  reset_ok id password s there = elim (Option-cases (user.find_first (is_auth_user id) s.users)) [
    | inl missing ↦
        let misses =
          any_misses (is_auth_user id) s.users
            (user.find_first-none (is_auth_user id) s.users missing) in
        absurd (ground (arith, there, misses))
    | inr (u, found) ↦ (
      record s {
        users = update_where (is_auth_user id) (with_password (codec.create_hash password)) s.users;
      },
      rw
          (
            found,
            update_user,
            user.update_lem (is_auth_user id) (with_password (codec.create_hash password)) s.users,
            there,
          )
          refl,
    )
  ]

  -- The payload of a link that was just made gives the user's id.
  payload_read :
      (id email : String)
      → (id == "") ≡ false
      → (truthy (some (codec.stringify id email)) ≡ some (codec.stringify id email))
        × (parse_password_reset_payload codec (codec.stringify id email) ≡ some id)
  unfolding parse_password_reset_payload
  payload_read id email given =
      (rw (codec.stringify_nonempty id email) refl, rw (codec.parse-stringify id email, given) refl)

  -- A link that resendPasswordReset makes for a user with a verified address works: setPassword by it with two
  -- equal passwords ends well. (The id of the user is not the empty text.)
  pub reset_link_works :
      (uuid email : String) (input : SetPassword) (s : AuthStore R) (u : AuthUser)
      → find_by_email user session redis codec email s ≡ some u
      → u.is_email_verified ≡ true
      → (u.id == "") ≡ false
      → (input.password == input.confirm_password) ≡ true
      → (set_password user session redis codec uuid input
          (resend_password_reset user session redis codec uuid email s).1).0
        ≡ ok tt
  unfolding set_password resend_password_reset find_by_email with_sessions delete_all_sessions
      is_auth_user
  reset_link_works uuid email input s u found verified given same =
      let (there, own) = user.find_first-some (has_email email) s.users found in
      let payload = codec.stringify u.id u.email in
      let t : AuthStore R = record s { links = redis.set (reset_key uuid) payload 3600 s.links } in
      let (full, parsed) = payload_read u.id u.email given in
      let (w, reset) =
        reset_ok u.id input.password t (mem-any (is_auth_user u.id) s.users there (eq_refl u.id)) in
      rw (resend_password_reset, found, verified)
        (rw
          (
            same,
            redis.get-set (reset_key uuid) payload 3600 s.links (omega arith),
            full,
            parsed,
            reset,
          )
          refl)
