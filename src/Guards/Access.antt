-- ===== src/Guards/Access.antt =====
-- Who passes the guards.
use text.Mathlib.Text.{◌==◌}
use trust_post.Common.{
  ℕ, ◌≤◌, ◌<◌, ◌≡◌, refl, sym, ap, String, Bool, true, false, Option, none, some, Memᴰ, ltb,
  Bool-cases, Option-cases, inl, inr, ◌⊎◌, arith, eq_iff, ◌&&◌,
}
use trust_post.Common.Text.{codes}
use trust_post.Errors.{Failure, unauthorized, Result, ok, err, ok-injective}
use trust_post.Prisma.{Table}
use trust_post.Roles.{UserRoles, hierarchy}
use trust_post.Sessions.{Session, Sessions, is_session, find_active_by_id, validate_session}
use trust_post.Guards.{
  AccessPayload, RefreshPayload, RequestUser, RefreshUser, roles_guard, access_token_guard,
  guard_route, starts_with, second_word, refresh_token_guard,
}

result_cases : {A : Type 0} (x : Result A) → ((a : A) × (x ≡ ok a)) ⊎ ((f : Failure) × (x ≡ err f))
result_cases (ok a) = inl (a, refl)
result_cases (err f) = inr (f, refl)

roles_guard_lem :
    (required : UserRoles) (user : Option RequestUser)
    → roles_guard (some required) user ≡ ok true
    → (u : RequestUser) × (user ≡ some u) × (hierarchy required ≤ hierarchy u.role)
unfolding roles_guard
roles_guard_lem required none e = cc
roles_guard_lem required (some u) e = (u, refl, ground (arith, e))

abbrev role_or : Option RequestUser → UserRoles
role_or none = UserRoles.user
role_or (some u) = u.role

-- A request that passes both guards of a route that asks for a role, whether the route is marked as public or not, is for
-- a route that is not public (a public one has no user, so the roles guard refuses it), carries a token that was
-- verified, and has a role that stands at least as high as the role asked for.
pub guard_route-admits :
    (verify : String → Result AccessPayload) (is_public : Bool) (required : UserRoles)
    (header : Option String)
    → guard_route verify is_public (some required) header ≡ ok true
    → (is_public ≡ false)
      × ((auth : String) × (payload : AccessPayload) × (header ≡ some auth)
          × (verify (second_word auth) ≡ ok payload)
          × (hierarchy required ≤ hierarchy payload.role))
unfolding guard_route access_token_guard roles_guard
guard_route-admits verify true required header e = cc
guard_route-admits verify false required none e = cc
guard_route-admits verify false required (some auth) e =
    elim (Bool-cases (starts_with (codes "Bearer ") (codes auth))) [
      | inr other ↦ absurd (refused_header (rw (other, guard_route, access_token_guard) at e))
      | inl bearer ↦ elim (result_cases (verify (second_word auth))) [
        | inr (f, bad) ↦ absurd (refused f (rw (bearer, bad, guard_route, access_token_guard) at e))
        | inl (payload, good) ↦
            let (u, same, enough) =
              roles_guard_lem required
                (some (record { user_id = payload.sub; role = payload.role }))
                (rw (bearer, good, guard_route, access_token_guard) at e) in
            (refl, (auth, payload, refl, good, rw (ap role_or same) enough))
      ]
    ]
  where
    refused : (f : Failure) → ◌≡◌ {A = Result Bool} (err f) (ok true) → ⊥
    refused f e = cc

    refused_header : ◌≡◌ {A = Result Bool} (err (unauthorized "Unauthorized access")) (ok true) → ⊥
    refused_header e = cc

module _ (db : Table Session) (compare : String → String → Bool) where
  validate_session_lem :
      (now : ℕ) (id token : String) (rows : Sessions)
      → validate_session db compare now id token rows ≡ true
      → (s : Session) × Memᴰ s rows
        × (s.id ≡ id)
        × (now < s.expires_at)
        × (compare token s.refresh_token_hash ≡ true)
  unfolding validate_session find_active_by_id is_session
  validate_session_lem now id token rows e =
      elim (Option-cases (db.find_first (λ s. s.id == id && ltb now s.expires_at) rows)) [
        | inl missing ↦
            absurd (no (rw (missing, validate_session, find_active_by_id, is_session) at e))
        | inr (s, found) ↦
            let (m, fits) =
              db.find_first-some (λ s. s.id == id && ltb now s.expires_at) rows found in
            (
              s,
              m,
              ground (arith, fits, eq_iff s.id id),
              ground (arith, fits),
              rw (found, validate_session, find_active_by_id, is_session) at e,
            )
      ]
    where
      no : false ≡ true → ⊥
      no e = cc

  -- The user that the refresh guard puts on a request comes from a verified token, for whose session there is a row that has not
  -- expired and whose hash matches the token.
  pub refresh_token_guard_sound :
      (verify : String → Result RefreshPayload) (now : ℕ) (cookie : Option String) (rows : Sessions)
      (user : RefreshUser)
      → refresh_token_guard db compare verify now cookie rows ≡ ok user
      → (token : String) × (payload : RefreshPayload) × (s : Session) × (cookie ≡ some token)
        × (verify token ≡ ok payload)
        × (user ≡ record { user_id = payload.sub; session_id = payload.session_id })
        × Memᴰ s rows
        × (s.id ≡ payload.session_id)
        × (now < s.expires_at)
        × (compare token s.refresh_token_hash ≡ true)
  unfolding refresh_token_guard
  refresh_token_guard_sound verify now none rows user e = cc
  refresh_token_guard_sound verify now (some token) rows user e = elim (Bool-cases (token == "")) [
    | inl empty ↦ cc
    | inr given ↦ elim (result_cases (verify token)) [
      | inr (f, bad) ↦ cc
      | inl (payload, good) ↦
          elim (Bool-cases (validate_session db compare now payload.session_id token rows)) [
            | inr stale ↦ cc
            | inl valid ↦
                let (s, m, id, live, hash) =
                  validate_session_lem now payload.session_id token rows valid in
                (
                  token,
                  payload,
                  s,
                  refl,
                  good,
                  sym (ok-injective (rw (given, good, valid) at e)),
                  m,
                  id,
                  live,
                  hash,
                )
          ]
    ]
  ]
