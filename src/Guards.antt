-- ===== src/Guards.antt =====
-- common/guards under src: roles.guard.ts, access-token.guard.ts and refresh-token.guard.ts, which
-- let a request through, with the user that they put on it, or throw. What the decorators say of
-- the route is an argument, and so is the verification of a token (the JWT package), which throws
-- for a token that is not good.
pub mod Access
mod Tests
use Prim.Native.Char.{code}
use Prim.Native.String
use text.Mathlib.Text.{◌==◌}
use trust_post.Common.{
  ℕ, String, Bool, true, false, not, Option, none, some, List, [], ◌∷◌, nat_eq, ltb, get_or,
  if◌then◌else◌, ◌&&◌,
}
use trust_post.Common.Text.{codes}
use trust_post.Errors.{Failure, unauthorized, forbidden, Result, ok, err}
use trust_post.Prisma.{Table}
use trust_post.Roles.{UserRoles, hierarchy}
use trust_post.Sessions.{Session, Sessions, validate_session}

pub record AccessPayload : Type 0 where
  pub sub : String
  pub role : UserRoles

pub record RefreshPayload : Type 0 where
  pub sub : String
  pub session_id : String

-- `request.user` after the access guard, and after the refresh guard.
pub record RequestUser : Type 0 where
  pub user_id : String
  pub role : UserRoles

pub record RefreshUser : Type 0 where
  pub user_id : String
  pub session_id : String

-- `RolesGuard.canActivate` for the role that the route asks for, if any, and the request's user.
unfoldable pub roles_guard : Option UserRoles → Option RequestUser → Result Bool
roles_guard none user = ok true
roles_guard (some required) none = err (unauthorized "Unauthorized access")
roles_guard (some required) (some user) =
    if ltb (hierarchy user.role) (hierarchy required)
    then err (forbidden "Insufficient permissions for this resource")
    else ok true

-- `text.startsWith(prefix)`
unfoldable pub starts_with : List ℕ → List ℕ → Bool
starts_with [] text = true
starts_with (p ∷ ps) [] = false
starts_with (p ∷ ps) (c ∷ text) = nat_eq p c && starts_with ps text

-- The text up to the first space, and the text after it.
unfoldable pub until_space : String → String
until_space String.[] = ""
until_space (String.◌∷◌ c s) = if nat_eq (code c) 32 then "" else String.◌∷◌ c (until_space s)

unfoldable pub after_space : String → Option String
after_space String.[] = none
after_space (String.◌∷◌ c s) = if nat_eq (code c) 32 then some s else after_space s

-- `auth.split(' ')[1]`, which is there after `startsWith('Bearer ')`.
unfoldable pub second_word : String → String
unfolding until_space after_space
second_word auth = until_space (get_or (after_space auth) "")

-- `AccessTokenGuard.canActivate`: the answer, and the user that it puts on the request.
unfoldable pub access_token_guard :
    (String → Result AccessPayload) → Bool → Option String → Result (Option RequestUser)
unfolding starts_with second_word
access_token_guard verify true header = ok none
access_token_guard verify false none = err (unauthorized "Unauthorized access")
access_token_guard verify false (some auth) =
    if starts_with (codes "Bearer ") (codes auth)
    then elim (verify (second_word auth)) [
      | err f ↦ err f
      | ok payload ↦ ok (some (record { user_id = payload.sub; role = payload.role }))
    ]
    else err (unauthorized "Unauthorized access")

-- A route's two guards: the access guard of the whole application, then the guard of the roles.
unfoldable pub guard_route :
    (String → Result AccessPayload) → Bool → Option UserRoles → Option String → Result Bool
unfolding access_token_guard roles_guard
guard_route verify is_public required header = elim (access_token_guard verify is_public header) [
  | err f ↦ err f
  | ok user ↦ roles_guard required user
]

module _ (db : Table Session) (compare : String → String → Bool)
    (verify : String → Result RefreshPayload) where
  -- `RefreshTokenGuard.canActivate` for the cookie; an empty cookie is falsy.
  unfoldable pub refresh_token_guard : ℕ → Option String → Sessions → Result RefreshUser
  refresh_token_guard now none rows = err (unauthorized "Unauthorized access")
  refresh_token_guard now (some token) rows =
      if token == "" then err (unauthorized "Unauthorized access") else elim (verify token) [
        | err f ↦ err f
        | ok payload ↦
            if validate_session db compare now payload.session_id token rows
            then ok (record { user_id = payload.sub; session_id = payload.session_id })
            else err (unauthorized "Unauthorized access")
      ]
