-- ===== src/Errors.antt =====
-- shared/errors/app-errors.ts under src: the exceptions that the services throw, each with its
-- message, and the HTTP status of each; infrastructure/filters/errors/prisma-exception.ts: the
-- status that answers an error of the database client, known by its code. Any other error is
-- `external`, which the catch-all filter answers with 500.
-- The result of a fallible call is a value or an exception.
use text.Mathlib.Text.{◌==◌}
use trust_post.Common.{ℕ, String, ◌≡◌, refl, ◌⊎◌, inl, inr, ◌||◌, if◌then◌else◌}

pub data Failure : Type 0 where
  not_found validation unauthorized forbidden : String → Failure
  internal conflict service_unavailable bad_request : String → Failure
  config : String → Failure
  prisma external : String → Failure

-- The `switch` of `handlePrismaError`.
prisma_status : String → ℕ
prisma_status code =
    if code == "P2025"
    then 404
    else if code == "P2002"
    then 409
    else if code == "P2014"
    then 400
    else if code == "P2003"
    then 400
    else if code == "P2019"
    then 400
    else if code == "P2006" || code == "P2007"
    then 400
    else 500

-- The status that each constructor of an exception passes to `AppError`.
pub status_code : Failure → ℕ
unfolding prisma_status
status_code (not_found message) = 404
status_code (validation message) = 400
status_code (unauthorized message) = 401
status_code (forbidden message) = 403
status_code (internal message) = 500
status_code (conflict message) = 409
status_code (service_unavailable message) = 503
status_code (bad_request message) = 400
status_code (config message) = 500
status_code (prisma code) = prisma_status code
status_code (external message) = 500

pub data Result {ℓ} (A : Type ℓ) : Type ℓ where
  ok : A → Result A
  err : Failure → Result A

-- A fallible call after another.
abbrev pub and_then : {A B : Type 0} → Result A → (A → Result B) → Result B
and_then (ok a) k = k a
and_then (err e) k = err e

pub ok-injective {ℓ} : {A : Type ℓ} {a b : A} → ok a ≡ ok b → a ≡ b
ok-injective e = cc

-- How a call ended, with the equation.
pub Result-cases :
    {A : Type 0} (x : Result A) → ((a : A) × (x ≡ ok a)) ⊎ ((f : Failure) × (x ≡ err f))
Result-cases (ok a) = inl (a, refl)
Result-cases (err f) = inr (f, refl)
