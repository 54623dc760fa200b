-- ===== src/Actions.antt =====
-- Calls that read and change a state and may throw: what is changed before an exception stays
-- changed, as in the source, where nothing but a database transaction undoes a change.
use trust_post.Common.{arith, ◌≡◌, refl, ◌⊎◌, inl, inr, Bool, true, false, Option, none, some}
use trust_post.Errors.{Failure, Result, ok, err}

abbrev pub Action : Type 0 → Type 0 → Type 0
Action S A = S → Result A × S

abbrev pub pure : {S A : Type 0} → A → Action S A
pure a s = (ok a, s)

abbrev pub throw : {S A : Type 0} → Failure → Action S A
throw e s = (err e, s)

abbrev pub proceed : {S A B : Type 0} → Result A × S → (A → Action S B) → Result B × S
proceed (ok a, s) k = k a s
proceed (err e, s) k = (err e, s)

infixl 5 ◌>>=◌ ◌>>◌
abbrev pub ◌>>=◌ : {S A B : Type 0} → Action S A → (A → Action S B) → Action S B
◌>>=◌ m k s = proceed (m s) k

abbrev pub ◌>>◌ : {S B : Type 0} → Action S (Unit {0}) → Action S B → Action S B
m >> k = m >>= λ _. k

-- A call that changes the state and answers nothing.
abbrev pub modify : {S : Type 0} → (S → S) → Action S (Unit {0})
modify f s = (ok tt, f s)

-- `if (!b) throw e`
abbrev pub guard : {S : Type 0} → Bool → Failure → Action S (Unit {0})
guard true e s = (ok tt, s)
guard false e s = (err e, s)

-- `if (!o) throw e`, and the value otherwise.
abbrev pub require : {S A : Type 0} → Option A → Failure → Action S A
require none e s = (err e, s)
require (some a) e s = (ok a, s)

-- A call that neither reads nor changes the state.
abbrev pub lift : {S A : Type 0} → Result A → Action S A
lift (ok a) s = (ok a, s)
lift (err e) s = (err e, s)

-- `try { m } catch (error) { handler(error) }`
abbrev pub handled : {S A : Type 0} → Result A × S → (Failure → Action S A) → Result A × S
handled (ok a, s) handler = (ok a, s)
handled (err e, s) handler = handler e s

abbrev pub catch : {S A : Type 0} → Action S A → (Failure → Action S A) → Action S A
catch m handler s = handled (m s) handler

pub proceed-eq-ok :
    {S A B : Type 0} (x : Result A × S) (k : A → Action S B) {b : B} {u : S}
    → proceed x k ≡ (ok b, u)
    → (a : A) × (t : S) × (x ≡ (ok a, t)) × (k a t ≡ (ok b, u))
proceed-eq-ok (ok a, t) k e = (a, t, refl, e)
proceed-eq-ok (err f, t) k e = cc

-- A call that ends well went well at each step.
pub >>=-eq-ok :
    {S A B : Type 0} (m : Action S A) (k : A → Action S B) (s : S) {b : B} {u : S}
    → proceed (m s) k ≡ (ok b, u)
    → (a : A) × (t : S) × (m s ≡ (ok a, t)) × (k a t ≡ (ok b, u))
>>=-eq-ok m k s e = proceed-eq-ok (m s) k e

-- How a call ended, with the equation.
pub reply-cases :
    {S A : Type 0} (x : Result A × S)
    → ((a : A) × (s : S) × (x ≡ (ok a, s))) ⊎ ((f : Failure) × (s : S) × (x ≡ (err f, s)))
reply-cases (ok a, s) = inl (a, s, refl)
reply-cases (err f, s) = inr (f, s, refl)

-- To answer with a value after a call changes nothing more.
pub proceed-pure-state :
    {S A B : Type 0} (x : Result A × S) (b : B) → (proceed x (λ a. pure b)).1 ≡ x.1
proceed-pure-state (ok a, s) b = refl
proceed-pure-state (err f, s) b = refl

-- What holds of the states after each step holds of the state after all.
module _ {S : Type 0} (P : S → Type 0) where
  pub proceed-keeps :
      {A B : Type 0} (x : Result A × S) (k : A → Action S B)
      → P x.1
      → ((a : A) (t : S) → x ≡ (ok a, t) → P t → P (k a t).1)
      → P (proceed x k).1
  proceed-keeps (ok a, t) k h step = step a t refl h
  proceed-keeps (err f, t) k h step = h

  pub handled-keeps :
      {A : Type 0} (x : Result A × S) (handler : Failure → Action S A)
      → P x.1
      → ((f : Failure) (t : S) → P t → P (handler f t).1)
      → P (handled x handler).1
  handled-keeps (ok a, t) handler h step = h
  handled-keeps (err f, t) handler h step = step f t h

  -- A test and a lookup change nothing.
  pub guard-keeps :
      {B : Type 0} (b : Bool) (e : Failure) (k : Unit {0} → Action S B) (s : S)
      → P s
      → (b ≡ true → P (k tt s).1)
      → P (proceed (guard b e s) k).1
  guard-keeps true e k s h step = step refl
  guard-keeps false e k s h step = h

  pub require-keeps :
      {A B : Type 0} (o : Option A) (e : Failure) (k : A → Action S B) (s : S)
      → P s
      → ((a : A) → o ≡ some a → P (k a s).1)
      → P (proceed (require o e s) k).1
  require-keeps none e k s h step = h
  require-keeps (some a) e k s h step = step a refl

  pub require-last : {A : Type 0} (o : Option A) (e : Failure) (s : S) → P s → P (require o e s).1
  require-last none e s h = h
  require-last (some a) e s h = h

  pub guard-last : (b : Bool) (e : Failure) (s : S) → P s → P (guard b e s).1
  guard-last true e s h = h
  guard-last false e s h = h

pub require-eq-ok :
    {S A : Type 0} (o : Option A) (e : Failure) (s : S) {a : A} {t : S}
    → require o e s ≡ (ok a, t)
    → (o ≡ some a) × (s ≡ t)
require-eq-ok none e s h = absurd (ground (arith, h))
require-eq-ok (some x) e s h = (ground (arith, h), ground (arith, h))
