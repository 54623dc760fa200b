-- ===== src/Common/Trimming.antt =====
-- Trimmed texts, and which of them are empty.
use Prim.Native.Nat.{ℕ}
use mathlib.Core.Path.{◌≡◌, refl, sym, ap, ◌∙◌}
use mathlib.Core.Bool.{Bool, true, false, not, ◌||◌}
use mathlib.Core.Logic.{inl, inr}
use mathlib.Core.List.{List, [], ◌∷◌, ◌++◌, reverse, reverse-cons}
use native.Mathlib.Omega.{arith}
use trust_post.Common.Tests.{Bool-cases}
use trust_post.Common.Lists.{any}
use trust_post.Common.Text.{is_space, trim, trim_start}

-- `list.length > 0`
abbrev pub is_nonempty : {A : Type 0} → List A → Bool
is_nonempty [] = false
is_nonempty (x ∷ rest) = true

module _ {A : Type 0} (p : A → Bool) where
  any-append : (xs ys : List A) → any p (xs ++ ys) ≡ (any p xs || any p ys)
  any-append [] ys = refl
  any-append (x ∷ xs) ys = ground (arith, any-append xs ys)

  any-reverse : (xs : List A) → any p (reverse xs) ≡ any p xs
  any-reverse [] = refl
  any-reverse (x ∷ xs) =
      ap (any p) (reverse-cons x xs)
      ∙ any-append (reverse xs) (x ∷ [])
      ∙ ground (arith, any-reverse xs)

nonempty-append : {A : Type 0} (xs : List A) (x : A) → is_nonempty (xs ++ x ∷ []) ≡ true
nonempty-append [] x = refl
nonempty-append (y ∷ xs) x = refl

nonempty-reverse : {A : Type 0} (xs : List A) → is_nonempty (reverse xs) ≡ is_nonempty xs
nonempty-reverse [] = refl
nonempty-reverse (x ∷ xs) = ap is_nonempty (reverse-cons x xs) ∙ nonempty-append (reverse xs) x

-- A character that is no white space.
abbrev is_ink : ℕ → Bool
is_ink c = not (is_space c)

any-trim_start : (s : List ℕ) → any is_ink (trim_start s) ≡ any is_ink s
any-trim_start [] = refl
any-trim_start (c ∷ s) = elim (Bool-cases (is_space c)) [
  | inl space ↦ rw space (any-trim_start s)
  | inr ink ↦ rw ink (rw ink refl)
]

nonempty-trim_start : (s : List ℕ) → is_nonempty (trim_start s) ≡ any is_ink s
nonempty-trim_start [] = refl
nonempty-trim_start (c ∷ s) = elim (Bool-cases (is_space c)) [
  | inl space ↦ rw space (nonempty-trim_start s)
  | inr ink ↦ rw ink refl
]

any-trim : (s : List ℕ) → any is_ink (trim s) ≡ any is_ink s
any-trim s =
    any-reverse is_ink (trim_start (reverse (trim_start s)))
    ∙ any-trim_start (reverse (trim_start s))
    ∙ any-reverse is_ink (trim_start s)
    ∙ any-trim_start s

pub nonempty-trim : (s : List ℕ) → is_nonempty (trim s) ≡ any is_ink s
nonempty-trim s =
    nonempty-reverse (trim_start (reverse (trim_start s)))
    ∙ nonempty-trim_start (reverse (trim_start s))
    ∙ any-reverse is_ink (trim_start s)
    ∙ any-trim_start s

-- To trim a trimmed text leaves it as empty as it was.
pub nonempty-trim-trim : (s : List ℕ) → is_nonempty (trim (trim s)) ≡ is_nonempty (trim s)
nonempty-trim-trim s = nonempty-trim (trim s) ∙ any-trim s ∙ sym (nonempty-trim s)
