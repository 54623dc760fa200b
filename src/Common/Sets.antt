-- ===== src/Common/Sets.antt =====
-- `Array.from(new Set(xs))`: each string once, where it first stands.
use text.Mathlib.Text.{◌==◌}
use trust_post.Common.Tests.{Bool-cases}
use trust_post.Common.Lists.{any}
use Prim.Native.String.{String}
use mathlib.Core.Path.{◌≡◌, sym, subst}
use mathlib.Core.Logic.{◌≢◌, inl, inr}
use mathlib.Core.Bool.{Bool, true, false}
use mathlib.Core.List.{List, [], ◌∷◌}
use trust_post.Common.Lists.{All, All-weaken}
use native.Mathlib.Omega.{arith}
use text.Mathlib.TextEquality.{eq_iff}

unfoldable pub is_among : String → List String → Bool
is_among x xs = any (λ y. y == x) xs

-- The strings that are not among those seen, once each.
unfoldable pub unique_from : List String → List String → List String
unique_from seen [] = []
unique_from seen (x ∷ xs) = elim (is_among x seen) [
  | true ↦ unique_from seen xs
  | false ↦ x ∷ unique_from (x ∷ seen) xs
]

unfoldable pub unique : List String → List String
unfolding unique_from
unique xs = unique_from [] xs

-- No string stands twice.
abbrev pub IsUnique : List String → Type 0
IsUnique [] = Unit
IsUnique (x ∷ xs) = All (λ y. y ≢ x) xs × IsUnique xs

unique_from-old :
    (seen : List String) (x : String) (xs : List String)
    → is_among x seen ≡ true
    → unique_from seen (x ∷ xs) ≡ unique_from seen xs
unfolding unique_from
unique_from-old seen x xs h = rw (h, unique_from)

unique_from-new :
    (seen : List String) (x : String) (xs : List String)
    → is_among x seen ≡ false
    → unique_from seen (x ∷ xs) ≡ x ∷ unique_from (x ∷ seen) xs
unfolding unique_from
unique_from-new seen x xs h = rw (h, unique_from)

is_among-cons :
    (x y : String) (seen : List String)
    → is_among y (x ∷ seen) ≡ false
    → (y ≢ x) × (is_among y seen ≡ false)
unfolding is_among
is_among-cons x y seen h = (λ e. ground (arith, h, eq_iff x y, e), ground (arith, h))

unique_from-unseen :
    (seen xs : List String) → All (λ y. is_among y seen ≡ false) (unique_from seen xs)
unfolding unique_from
unique_from-unseen seen [] = tt
unique_from-unseen seen (x ∷ xs) = elim (Bool-cases (is_among x seen)) [
  | inl old ↦
      subst (λ l. All (λ y. is_among y seen ≡ false) l) (sym (unique_from-old seen x xs old))
        (unique_from-unseen seen xs)
  | inr new ↦
      subst (λ l. All (λ y. is_among y seen ≡ false) l) (sym (unique_from-new seen x xs new))
        (
          new,
          All-weaken (λ y. is_among y (x ∷ seen) ≡ false) (λ y. is_among y seen ≡ false)
              (λ y h. (is_among-cons x y seen h).1) (unique_from (x ∷ seen) xs)
              (unique_from-unseen (x ∷ seen) xs),
        )
]

unique_from-IsUnique : (seen xs : List String) → IsUnique (unique_from seen xs)
unfolding unique_from
unique_from-IsUnique seen [] = tt
unique_from-IsUnique seen (x ∷ xs) = elim (Bool-cases (is_among x seen)) [
  | inl old ↦ subst IsUnique (sym (unique_from-old seen x xs old)) (unique_from-IsUnique seen xs)
  | inr new ↦ subst IsUnique (sym (unique_from-new seen x xs new)) (
    All-weaken (λ y. is_among y (x ∷ seen) ≡ false) (λ y. y ≢ x)
        (λ y h. (is_among-cons x y seen h).0) (unique_from (x ∷ seen) xs)
        (unique_from-unseen (x ∷ seen) xs),
    unique_from-IsUnique (x ∷ seen) xs,
  )
]

pub unique-IsUnique : (xs : List String) → IsUnique (unique xs)
unfolding unique
unique-IsUnique xs = unique_from-IsUnique [] xs
