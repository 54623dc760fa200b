-- ===== src/Prisma/Slices.antt =====
-- The first entries of a list in descending order, as a page of rows takes them.
use trust_post.Common.{
  ◌≡◌, refl, ap, ℕ, zero, suc, ◌≤◌, true, false, Option, none, some, List, [], ◌∷◌, take, length,
  length-take, ltb, Memᴰ, All, All-mem, ◌⊎◌, inl, inr, Bool-cases, arith, if◌then◌else◌,
}
use trust_post.Prisma.{IsDescending}

-- `slice[slice.length - 1]`
abbrev pub last : {A : Type 0} → List A → Option A
last [] = none
last (x ∷ []) = some x
last (x ∷ y ∷ rest) = last (y ∷ rest)

module _ {R : Type 0} where
  -- The first entries of a list, read with one more to see whether there are more.
  pub slice_lem :
      (n : ℕ) (rows : List R)
      → (if ltb n (length (take (suc n) rows))
          then take n (take (suc n) rows)
          else take (suc n) rows)
        ≡ take n rows
  slice_lem zero [] = refl
  slice_lem (suc n) [] = ground arith
  slice_lem zero (r ∷ rows) = ground arith
  slice_lem (suc n) (r ∷ rows) = elim (Bool-cases (ltb n (length (take (suc n) rows)))) [
    | inl more ↦
        let ih : take n (take (suc n) rows) ≡ take n rows = rw more at (slice_lem n rows) in
        let big : ltb (suc n) (suc (length (take (suc n) rows))) ≡ true = ground (arith, more) in
        rw big (ap (λ l. r ∷ l) ih)
    | inr fewer ↦
        let ih : take (suc n) rows ≡ take n rows = rw fewer at (slice_lem n rows) in
        let small : ltb (suc n) (suc (length (take (suc n) rows))) ≡ false =
          ground (arith, fewer) in
        rw small (ap (λ l. r ∷ l) ih)
  ]

  pub more_lem : (n : ℕ) (rows : List R) → ltb n (length (take (suc n) rows)) ≡ ltb n (length rows)
  more_lem n rows = ground (arith, length-take (suc n) rows)

  pub last-some : (r : R) (rows : List R) → (q : R) × (last (r ∷ rows) ≡ some q)
  last-some r [] = (r, refl)
  last-some r (q ∷ rows) = last-some q rows

  module _ (key : R → ℕ) where
    pub take-All : (P : R → Type 0) (n : ℕ) (rows : List R) → All P rows → All P (take n rows)
    take-All P zero rows h = tt
    take-All P (suc n) [] h = tt
    take-All P (suc n) (r ∷ rows) (x, h) = (x, take-All P n rows h)

    pub take-IsDescending :
        (n : ℕ) (rows : List R) → IsDescending key rows → IsDescending key (take n rows)
    take-IsDescending zero rows h = tt
    take-IsDescending (suc n) [] h = tt
    take-IsDescending (suc n) (r ∷ rows) (least, h) =
        (take-All (λ q. key q ≤ key r) n rows least, take-IsDescending n rows h)

    -- An entry is among the first, or it is no greater than any of them.
    pub first_or_later :
        (n : ℕ) (rows : List R) (r : R)
        → IsDescending key rows
        → Memᴰ r rows
        → Memᴰ r (take n rows)
          ⊎ ((ltb n (length rows) ≡ true) × All (λ q. key r ≤ key q) (take n rows))
    first_or_later n [] r h m = elim m [ ]
    first_or_later zero (q ∷ rows) r h m = inr (ground arith, tt)
    first_or_later (suc n) (q ∷ rows) r h (Memᴰ.head e) = inl (Memᴰ.head e)
    first_or_later (suc n) (q ∷ rows) r (least, h) (Memᴰ.tail m) =
        elim (first_or_later n rows r h m) [
          | inl early ↦ inl (Memᴰ.tail early)
          | inr (more, later) ↦
              inr (ground (arith, more), (All-mem (λ p. key p ≤ key q) rows least m, later))
        ]

  pub all_mem : (P : R → Type 0) (rows : List R) → ((r : R) → Memᴰ r rows → P r) → All P rows
  all_mem P [] h = tt
  all_mem P (r ∷ rows) h = (h r (Memᴰ.head refl), all_mem P rows (λ q m. h q (Memᴰ.tail m)))
