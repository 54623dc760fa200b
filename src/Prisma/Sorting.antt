-- ===== src/Prisma/Sorting.antt =====
-- `orderBy: { key: 'desc' }` on a list of rows: an insertion sort, which meets the laws.
use trust_post.Common.{
  ℕ, ◌≤◌, ◌≡◌, Bool, true, List, [], ◌∷◌, Memᴰ, All, All-weaken, arith, filter, if◌then◌else◌, ltb,
  Bool-cases, inl, inr,
}
use trust_post.Prisma.{IsDescending}
use trust_post.Prisma.Lists.{filter-mem, mem-filter}

module _ {R : Type 0} (key : R → ℕ) where
  -- The list with a row put before the first whose key is not greater.
  abbrev pub insert_desc : R → List R → List R
  insert_desc r [] = r ∷ []
  insert_desc r (q ∷ rows) =
      let rest = insert_desc r rows in if ltb (key r) (key q) then q ∷ rest else r ∷ q ∷ rows

  abbrev pub sort_desc : List R → List R
  sort_desc [] = []
  sort_desc (r ∷ rows) = insert_desc r (sort_desc rows)

  swap_head : (q t : R) (rows : List R) {r : R} → Memᴰ r (t ∷ q ∷ rows) → Memᴰ r (q ∷ t ∷ rows)
  swap_head q t rows (Memᴰ.head e) = Memᴰ.tail (Memᴰ.head e)
  swap_head q t rows (Memᴰ.tail (Memᴰ.head e)) = Memᴰ.head e
  swap_head q t rows (Memᴰ.tail (Memᴰ.tail m)) = Memᴰ.tail (Memᴰ.tail m)

  under_head :
      (t : R) {xs ys : List R} {r : R} → (Memᴰ r xs → Memᴰ r ys) → Memᴰ r (t ∷ xs) → Memᴰ r (t ∷ ys)
  under_head t f (Memᴰ.head e) = Memᴰ.head e
  under_head t f (Memᴰ.tail m) = Memᴰ.tail (f m)

  mem-insert_desc :
      (q : R) (rows : List R) {r : R} → Memᴰ r (insert_desc q rows) → Memᴰ r (q ∷ rows)
  mem-insert_desc q [] m = m
  mem-insert_desc q (t ∷ rows) m = elim (Bool-cases (ltb (key q) (key t))) [
    | inr done ↦ rw done at m
    | inl later ↦ swap_head q t rows (under_head t (mem-insert_desc q rows) (rw later at m))
  ]

  insert_desc-mem :
      (q : R) (rows : List R) {r : R} → Memᴰ r (q ∷ rows) → Memᴰ r (insert_desc q rows)
  insert_desc-mem q [] m = m
  insert_desc-mem q (t ∷ rows) m = elim (Bool-cases (ltb (key q) (key t))) [
    | inr done ↦ rw done m
    | inl later ↦ rw later (under_head t (insert_desc-mem q rows) (swap_head t q rows m))
  ]

  mem-sort_desc : (rows : List R) {r : R} → Memᴰ r (sort_desc rows) → Memᴰ r rows
  mem-sort_desc [] m = m
  mem-sort_desc (q ∷ rows) m =
      under_head q (mem-sort_desc rows) (mem-insert_desc q (sort_desc rows) m)

  sort_desc-mem : (rows : List R) {r : R} → Memᴰ r rows → Memᴰ r (sort_desc rows)
  sort_desc-mem [] m = m
  sort_desc-mem (q ∷ rows) m =
      insert_desc-mem q (sort_desc rows) (under_head q (sort_desc-mem rows) m)

  insert_desc-All :
      (P : R → Type 0) (q : R) (rows : List R) → P q → All P rows → All P (insert_desc q rows)
  insert_desc-All P q [] h hs = (h, tt)
  insert_desc-All P q (t ∷ rows) h (k, ks) = elim (Bool-cases (ltb (key q) (key t))) [
    | inr done ↦ rw done (h, (k, ks))
    | inl later ↦ rw later (k, insert_desc-All P q rows h ks)
  ]

  insert_desc-IsDescending :
      (q : R) (rows : List R) → IsDescending key rows → IsDescending key (insert_desc q rows)
  insert_desc-IsDescending q [] h = (tt, tt)
  insert_desc-IsDescending q (t ∷ rows) (first, rest) = elim (Bool-cases (ltb (key q) (key t))) [
    | inl later ↦ rw later (
      insert_desc-All (λ r. key r ≤ key t) q rows (ground arith) first,
      insert_desc-IsDescending q rows rest,
    )
    | inr done ↦
        let most : key t ≤ key q = ground arith in
        rw done (
          (
            most,
            All-weaken (λ r. key r ≤ key t) (λ r. key r ≤ key q) (λ r h. omega (arith, h, most))
                rows first,
          ),
          (first, rest),
        )
  ]

  pub sort_desc-IsDescending : (rows : List R) → IsDescending key (sort_desc rows)
  sort_desc-IsDescending [] = tt
  sort_desc-IsDescending (q ∷ rows) =
      insert_desc-IsDescending q (sort_desc rows) (sort_desc-IsDescending rows)

  abbrev pub sorted : (R → Bool) → List R → List R
  sorted p rows = sort_desc (filter p rows)

  pub mem-sorted :
      (p : R → Bool) (rows : List R) {r : R} → Memᴰ r (sorted p rows) → Memᴰ r rows × (p r ≡ true)
  mem-sorted p rows m = mem-filter p rows (mem-sort_desc (filter p rows) m)

  pub sorted-mem :
      (p : R → Bool) (rows : List R) {r : R} → Memᴰ r rows → p r ≡ true → Memᴰ r (sorted p rows)
  sorted-mem p rows m h = sort_desc-mem (filter p rows) (filter-mem p rows h m)
