-- ===== src/Prisma/Lists.antt =====
-- Rows that an update leaves alone, and the table of a list of rows, which meets the laws.
use trust_post.Common.{
  ◌≡◌, refl, ap, Bool, false, List, [], ◌∷◌, Memᴰ, All, arith, count, if◌then◌else◌, Bool-cases,
  inl, inr, ℕ, true, filter, take, zero, suc, any, is_some, Option-cases, sym,
}
use trust_post.Prisma.{Table, update_where}

module _ {R : Type 0} (p : R → Bool) (f : R → R) where
  -- A row that fails the test stays.
  pub update_where-mem :
      (rows : List R) {r : R} → p r ≡ false → Memᴰ r rows → Memᴰ r (update_where p f rows)
  update_where-mem [] h m = elim m [ ]
  update_where-mem (q ∷ rows) h (Memᴰ.head e) = Memᴰ.head (rw (← e) (rw h))
  update_where-mem (q ∷ rows) h (Memᴰ.tail m) = Memᴰ.tail (update_where-mem rows h m)

  pub update_where_none : (rows : List R) → count p rows ≡ 0 → update_where p f rows ≡ rows
  update_where_none [] h = refl
  update_where_none (q ∷ rows) h = elim (Bool-cases (p q)) [
    | inl fits ↦ absurd (ground arith)
    | inr misses ↦ rw misses (ap (λ l. q ∷ l) (update_where_none rows (ground arith)))
  ]

  pub update_where-All :
      (P Q : R → Type 0)
      → ((r : R) → P r → Q (if p r then f r else r))
      → (rows : List R) → All P rows
      → All Q (update_where p f rows)
  update_where-All P Q keep [] h = tt
  update_where-All P Q keep (r ∷ rows) (x, h) = (keep r x, update_where-All P Q keep rows h)

  pub update_where_misses :
      (rows : List R) → All (λ r. p r ≡ false) rows → update_where p f rows ≡ rows
  update_where_misses [] h = refl
  update_where_misses (r ∷ rows) (m, h) = rw m (ap (λ l. r ∷ l) (update_where_misses rows h))

pub count_misses :
    {R : Type 0} (p : R → Bool) (rows : List R) → All (λ r. p r ≡ false) rows → count p rows ≡ 0
count_misses p [] h = refl
count_misses p (r ∷ rows) (m, h) = rw m (omega (arith, count_misses p rows h))

-- Members of a list, of what a filter leaves of it, and of its first entries.
module _ {R : Type 0} where
  pub filter-mem :
      (p : R → Bool) (rows : List R) {r : R} → p r ≡ true → Memᴰ r rows → Memᴰ r (filter p rows)
  filter-mem p [] h m = elim m [ ]
  filter-mem p (q ∷ rows) h (Memᴰ.head e) =
      let fits : p q ≡ true = rw e at h in rw fits (Memᴰ.head e)
  filter-mem p (q ∷ rows) h (Memᴰ.tail m) = elim (Bool-cases (p q)) [
    | inl fits ↦ rw fits (Memᴰ.tail (filter-mem p rows h m))
    | inr misses ↦ rw misses (filter-mem p rows h m)
  ]

  pub mem-filter :
      (p : R → Bool) (rows : List R) {r : R} → Memᴰ r (filter p rows) → Memᴰ r rows × (p r ≡ true)
  mem-filter p [] m = elim m [ ]
  mem-filter p (q ∷ rows) {r} m = elim (Bool-cases (p q)) [
    | inl fits ↦ at_head fits (mem-filter p rows) (rw fits at m)
    | inr misses ↦ let (found, h) = mem-filter p rows (rw misses at m) in (Memᴰ.tail found, h)
  ]
    where
      at_head :
          p q ≡ true
          → (Memᴰ r (filter p rows) → Memᴰ r rows × (p r ≡ true))
          → Memᴰ r (q ∷ filter p rows)
          → Memᴰ r (q ∷ rows) × (p r ≡ true)
      at_head fits rest (Memᴰ.head e) = (Memᴰ.head e, rw e fits)
      at_head fits rest (Memᴰ.tail m) = let (found, h) = rest m in (Memᴰ.tail found, h)

  pub mem-take : (n : ℕ) (rows : List R) {r : R} → Memᴰ r (take n rows) → Memᴰ r rows
  mem-take zero rows m = elim m [ ]
  mem-take (suc n) [] m = elim m [ ]
  mem-take (suc n) (q ∷ rows) (Memᴰ.head e) = Memᴰ.head e
  mem-take (suc n) (q ∷ rows) (Memᴰ.tail m) = Memᴰ.tail (mem-take n rows m)

-- A test that some row passes, and one that none does.
module _ {R : Type 0} (p : R → Bool) where
  pub mem-any : (rows : List R) {r : R} → Memᴰ r rows → p r ≡ true → any p rows ≡ true
  mem-any [] m h = elim m [ ]
  mem-any (q ∷ rows) (Memᴰ.head e) h = let fits : p q ≡ true = rw e at h in ground arith
  mem-any (q ∷ rows) (Memᴰ.tail m) h = ground (arith, mem-any rows m h)

  pub any_misses : (rows : List R) → All (λ r. p r ≡ false) rows → any p rows ≡ false
  any_misses [] h = refl
  any_misses (q ∷ rows) (m, h) = ground (arith, m, any_misses rows h)

  pub any-none : (rows : List R) → any p rows ≡ false → All (λ r. p r ≡ false) rows
  any-none [] h = tt
  any-none (q ∷ rows) h = (ground (arith, h), any-none rows (ground (arith, h)))

-- A query that finds a row, as a test of the rows.
pub is_some-find_first :
    {R : Type 0} (t : Table R) (p : R → Bool) (rows : List R)
    → is_some (t.find_first p rows) ≡ any p rows
is_some-find_first t p rows = elim (Option-cases (t.find_first p rows)) [
  | inl missing ↦ rw missing (sym (any_misses p rows (t.find_first-none p rows missing)))
  | inr (r, found) ↦
      let (m, h) = t.find_first-some p rows found in rw found (sym (mem-any p rows m h))
]
