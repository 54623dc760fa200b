-- ===== src/Prisma/ListTable.antt =====
-- A table and a transaction that meet the laws of the parent's records: the rows in a list, and
-- the state before the transaction put back after an exception.
use trust_post.Common.{
  ℕ, ◌≤◌, ◌≡◌, refl, Bool, true, false, not, Option, none, some, List, [], ◌∷◌, ◌++◌, Memᴰ, All,
  any, arith, count, filter, if◌then◌else◌, ltb, Bool-cases, Option-cases, inl, inr,
}
use trust_post.Errors.{Result, ok, err}
use trust_post.Prisma.Sorting.{sorted, mem-sorted, sorted-mem, sort_desc-IsDescending}
use trust_post.Prisma.{Table, Transaction, update_where}

module _ {R : Type 0} where
  abbrev first : (R → Bool) → List R → Option R
  first p [] = none
  first p (r ∷ rows) = if p r then some r else first p rows

  pub first-some :
      (p : R → Bool) (rows : List R) {r : R} → first p rows ≡ some r → Memᴰ r rows × (p r ≡ true)
  first-some p [] e = cc
  first-some p (q ∷ rows) {r} e = elim (Bool-cases (p q)) [
    | inl fits ↦
        let same : q ≡ r = ground (arith, rw fits at e) in
        (Memᴰ.head (rw same refl), rw same at fits)
    | inr misses ↦ let (m, h) = first-some p rows (rw misses at e) in (Memᴰ.tail m, h)
  ]

  pub first-none :
      (p : R → Bool) (rows : List R) → first p rows ≡ none → All (λ r. p r ≡ false) rows
  first-none p [] e = tt
  first-none p (q ∷ rows) e = elim (Bool-cases (p q)) [
    | inl fits ↦ absurd (ground (arith, rw fits at e))
    | inr misses ↦ (misses, first-none p rows (rw misses at e))
  ]

  -- The greater of a row and the greatest row of the rest.
  abbrev greater : (R → ℕ) → R → Option R → R
  greater key r none = r
  greater key r (some q) = if ltb (key q) (key r) then r else q

  abbrev latest : (R → ℕ) → (R → Bool) → List R → Option R
  latest key p [] = none
  latest key p (r ∷ rows) =
      let rest = latest key p rows in if p r then some (greater key r rest) else rest

  pub latest-some :
      (key : R → ℕ) (p : R → Bool) (rows : List R) {r : R}
      → latest key p rows ≡ some r
      → Memᴰ r rows × (p r ≡ true)
  latest-some key p [] e = cc
  latest-some key p (q ∷ rows) {r} e = elim (Bool-cases (p q)) [
    | inl fits ↦ elim (Option-cases (latest key p rows)) [
      | inl alone ↦
          let same : q ≡ r = ground (arith, rw (fits, alone) at e) in
          (Memᴰ.head (rw same refl), rw same at fits)
      | inr (best, found) ↦ elim (Bool-cases (ltb (key best) (key q))) [
        | inl less ↦
            let same : q ≡ r = ground (arith, rw (fits, found, less) at e) in
            (Memᴰ.head (rw same refl), rw same at fits)
        | inr more ↦
            let same : best ≡ r = ground (arith, rw (fits, found, more) at e) in
            let (m, h) = latest-some key p rows found in (Memᴰ.tail (rw same at m), rw same at h)
      ]
    ]
    | inr misses ↦ let (m, h) = latest-some key p rows (rw misses at e) in (Memᴰ.tail m, h)
  ]

  pub latest-none :
      (key : R → ℕ) (p : R → Bool) (rows : List R)
      → latest key p rows ≡ none
      → All (λ r. p r ≡ false) rows
  latest-none key p [] e = tt
  latest-none key p (q ∷ rows) e = elim (Bool-cases (p q)) [
    | inl fits ↦ absurd (ground (arith, rw fits at e))
    | inr misses ↦ (misses, latest-none key p rows (rw misses at e))
  ]

  -- A bound on the keys of the rows that fit.
  below :
      (key : R → ℕ) (p : R → Bool) (rows : List R) (most : ℕ)
      → ((best : R) → latest key p rows ≡ some best → key best ≤ most)
      → All (λ q. p q ≡ true → key q ≤ most) rows
  below key p [] most h = tt
  below key p (q ∷ rows) most h = (own, below key p rows most later)
    where
      own : p q ≡ true → key q ≤ most
      own fits = elim (Option-cases (latest key p rows)) [
        | inl alone ↦ h q (rw (fits, alone))
        | inr (best, found) ↦ elim (Bool-cases (ltb (key best) (key q))) [
          | inl less ↦ h q (rw (fits, found, less))
          | inr more ↦ let bound : key best ≤ most = h best (rw (fits, found, more)) in ground arith
        ]
      ]

      later : (best : R) → latest key p rows ≡ some best → key best ≤ most
      later best found = elim (Bool-cases (p q)) [
        | inr misses ↦ h best (rw misses found)
        | inl fits ↦ elim (Bool-cases (ltb (key best) (key q))) [
          | inl less ↦ let bound : key q ≤ most = h q (rw (fits, found, less)) in ground arith
          | inr more ↦ h best (rw (fits, found, more))
        ]
      ]

  pub latest-greatest :
      (key : R → ℕ) (p : R → Bool) (rows : List R) {r : R}
      → latest key p rows ≡ some r
      → All (λ q. p q ≡ true → key q ≤ key r) rows
  latest-greatest key p rows {r} e =
      below key p rows (key r) (λ best found. same_key best (found) e)
    where
      same_key :
          (best : R) → latest key p rows ≡ some best → latest key p rows ≡ some r → key best ≤ key r
      same_key best found e' = let same : best ≡ r = cc in rw same (omega arith)

  abbrev pub list_table : Table R
  list_table = record {
    find_first = first;
    find_latest = latest;
    find_many = filter;
    create = λ r rows. rows ++ r ∷ [];
    update = λ p f rows. if any p rows then some (update_where p f rows) else none;
    update_many = λ p f rows. (count p rows, update_where p f rows);
    delete = λ p rows. if any p rows then some (filter (λ r. not (p r)) rows) else none;
    find_sorted = sorted;
    upsert = λ p f r rows. if any p rows then update_where p f rows else rows ++ r ∷ [];
    delete_many = λ p rows. (count p rows, filter (λ r. not (p r)) rows);
    find_first-some = first-some;
    find_first-none = first-none;
    find_latest-some = latest-some;
    find_latest-none = latest-none;
    find_latest-greatest = latest-greatest;
    find_many_lem = λ p rows. refl;
    create_lem = λ r rows. refl;
    update_lem = λ p f rows. refl;
    update_many_lem = λ p f rows. refl;
    delete_lem = λ p rows. refl;
    find_sorted-mem = mem-sorted;
    mem-find_sorted = sorted-mem;
    find_sorted-IsDescending = λ key p rows. sort_desc-IsDescending key (filter p rows);
    upsert_lem = λ p f r rows. refl;
    delete_many_lem = λ p rows. refl;
  }

-- The state as it was if the result is an exception.
abbrev undo_on_error : {S A : Type 0} → S → Result A × S → Result A × S
undo_on_error s (ok a, t) = (ok a, t)
undo_on_error s (err f, t) = (err f, s)

abbrev pub list_transaction : {S A : Type 0} → Transaction S A
list_transaction = record {
  run = λ m s. undo_on_error s (m s);
  commits = λ m s e. rw e;
  rolls_back = λ m s e. rw e;
}
