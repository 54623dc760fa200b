-- ===== src/Prisma.antt =====
-- The database, which the services reach through the Prisma client. Neither Prisma nor PostgreSQL
-- is part of the repository, so a table is a parameter: its queries as functions of the table's
-- rows, with their documented behaviour as laws. A `where` argument is the test that it states.
-- The rows stand in the order of their creation; `find_first` without an order may answer with
-- any row that fits.
pub mod Lists
pub mod Keys
pub mod Slices
pub mod Sorting
pub mod ListTable
use trust_post.Common.{
  ℕ, ◌≤◌, ◌≡◌, Bool, true, false, not, Option, none, some, List, [], ◌∷◌, ◌++◌, Memᴰ, All, any, ◌⊎◌,
  inl, inr, count, filter, if◌then◌else◌,
}
use trust_post.Errors.{Failure, Result, ok, err}
use trust_post.Actions.{Action, reply-cases}

-- The rows with those that pass the test changed.
abbrev pub update_where {ℓ} : {R : Type ℓ} → (R → Bool) → (R → R) → List R → List R
update_where p f [] = []
update_where p f (r ∷ rows) = (if p r then f r else r) ∷ update_where p f rows

-- Each entry's key is at least those of the entries after it.
abbrev pub IsDescending {ℓ} : {R : Type ℓ} → (R → ℕ) → List R → Type 0
IsDescending key [] = Unit
IsDescending key (r ∷ rows) = All (λ q. key q ≤ key r) rows × IsDescending key rows

pub record Table (R : Type 0) : Type 0 where
  -- `findFirst` and `findUnique`.
  pub find_first : (R → Bool) → List R → Option R
  -- `findFirst` with `orderBy: { key: 'desc' }`.
  pub find_latest : (R → ℕ) → (R → Bool) → List R → Option R
  pub find_many : (R → Bool) → List R → List R
  pub create : R → List R → List R
  -- `update` by a unique field throws P2025 where no row fits: `none`.
  pub update : (R → Bool) → (R → R) → List R → Option (List R)
  -- The number of rows that fitted, and the rows.
  pub update_many : (R → Bool) → (R → R) → List R → ℕ × List R
  -- `delete` by a unique field throws P2025 where no row fits: `none`.
  pub delete : (R → Bool) → List R → Option (List R)
  -- `findMany` with `orderBy: { key: 'desc' }`.
  pub find_sorted : (R → ℕ) → (R → Bool) → List R → List R
  -- `upsert`: the update where a row fits, and the new row where none does.
  pub upsert : (R → Bool) → (R → R) → R → List R → List R
  pub delete_many : (R → Bool) → List R → ℕ × List R
  pub find_first-some :
      (p : R → Bool) (rows : List R) {r : R}
      → find_first p rows ≡ some r
      → Memᴰ r rows × (p r ≡ true)
  pub find_first-none :
      (p : R → Bool) (rows : List R) → find_first p rows ≡ none → All (λ r. p r ≡ false) rows
  pub find_latest-some :
      (key : R → ℕ) (p : R → Bool) (rows : List R) {r : R}
      → find_latest key p rows ≡ some r
      → Memᴰ r rows × (p r ≡ true)
  pub find_latest-none :
      (key : R → ℕ) (p : R → Bool) (rows : List R)
      → find_latest key p rows ≡ none
      → All (λ r. p r ≡ false) rows
  pub find_latest-greatest :
      (key : R → ℕ) (p : R → Bool) (rows : List R) {r : R}
      → find_latest key p rows ≡ some r
      → All (λ q. p q ≡ true → key q ≤ key r) rows
  pub find_many_lem : (p : R → Bool) (rows : List R) → find_many p rows ≡ filter p rows
  pub create_lem : (r : R) (rows : List R) → create r rows ≡ rows ++ r ∷ []
  pub update_lem :
      (p : R → Bool) (f : R → R) (rows : List R)
      → update p f rows ≡ (if any p rows then some (update_where p f rows) else none)
  pub update_many_lem :
      (p : R → Bool) (f : R → R) (rows : List R)
      → update_many p f rows ≡ (count p rows, update_where p f rows)
  pub upsert_lem :
      (p : R → Bool) (f : R → R) (r : R) (rows : List R)
      → upsert p f r rows ≡ (if any p rows then update_where p f rows else rows ++ r ∷ [])
  pub delete_lem :
      (p : R → Bool) (rows : List R)
      → delete p rows ≡ (if any p rows then some (filter (λ r. not (p r)) rows) else none)
  pub find_sorted-mem :
      (key : R → ℕ) (p : R → Bool) (rows : List R) {r : R}
      → Memᴰ r (find_sorted key p rows)
      → Memᴰ r rows × (p r ≡ true)
  pub mem-find_sorted :
      (key : R → ℕ) (p : R → Bool) (rows : List R) {r : R}
      → Memᴰ r rows
      → p r ≡ true
      → Memᴰ r (find_sorted key p rows)
  pub find_sorted-IsDescending :
      (key : R → ℕ) (p : R → Bool) (rows : List R) → IsDescending key (find_sorted key p rows)
  pub delete_many_lem :
      (p : R → Bool) (rows : List R)
      → delete_many p rows ≡ (count p rows, filter (λ r. not (p r)) rows)

-- `$transaction(fn)`: what `fn` changed is undone if it throws. (The wrapper `transaction` of
-- modules/prisma/prisma.service.ts passes its argument on.)
pub record Transaction (S A : Type 0) : Type 0 where
  pub run : Action S A → Action S A
  pub commits : (m : Action S A) (s : S) {a : A} {t : S} → m s ≡ (ok a, t) → run m s ≡ (ok a, t)
  pub rolls_back :
      (m : Action S A) (s : S) {f : Failure} {t : S} → m s ≡ (err f, t) → run m s ≡ (err f, s)

-- A transaction that ends well ends as its function does; another leaves the state as it was.
pub run-cases :
    {S A : Type 0} (tx : Transaction S A) (m : Action S A) (s : S)
    → ((a : A) × (t : S) × (m s ≡ (ok a, t)) × (tx.run m s ≡ (ok a, t)))
      ⊎ ((f : Failure) × (t : S) × (m s ≡ (err f, t)) × (tx.run m s ≡ (err f, s)))
run-cases tx m s = elim (reply-cases (m s)) [
  | inl (a, t, e) ↦ inl (a, t, e, tx.commits m s e)
  | inr (f, t, e) ↦ inr (f, t, e, tx.rolls_back m s e)
]
