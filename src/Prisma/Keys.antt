-- ===== src/Prisma/Keys.antt =====
-- Tables whose rows have a key, as `@id` demands: no two rows with one key.
use text.Mathlib.Text.{◌==◌}
use trust_post.Common.{
  ◌≡◌, sym, ap, ◌∙◌, String, Bool, true, false, List, [], ◌∷◌, ◌++◌, Memᴰ, All, All-mem, Bool-cases,
  inl, inr, arith, eq_iff,
}
use trust_post.Prisma.{update_where}

module _ {R : Type 0} (key : R → String) where
  -- The test of a key.
  abbrev pub has_key : String → R → Bool
  has_key id r = key r == id

  -- No two rows have one key.
  abbrev pub IsKeyed : List R → Type 0
  IsKeyed [] = Unit
  IsKeyed (r ∷ rows) = All (λ q. has_key (key r) q ≡ false) rows × IsKeyed rows

  -- The one row of a key.
  pub keyed-one :
      (rows : List R) (id : String) {r q : R}
      → IsKeyed rows
      → Memᴰ r rows
      → Memᴰ q rows
      → has_key id r ≡ true
      → has_key id q ≡ true
      → r ≡ q
  keyed-one [] id keyed m n h k = elim m [ ]
  keyed-one (p ∷ rows) id (apart, keyed) (Memᴰ.head e) (Memᴰ.head e') h k = e ∙ sym e'
  keyed-one (p ∷ rows) id {r} {q} (apart, keyed) (Memᴰ.head e) (Memᴰ.tail n) h k =
      let differ : has_key (key p) q ≡ false =
        All-mem (λ q. has_key (key p) q ≡ false) rows apart n in
      let same : key r ≡ key p = ap key e in
      absurd (
        ground
          (arith, h, k, differ, same, eq_iff (key r) id, eq_iff (key q) id, eq_iff (key q) (key p)))
  keyed-one (p ∷ rows) id {r} {q} (apart, keyed) (Memᴰ.tail m) (Memᴰ.head e) h k =
      let differ : has_key (key p) r ≡ false =
        All-mem (λ q. has_key (key p) q ≡ false) rows apart m in
      let same : key q ≡ key p = ap key e in
      absurd (
        ground
          (arith, h, k, differ, same, eq_iff (key r) id, eq_iff (key q) id, eq_iff (key r) (key p)))
  keyed-one (p ∷ rows) id (apart, keyed) (Memᴰ.tail m) (Memᴰ.tail n) h k =
      keyed-one rows id keyed m n h k

  module _ (p : R → Bool) (f : R → R) (keeps : (r : R) → key (f r) ≡ key r) where
    -- A change of rows that leaves their keys.
    apart-update :
        (k : String) (rows : List R)
        → All (λ q. has_key k q ≡ false) rows
        → All (λ q. has_key k q ≡ false) (update_where p f rows)
    apart-update k [] h = tt
    apart-update k (r ∷ rows) (x, h) = elim (Bool-cases (p r)) [
      | inl fits ↦ (rw (fits, keeps r) x, apart-update k rows h)
      | inr misses ↦ (rw misses x, apart-update k rows h)
    ]

    pub update_where-IsKeyed : (rows : List R) → IsKeyed rows → IsKeyed (update_where p f rows)
    update_where-IsKeyed [] keyed = tt
    update_where-IsKeyed (r ∷ rows) (apart, keyed) = elim (Bool-cases (p r)) [
      | inl fits ↦
          (rw (fits, keeps r) (apart-update (key r) rows apart), update_where-IsKeyed rows keyed)
      | inr misses ↦ (rw misses (apart-update (key r) rows apart), update_where-IsKeyed rows keyed)
    ]

  apart-append :
      (k : String) (rows : List R) (r : R)
      → All (λ q. has_key k q ≡ false) rows
      → has_key k r ≡ false
      → All (λ q. has_key k q ≡ false) (rows ++ r ∷ [])
  apart-append k [] r h x = (x, tt)
  apart-append k (q ∷ rows) r (y, h) x = (y, apart-append k rows r h x)

  pub append-IsKeyed :
      (rows : List R) (r : R)
      → All (λ q. has_key (key r) q ≡ false) rows
      → IsKeyed rows
      → IsKeyed (rows ++ r ∷ [])
  append-IsKeyed [] r fresh keyed = (tt, tt)
  append-IsKeyed (q ∷ rows) r (other, fresh) (apart, keyed) = (
    apart-append (key q) rows r apart
        (ground (arith, other, eq_iff (key q) (key r), eq_iff (key r) (key q))),
    append-IsKeyed rows r fresh keyed,
  )
