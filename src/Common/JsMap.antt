-- ===== src/Common/JsMap.antt =====
-- A JavaScript `Map<string, V>`: its entries in insertion order. A key that is set again keeps its
-- place; a new key goes to the end.
use text.Mathlib.Text.{◌==◌}
use text.Mathlib.TextPositions.{eq_refl}
use trust_post.Common.Tests.{if◌then◌else◌, Bool-cases}
use trust_post.Common.Lists.{length, drop, filter, All, All-filter, All-append}
use Prim.Native.Nat.{ℕ, zero, suc, ◌+◌, ◌≤◌}
use Prim.Native.String.{String}
use mathlib.Core.Path.{sym, ◌≡◌, refl}
use mathlib.Core.Logic.{◌≢◌, inl, inr}
use mathlib.Core.Bool.{not, Bool}
use mathlib.Core.Option.{Option, none, some}
use mathlib.Core.List.{List, [], ◌∷◌, ◌++◌, append_assoc}
use native.Mathlib.Omega.{arith}
use text.Mathlib.TextEquality.{eq_iff}

abbrev pub JsMap {ℓ} : Type ℓ → Type ℓ
JsMap V = List (String × V)

module _ {ℓ} {V : Type ℓ} where
  unfoldable pub get : String → JsMap V → Option V
  get k [] = none
  get k ((j, v) ∷ m) = if j == k then some v else get k m

  unfoldable pub set : String → V → JsMap V → JsMap V
  set k v [] = (k, v) ∷ []
  set k v ((j, w) ∷ m) = if j == k then (k, v) ∷ m else (j, w) ∷ set k v m

  unfoldable pub delete : String → JsMap V → JsMap V
  delete k [] = []
  delete k ((j, w) ∷ m) = if j == k then m else (j, w) ∷ delete k m

  -- `for (const [k, v] of m.entries()) if (dead(v)) m.delete(k)`; the loop visits the entries in
  -- order, and deletes none but the one that it visits.
  unfoldable pub purge : (V → Bool) → JsMap V → JsMap V → JsMap V
  purge dead [] m = m
  purge dead ((k, v) ∷ es) m = purge dead es (if dead v then delete k m else m)

  abbrev pub IsFresh : String → JsMap V → Type 0
  IsFresh k m = All (λ e. e.0 ≢ k) m

  -- No key twice, which a `Map` guarantees.
  abbrev pub IsKeyed : JsMap V → Type 0
  IsKeyed [] = Unit
  IsKeyed ((k, v) ∷ m) = IsFresh k m × IsKeyed m

  -- The value, if it passes the test.
  abbrev pub keep : (V → Bool) → Option V → Option V
  keep p none = none
  keep p (some v) = if p v then some v else none

  pub get-set :
      (k j : String) (v : V) (m : JsMap V)
      → get j (set k v m) ≡ (if k == j then some v else get j m)
  unfolding get set
  get-set k j v [] = refl
  get-set k j v ((i, w) ∷ m) = ground (arith, eq_iff k j, eq_iff i k, eq_iff i j, get-set k j v m)

  pub get_fresh : (k : String) (m : JsMap V) → IsFresh k m → get k m ≡ none
  unfolding get
  get_fresh k [] h = refl
  get_fresh k ((i, w) ∷ m) (p, h) = ground (arith, eq_iff i k, get_fresh k m h)

  pub get-delete :
      (k j : String) (m : JsMap V)
      → IsKeyed m
      → get j (delete k m) ≡ (if k == j then none else get j m)
  unfolding get delete
  get-delete k j [] h = ground arith
  get-delete k j ((i, w) ∷ m) (p, h) =
      ground (arith, eq_iff k j, eq_iff i k, eq_iff i j, get-delete k j m h, get_fresh i m p)

  pub get-filter :
      (p : V → Bool) (k : String) (m : JsMap V)
      → IsKeyed m
      → get k (filter (λ e. p e.1) m) ≡ keep p (get k m)
  unfolding get
  get-filter p k [] h = refl
  get-filter p k ((i, w) ∷ m) (f, h) =
      ground (arith, eq_iff i k, get-filter p k m h, get_fresh i m f)

  pub set-IsFresh :
      (k j : String) (v : V) (m : JsMap V) → k ≢ j → IsFresh j m → IsFresh j (set k v m)
  unfolding set
  set-IsFresh k j v [] n h = (n, tt)
  set-IsFresh k j v ((i, w) ∷ m) n (p, h) = ground (arith, eq_iff i k, set-IsFresh k j v m n h)

  pub set-IsKeyed : (k : String) (v : V) (m : JsMap V) → IsKeyed m → IsKeyed (set k v m)
  unfolding set
  set-IsKeyed k v [] h = (tt, tt)
  set-IsKeyed k v ((i, w) ∷ m) (p, h) =
      ground (arith, eq_iff i k, set-IsKeyed k v m h, set-IsFresh k i v m)

  pub filter-IsKeyed : (p : String × V → Bool) (m : JsMap V) → IsKeyed m → IsKeyed (filter p m)
  filter-IsKeyed p [] h = tt
  filter-IsKeyed p ((i, w) ∷ m) (f, h) =
      ground (arith, filter-IsKeyed p m h, All-filter (λ e. e.0 ≢ i) p m f)

  pub length-set : (k : String) (v : V) (m : JsMap V) → length (set k v m) ≤ length m + 1
  unfolding set
  length-set k v [] = omega arith
  length-set k v ((i, w) ∷ m) = ground (arith, length-set k v m)

  pub drop-IsKeyed : (n : ℕ) (m : JsMap V) → IsKeyed m → IsKeyed (drop n m)
  drop-IsKeyed zero m h = h
  drop-IsKeyed (suc n) [] h = tt
  drop-IsKeyed (suc n) (e ∷ m) (p, h) = drop-IsKeyed n m h

  pub delete-head : (k : String) (v : V) (m : JsMap V) → delete k ((k, v) ∷ m) ≡ m
  unfolding delete
  delete-head k v m = rw (eq_refl k)

  delete-append :
      (kept m : JsMap V) (k : String) (v : V)
      → IsFresh k kept
      → delete k (kept ++ (k, v) ∷ m) ≡ kept ++ m
  unfolding delete
  delete-append [] m k v h = rw (eq_refl k)
  delete-append ((i, w) ∷ kept) m k v (p, h) =
      ground (arith, eq_iff i k, delete-append kept m k v h)

  -- Every key of the second map is fresh in the first.
  abbrev IsApart : JsMap V → JsMap V → Type 0
  IsApart kept [] = Unit
  IsApart kept ((k, v) ∷ m) = IsFresh k kept × IsApart kept m

  IsApart-concat :
      (kept m : JsMap V) (k : String) (v : V)
      → IsApart kept m
      → IsFresh k m
      → IsApart (kept ++ (k, v) ∷ []) m
  IsApart-concat kept [] k v h f = tt
  IsApart-concat kept ((i, w) ∷ m) k v (p, h) (q, f) = (
    All-append (λ e. e.0 ≢ i) kept ((k, v) ∷ []) p ((λ e. q (sym e)), tt),
    IsApart-concat kept m k v h f,
  )

  purge-append :
      (dead : V → Bool) (es kept : JsMap V)
      → IsApart kept es
      → IsKeyed es
      → purge dead es (kept ++ es) ≡ kept ++ filter (λ e. not (dead e.1)) es
  unfolding purge
  purge-append dead [] kept a h = refl
  purge-append dead ((k, v) ∷ es) kept (p, a) (f, h) = elim (Bool-cases (dead v)) [
    | inl yes_dead ↦ rw yes_dead (rw (delete-append kept es k v p) (purge-append dead es kept a h))
    | inr alive ↦ rw alive (
        simp append_assoc at
          (purge-append dead es (kept ++ (k, v) ∷ []) (IsApart-concat kept es k v a f) h))
  ]

  -- The loop keeps exactly the entries that are alive, in order.
  pub purge_lem :
      (dead : V → Bool) (m : JsMap V) → IsKeyed m → purge dead m m ≡ filter (λ e. not (dead e.1)) m
  purge_lem dead m h = purge-append dead m [] (none_apart m) h
    where
      none_apart : (m : JsMap V) → IsApart [] m
      none_apart [] = tt
      none_apart ((k, v) ∷ m) = (tt, none_apart m)
