-- ===== src/Payments/Ledger.antt =====
-- The amount that a post has received against the payments that succeeded.
use trust_post.Common.{
  ℕ, ◌+◌, ◌≡◌, ◌≢◌, refl, subst, String, ◌&&◌, Bool, true, false, List, [], ◌∷◌, Memᴰ, All, All-mem,
  nat_eq, if◌then◌else◌, count, Bool-cases, inl, inr, arith, eq_iff,
}
use text.Mathlib.TextPositions.{eq_refl}
use trust_post.Prisma.{update_where}
use trust_post.Prisma.Lists.{update_where-All, update_where_misses, count_misses}
use trust_post.Payments.{WayForPayWebhookPayload, Payment, Post, Store, is_success}
use trust_post.Payments.Repo.{is_open_payment, confirm}

-- The sum of the successful payments to a post.
abbrev pub paid : ℕ → List Payment → ℕ
paid post [] = 0
paid post (p ∷ ps) =
    (if is_success p.status && nat_eq p.post_id post then p.amount else 0) + paid post ps

-- No two payments have one id, as the primary key has it.
abbrev pub HasUniqueIds : List Payment → Type 0
HasUniqueIds [] = Unit
HasUniqueIds (p ∷ ps) = All (λ q. q.id ≢ p.id) ps × HasUniqueIds ps

-- Each post's amount is what the successful payments to it add up to, beside what it had before.
abbrev pub IsBalanced : (ℕ → ℕ) → Store → Type 0
IsBalanced base s = All (λ (p : Post). p.current_amount ≡ base p.id + paid p.id s.payments) s.posts

misses_other :
    (id : String) (ps : List Payment)
    → All (λ q. q.id ≢ id) ps
    → All (λ r. is_open_payment id r ≡ false) ps
unfolding is_open_payment
misses_other id [] h = tt
misses_other id (p ∷ ps) (n, h) = (ground (arith, eq_iff p.id id), misses_other id ps h)

other_row : (id : String) (p : Payment) → id ≢ p.id → is_open_payment id p ≡ false
unfolding is_open_payment
other_row id p n = ground (arith, eq_iff p.id id)

open_unpaid :
    (id : String) (p : Payment) → is_open_payment id p ≡ true → is_success p.status ≡ false
unfolding is_open_payment
open_unpaid id p h = ground arith

module _ (now : ℕ) (attempt_id : String) (payload : WayForPayWebhookPayload) (post : ℕ) where
  confirm_head :
      (id : String) (p : Payment)
      → p.id ≡ id
      → is_success p.status ≡ false
      → (if is_open_payment id p then confirm now attempt_id payload p else p)
        ≡ confirm now attempt_id payload p
  unfolding is_open_payment
  confirm_head id p same h = rw (h, same, eq_refl id)

  -- To confirm an open payment adds its amount to what its post has been paid.
  pub paid-confirm :
      (id : String) (pay : Payment) (ps : List Payment)
      → HasUniqueIds ps
      → Memᴰ pay ps
      → pay.id ≡ id
      → is_success pay.status ≡ false
      → paid post (update_where (is_open_payment id) (confirm now attempt_id payload) ps)
        ≡ (if nat_eq pay.post_id post then pay.amount else 0) + paid post ps
  unfolding confirm
  paid-confirm id pay [] u m same h = elim m [ ]
  paid-confirm id pay (p ∷ ps) (fresh, u) (Memᴰ.head e) same h =
      let open_head = rw e at h in
      let same_head : p.id ≡ id = rw e at same in
      let rest_misses = misses_other id ps (subst (λ k. All (λ q. q.id ≢ k) ps) same_head fresh) in
      rw (confirm_head id p same_head open_head) (
        rw
          (update_where_misses (is_open_payment id) (confirm now attempt_id payload) ps rest_misses)
          (ground arith))
  paid-confirm id pay (p ∷ ps) (fresh, u) (Memᴰ.tail m) same h =
      let other : pay.id ≢ p.id = All-mem (λ q. q.id ≢ p.id) ps fresh m in
      rw (other_row id p (rw same at other)) (omega (arith, paid-confirm id pay ps u m same h))

-- A successful payment is the one row with its id, and it is not open.
pub count-success :
    (id : String) (pay : Payment) (ps : List Payment)
    → HasUniqueIds ps
    → Memᴰ pay ps
    → pay.id ≡ id
    → is_success pay.status ≡ true
    → count (is_open_payment id) ps ≡ 0
unfolding is_open_payment
count-success id pay [] u m same h = elim m [ ]
count-success id pay (p ∷ ps) (fresh, u) (Memᴰ.head e) same h =
    let rest =
      count_misses _ ps
        (misses_other id ps (subst (λ k. All (λ q. q.id ≢ k) ps) (rw e at same) fresh)) in
    let paid_head : is_success p.status ≡ true = rw e at h in ground (arith, rest)
count-success id pay (p ∷ ps) (fresh, u) (Memᴰ.tail m) same h =
    let other : pay.id ≢ p.id = All-mem (λ q. q.id ≢ p.id) ps fresh m in
    rw (other_row id p (rw same at other)) (omega (arith, count-success id pay ps u m same h))

module _ (f : Payment → Payment) (status_of : (p : Payment) → is_success (f p).status ≡ false) where
  -- To close open payments changes no sum.
  pub paid-close :
      (post : ℕ) (id : String) (ps : List Payment)
      → paid post (update_where (is_open_payment id) f ps) ≡ paid post ps
  paid-close post id [] = refl
  paid-close post id (p ∷ ps) = elim (Bool-cases (is_open_payment id p)) [
    | inl is_open ↦
        rw is_open (ground (arith, status_of p, open_unpaid id p is_open, paid-close post id ps))
    | inr other ↦ rw other (omega (arith, paid-close post id ps))
  ]

-- An update that keeps the ids of the rows.
pub update_where-HasUniqueIds :
    (p : Payment → Bool) (f : Payment → Payment)
    → ((r : Payment) → (f r).id ≡ r.id)
    → (ps : List Payment) → HasUniqueIds ps
    → HasUniqueIds (update_where p f ps)
update_where-HasUniqueIds p f same [] u = tt
update_where-HasUniqueIds p f same (r ∷ ps) (fresh, u) = (
  rw (kept r)
      (update_where-All p f (λ q. q.id ≢ r.id) (λ q. q.id ≢ r.id) (λ q n. rw (kept q) n) ps fresh),
  update_where-HasUniqueIds p f same ps u,
)
  where
    kept : (q : Payment) → (if p q then f q else q).id ≡ q.id
    kept q = ground (arith, same q)
