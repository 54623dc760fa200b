-- ===== src/Payments/Settlement.antt =====
-- What a webhook keeps of the store.
use trust_post.Common.{
  ℕ, ◌+◌, ◌≡◌, ◌≢◌, ◌⊎◌, refl, sym, ap, subst, ◌∙◌, String, Bool, true, false, Option, List, Memᴰ,
  All-weaken, nat_eq, if◌then◌else◌, count, any, Bool-cases, inl, inr, arith, nat_eq_iff,
}
use trust_post.Errors.{Failure, prisma, Result, ok, err}
use trust_post.Actions.{Action, catch}
use trust_post.Prisma.{update_where, Transaction, run-cases}
use trust_post.Prisma.Lists.{update_where_none, update_where-All, update_where-mem}
use trust_post.Payments.{
  WayForPayWebhookPayload, PaymentProvider, Payment, PaymentStatus, Post, Store, is_success,
}
use trust_post.Payments.Ledger.{
  paid, count-success, HasUniqueIds, IsBalanced, paid-confirm, paid-close,
  update_where-HasUniqueIds,
}
use trust_post.Payments.Repo.{
  Database, is_open_payment, confirm, close, is_post, add_amount, create_in_transaction,
  confirm_payment, close_payment, unless_duplicate,
}

-- The store agrees with itself.
pub record IsLedger (base : ℕ → ℕ) (s : Store) : Type 0 where
  pub unique : HasUniqueIds s.payments
  pub balanced : IsBalanced base s

pub unless_duplicate-state : (f : Failure) (s : Store) → (unless_duplicate f s).1 ≡ s
unfolding unless_duplicate
unless_duplicate-state (prisma code) s = ground arith
unless_duplicate-state _ s = refl

-- What every good end of a transaction's function has, and the state before it, its call has.
pub transaction_keeps :
    (tx : Transaction Store Bool) (P : Store → Type 0) (body : Action Store Bool) (s : Store)
    → P s
    → ((b : Bool) (t : Store) → body s ≡ (ok b, t) → P t)
    → P (catch (tx.run body) unless_duplicate s).1
transaction_keeps tx P body s h good = elim (run-cases tx body s) [
  | inl (b, t, e, ends) ↦ rw ends (good b t e)
  | inr (f, t, e, ends) ↦ rw ends (rw (unless_duplicate-state f s) h)
]

pub success_misses :
    (id : String) (p : Payment) → is_success p.status ≡ true → is_open_payment id p ≡ false
unfolding is_open_payment
success_misses id p h = ground arith

pub attempt_keeps :
    (db : Database) (id payment_id : String) (provider : PaymentProvider)
    (transaction : Option String) (status : PaymentStatus) (payload : WayForPayWebhookPayload)
    (s : Store) {found : String} {t : Store}
    → create_in_transaction db id payment_id provider transaction status payload s ≡ (ok found, t)
    → (t.payments ≡ s.payments) × (t.posts ≡ s.posts)
unfolding create_in_transaction
attempt_keeps db id payment_id provider transaction status payload s e = ground arith

module _ (db : Database) (now : ℕ) (attempt_id : String) (payload : WayForPayWebhookPayload)
    (payment : Payment) (s : Store) where
  -- The payments and the posts after the updates of a success.
  abbrev confirmed : List Payment
  confirmed = update_where (is_open_payment payment.id) (confirm now attempt_id payload) s.payments

  abbrev credited : List Post
  credited = update_where (is_post payment.post_id) (add_amount payment.amount) s.posts

  abbrev open_rows : ℕ
  open_rows = count (is_open_payment payment.id) s.payments

  -- The ends of the transaction of a success.
  confirm_payment-cases :
      ((open_rows ≡ 0)
        × (confirm_payment db now attempt_id payload payment s
            ≡ (ok false, record s { payments = confirmed })))
      ⊎ ((open_rows ≢ 0)
          × (confirm_payment db now attempt_id payload payment s
              ≡ (ok true, record s { payments = confirmed; posts = credited })))
      ⊎ (confirm_payment db now attempt_id payload payment s
          ≡ (err (prisma "P2025"), record s { payments = confirmed }))
  unfolding confirm_payment
  confirm_payment-cases =
      let counted =
        db.payment.update_many_lem (is_open_payment payment.id) (confirm now attempt_id payload)
          s.payments in
      let changed =
        db.post.update_lem (is_post payment.post_id) (add_amount payment.amount) s.posts in
      elim (Bool-cases (nat_eq open_rows 0)) [
        | inl closed ↦ inl ((nat_eq_iff _ 0).0 closed, rw (counted, closed))
        | inr is_open ↦ elim (Bool-cases (any (is_post payment.post_id) s.posts)) [
          | inl found ↦
              inr (
                inl
                  (λ z. cc ((nat_eq_iff _ 0).1 z), rw (counted, is_open, changed, found, counted)))
          | inr missing ↦ inr (inr (rw (counted, is_open, changed, missing, counted)))
        ]
      ]

  module _ (base : ℕ → ℕ) (ledger : IsLedger base s) (listed : Memᴰ payment s.payments) where
    confirmed-HasUniqueIds : HasUniqueIds confirmed
    unfolding confirm
    confirmed-HasUniqueIds =
        update_where-HasUniqueIds (is_open_payment payment.id) (confirm now attempt_id payload)
          (λ r. refl) s.payments ledger.unique

    was_open : count (is_open_payment payment.id) s.payments ≢ 0 → is_success payment.status ≡ false
    was_open n = elim (Bool-cases (is_success payment.status)) [
      | inl paid_already ↦
          absurd
            (n (count-success payment.id payment s.payments ledger.unique listed refl paid_already))
      | inr unpaid ↦ unpaid
    ]

    post_balanced :
        is_success payment.status ≡ false
        → (p : Post) → p.current_amount ≡ base p.id + paid p.id s.payments
        → (if is_post payment.post_id p then add_amount payment.amount p else p).current_amount
          ≡ base (if is_post payment.post_id p then add_amount payment.amount p else p).id
            + paid
                (if is_post payment.post_id p then add_amount payment.amount p else p).id
                confirmed
    unfolding is_post add_amount
    post_balanced h p e = ground (
      arith,
      paid-confirm now attempt_id payload p.id payment.id payment s.payments ledger.unique listed
          refl h,
    )

    credited-IsBalanced :
        is_success payment.status ≡ false
        → IsBalanced base (record s { payments = confirmed; posts = credited })
    credited-IsBalanced h =
        update_where-All (is_post payment.post_id) (add_amount payment.amount)
          (λ p. p.current_amount ≡ base p.id + paid p.id s.payments)
          (λ p. p.current_amount ≡ base p.id + paid p.id confirmed) (post_balanced h) s.posts
          ledger.balanced

    pub confirm_payment-IsLedger :
        (b : Bool) (t : Store)
        → confirm_payment db now attempt_id payload payment s ≡ (ok b, t)
        → IsLedger base t
    confirm_payment-IsLedger b t e = elim confirm_payment-cases [
      | inl (closed, ends) ↦
          subst (IsLedger base) (ap (λ (x : Result Bool × Store). x.1) (sym ends ∙ e)) (record {
            unique = confirmed-HasUniqueIds;
            balanced =
                rw
                  (update_where_none (is_open_payment payment.id) (confirm now attempt_id payload)
                    s.payments closed)
                  ledger.balanced;
          })
      | inr (inl (is_open, ends)) ↦
          subst (IsLedger base) (ap (λ (x : Result Bool × Store). x.1) (sym ends ∙ e)) (record {
            unique = confirmed-HasUniqueIds;
            balanced = credited-IsBalanced (was_open is_open);
          })
      | inr (inr ends) ↦ cc
    ]

  -- A successful payment stays as it is.
  pub confirm_payment-mem :
      (p : Payment)
      → is_success p.status ≡ true
      → Memᴰ p s.payments
      → (b : Bool) (t : Store) → confirm_payment db now attempt_id payload payment s ≡ (ok b, t)
      → Memᴰ p t.payments
  confirm_payment-mem p h m b t e =
      let kept =
        update_where-mem (is_open_payment payment.id) (confirm now attempt_id payload) s.payments
          (success_misses payment.id p h) m in
      elim confirm_payment-cases [
        | inl (closed, ends) ↦ rw (sym (ap (λ (x : Result Bool × Store). x.1) (sym ends ∙ e))) kept
        | inr (inl (is_open, ends)) ↦
            rw (sym (ap (λ (x : Result Bool × Store). x.1) (sym ends ∙ e))) kept
        | inr (inr ends) ↦ cc
      ]

module _ (db : Database) (status : PaymentStatus) (now : ℕ) (id attempt_id : String)
    (payload : WayForPayWebhookPayload) (s : Store) where
  abbrev closed : List Payment
  closed = update_where (is_open_payment id) (close status now attempt_id payload) s.payments

  close_payment_lem :
      (close_payment db status now id attempt_id payload s).1 ≡ record s { payments = closed }
  unfolding close_payment
  close_payment_lem = rw (
      db.payment.update_many_lem (is_open_payment id) (close status now attempt_id payload)
        s.payments)

  pub close_payment-mem :
      (p : Payment)
      → is_success p.status ≡ true
      → Memᴰ p s.payments
      → Memᴰ p (close_payment db status now id attempt_id payload s).1.payments
  close_payment-mem p h m = rw close_payment_lem (
      update_where-mem (is_open_payment id) (close status now attempt_id payload) s.payments
        (success_misses id p h) m)

  pub close_payment-IsLedger :
      (base : ℕ → ℕ)
      → is_success status ≡ false
      → IsLedger base s
      → IsLedger base (close_payment db status now id attempt_id payload s).1
  unfolding close
  close_payment-IsLedger base h ledger = rw close_payment_lem (record {
    unique =
        update_where-HasUniqueIds (is_open_payment id) (close status now attempt_id payload)
          (λ r. refl) s.payments ledger.unique;
    balanced =
        All-weaken (λ (p : Post). p.current_amount ≡ base p.id + paid p.id s.payments)
          (λ (p : Post). p.current_amount ≡ base p.id + paid p.id closed)
          (λ p e. omega (
            arith,
            e,
            paid-close (close status now attempt_id payload) (λ q. h) p.id id s.payments,
          ))
          s.posts ledger.balanced;
  })
