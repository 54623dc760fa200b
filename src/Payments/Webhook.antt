-- ===== src/Payments/Webhook.antt =====
-- What `handleWebhook` guarantees, whatever the payload.
use trust_post.Common.{
  ℕ, ◌/◌, ◌≡◌, sym, ap, subst, String, Bool, true, false, Memᴰ, nat_eq, if◌then◌else◌, Bool-cases,
  Option-cases, inl, inr, arith,
}
use text.Mathlib.Text.{◌==◌}
use trust_post.Errors.{Result, ok}
use trust_post.Actions.{>>=-eq-ok, proceed-pure-state}
use trust_post.Payments.{
  WayForPayWebhookPayload, wayforpay, Payment, PaymentStatus, success, failed, expired, Store,
  is_success,
}
use trust_post.Payments.Gateway.{
  Crypto, WebhookStatus, map_webhook_status, build_webhook_acknowledge, verify_webhook_signature,
}
use trust_post.Payments.Settlement.{
  IsLedger, transaction_keeps, attempt_keeps, confirm_payment-IsLedger, confirm_payment-mem,
  close_payment-mem, close_payment-IsLedger,
}
use trust_post.Payments.Repo.{
  Database, is_payment, find_by_id, create_in_transaction, increment_body, close_body,
  update_status_with_post_increment, update_status_without_post_increment,
}
use trust_post.Payments.Service.{is_session_expired, settle, handle_webhook}

module _ (db : Database) (now : ℕ) (attempt_id : String) (payload : WayForPayWebhookPayload)
    (s : Store) where
  module _ (id : String) (b : Bool) (t : Store) where
    IsLedger-moved :
        (base : ℕ → ℕ) (u : Store)
        → (u.payments ≡ s.payments) × (u.posts ≡ s.posts)
        → IsLedger base s
        → IsLedger base u
    IsLedger-moved base u (same, same') h = record {
      unique = rw same h.unique;
      balanced = rw (same, same') h.balanced;
    }

    increment_body-IsLedger :
        (base : ℕ → ℕ)
        → IsLedger base s
        → increment_body db now attempt_id id wayforpay payload.transaction_id payload s ≡ (ok b, t)
        → IsLedger base t
    unfolding increment_body find_by_id
    increment_body-IsLedger base h e =
        elim (Option-cases (db.payment.find_first (is_payment id) s.payments)) [
          | inl missing ↦
              subst (IsLedger base)
                (ap (λ (x : Result Bool × Store). x.1)
                  (rw (missing, increment_body, find_by_id) at e))
                h
          | inr (payment, found) ↦
              let listed = (db.payment.find_first-some (is_payment id) s.payments found).0 in
              let (attempt, u, made, ends) =
                >>=-eq-ok
                  (create_in_transaction db attempt_id id wayforpay payload.transaction_id success
                    payload)
                  _ s (rw (found, increment_body, find_by_id) at e) in
              let kept =
                attempt_keeps db attempt_id id wayforpay payload.transaction_id success payload s
                  made in
              confirm_payment-IsLedger db now attempt payload payment u base
                (IsLedger-moved base u kept h) (rw kept.0 listed) b t ends
        ]

    increment_body-mem :
        (p : Payment)
        → is_success p.status ≡ true
        → Memᴰ p s.payments
        → increment_body db now attempt_id id wayforpay payload.transaction_id payload s ≡ (ok b, t)
        → Memᴰ p t.payments
    unfolding increment_body find_by_id
    increment_body-mem p h m e =
        elim (Option-cases (db.payment.find_first (is_payment id) s.payments)) [
          | inl missing ↦
              subst (λ (u : Store). Memᴰ p u.payments)
                (ap (λ (x : Result Bool × Store). x.1)
                  (rw (missing, increment_body, find_by_id) at e))
                m
          | inr (payment, found) ↦
              let (attempt, u, made, ends) =
                >>=-eq-ok
                  (create_in_transaction db attempt_id id wayforpay payload.transaction_id success
                    payload)
                  _ s (rw (found, increment_body, find_by_id) at e) in
              let kept =
                attempt_keeps db attempt_id id wayforpay payload.transaction_id success payload s
                  made in
              confirm_payment-mem db now attempt payload payment u p h (rw kept.0 m) b t ends
        ]

    module _ (status : PaymentStatus)
        (e : close_body db status now attempt_id id wayforpay payload.transaction_id payload s
          ≡ (ok b, t)) where
      close_body-IsLedger :
          (base : ℕ → ℕ) → is_success status ≡ false → IsLedger base s → IsLedger base t
      unfolding close_body
      close_body-IsLedger base n h =
          let (attempt, u, made, ends) =
            >>=-eq-ok
              (create_in_transaction db attempt_id id wayforpay payload.transaction_id status
                payload)
              _ s e in
          let kept =
            attempt_keeps db attempt_id id wayforpay payload.transaction_id status payload s made in
          subst (IsLedger base) (ap (λ (x : Result Bool × Store). x.1) ends) (
            close_payment-IsLedger db status now id attempt payload u base n
              (IsLedger-moved base u kept h))

      close_body-mem :
          (p : Payment) → is_success p.status ≡ true → Memᴰ p s.payments → Memᴰ p t.payments
      unfolding close_body
      close_body-mem p h m =
          let (attempt, u, made, ends) =
            >>=-eq-ok
              (create_in_transaction db attempt_id id wayforpay payload.transaction_id status
                payload)
              _ s e in
          let kept =
            attempt_keeps db attempt_id id wayforpay payload.transaction_id status payload s made in
          subst (λ (x : Store). Memᴰ p x.payments) (ap (λ (x : Result Bool × Store). x.1) ends)
            (close_payment-mem db status now id attempt payload u p h (rw kept.0 m))

  closing_unpaid :
      is_success (if is_session_expired payload.reason then expired else failed) ≡ false
  closing_unpaid = ground arith

  -- The repository's call for a webhook of any status.
  settle_keeps :
      (P : Store → Type 0)
      → P s
      → ((id : String) (b : Bool) (t : Store)
          → increment_body db now attempt_id id wayforpay payload.transaction_id payload s
            ≡ (ok b, t)
          → P t)
      → ((id : String) (b : Bool) (t : Store) (status : PaymentStatus)
          → is_success status ≡ false
          → close_body db status now attempt_id id wayforpay payload.transaction_id payload s
            ≡ (ok b, t)
          → P t)
      → (status : WebhookStatus) (id : String) → P (settle db now attempt_id payload status id s).1
  unfolding settle update_status_with_post_increment update_status_without_post_increment
  settle_keeps P h inc clo WebhookStatus.success id =
      transaction_keeps db.transaction P _ s h (inc id)
  settle_keeps P h inc clo _ id =
      transaction_keeps db.transaction P _ s h (λ b t e. clo id b t _ closing_unpaid e)

  settle-IsLedger :
      (base : ℕ → ℕ) (status : WebhookStatus) (id : String)
      → IsLedger base s
      → IsLedger base (settle db now attempt_id payload status id s).1
  settle-IsLedger base status id h =
      settle_keeps (IsLedger base) h (λ id b t e. increment_body-IsLedger id b t base h e)
        (λ id b t status n e. close_body-IsLedger id b t status e base n h) status id

  settle-mem :
      (p : Payment) (status : WebhookStatus) (id : String)
      → is_success p.status ≡ true
      → Memᴰ p s.payments
      → Memᴰ p (settle db now attempt_id payload status id s).1.payments
  settle-mem p status id h m =
      settle_keeps (λ t. Memᴰ p t.payments) m (λ id b t e. increment_body-mem id b t p h m e)
        (λ id b t status n e. close_body-mem id b t status e p h m) status id

  -- A webhook that is not refused runs the repository's call.
  pub webhook_keeps :
      (crypto : Crypto) (P : Store → Type 0)
      → P s
      → ((status : WebhookStatus) (id : String)
          → P (settle db now attempt_id payload status id s).1)
      → P (handle_webhook db crypto now attempt_id payload s).1
  unfolding handle_webhook
  webhook_keeps crypto P h settled = elim (Bool-cases (verify_webhook_signature crypto payload)) [
    | inr forged ↦ rw forged h
    | inl signed ↦ elim (Option-cases (find_by_id db payload.order_reference s)) [
      | inl missing ↦ rw (signed, missing) h
      | inr (payment, found) ↦ elim (Bool-cases (nat_eq payment.amount payload.amount)) [
        | inr unlike ↦ rw (signed, found, unlike) h
        | inl like ↦ elim (Bool-cases (payment.currency == payload.currency)) [
          | inr foreign ↦ rw (signed, found, like, foreign) h
          | inl local ↦
              rw (signed, found, like, local)
                (subst P
                  (sym (
                    proceed-pure-state
                      (settle db now attempt_id payload
                        (map_webhook_status payload.transaction_status) payment.id s)
                      (build_webhook_acknowledge crypto (now / 1000) payment.id)))
                  (settled (map_webhook_status payload.transaction_status) payment.id))
        ]
      ]
    ]
  ]

  -- Every webhook keeps the ledger: whatever it says, and whatever the store holds, if no two payments have
  -- one id, and each post's amount is what the successful payments to it add up to (beside a base
  -- amount), then so it is afterwards.
  pub handle_webhook-IsLedger :
      (crypto : Crypto) (base : ℕ → ℕ)
      → IsLedger base s
      → IsLedger base (handle_webhook db crypto now attempt_id payload s).1
  handle_webhook-IsLedger crypto base h =
      webhook_keeps crypto (IsLedger base) h (λ status id. settle-IsLedger base status id h)

  -- A payment that has succeeded is in the store unchanged after every webhook.
  pub handle_webhook-mem :
      (crypto : Crypto) (p : Payment)
      → is_success p.status ≡ true
      → Memᴰ p s.payments
      → Memᴰ p (handle_webhook db crypto now attempt_id payload s).1.payments
  handle_webhook-mem crypto p h m =
      webhook_keeps crypto (λ t. Memᴰ p t.payments) m (λ status id. settle-mem p status id h m)
