-- ===== src/Payments/Approval.antt =====
-- What an accepted webhook that is new does to the store, and what a refused one does.
use text.Mathlib.Text.{◌==◌}
use text.Mathlib.TextPositions.{eq_refl}
use trust_post.Common.{
  ℕ, ◌/◌, ◌≡◌, sym, ap, ◌∙◌, String, Bool, true, false, some, List, [], ◌∷◌, ◌++◌, Memᴰ, nat_eq,
  any, count, Bool-cases, Option-cases, inl, inr, arith,
}
use trust_post.Errors.{Failure, Result, ok, err}
use trust_post.Actions.{Action, pure, catch, proceed}
use trust_post.Prisma.{Transaction, run-cases, update_where}
use trust_post.Payments.{
  WayForPayWebhookPayload, PaymentAttempt, wayforpay, Payment, PaymentStatus, success, Store,
  is_success,
}
use trust_post.Payments.Gateway.{
  Crypto, Acknowledge, WebhookStatus, map_webhook_status, build_webhook_acknowledge,
  verify_webhook_signature,
}
use trust_post.Payments.Repo.{
  Database, get_attempt_message, is_payment, is_open_payment, is_post, confirm, add_amount,
  has_transaction, find_by_id, create_in_transaction, confirm_payment, increment_body,
  update_status_with_post_increment, update_status_without_post_increment, unless_duplicate,
}
use trust_post.Payments.Settlement.{unless_duplicate-state}
use trust_post.Payments.Service.{settle, handle_webhook}
use trust_post.Payments.Replay.{IsAccepted, accepted_lem, found_again}

-- The row that records a webhook.
abbrev pub attempt_of : String → String → PaymentStatus → WayForPayWebhookPayload → PaymentAttempt
attempt_of attempt_id payment_id status payload = record {
  id = attempt_id;
  payment_id = payment_id;
  provider = wayforpay;
  provider_payment_id = payload.transaction_id;
  status = status;
  provider_response = payload;
  status_reason = get_attempt_message payload;
}

count_member :
    (p : Payment → Bool) (rows : List Payment) {r : Payment}
    → Memᴰ r rows
    → p r ≡ true
    → nat_eq (count p rows) 0 ≡ false
count_member p [] m h = elim m [ ]
count_member p (q ∷ rows) (Memᴰ.head e) h = let fits : p q ≡ true = rw e at h in ground arith
count_member p (q ∷ rows) (Memᴰ.tail m) h = let rest = count_member p rows m h in ground arith

module _ (db : Database) (now : ℕ) (attempt_id : String) (payload : WayForPayWebhookPayload)
    (payment : Payment) where
  -- The store with the attempt recorded, the payment confirmed and the amount added to its post.
  abbrev pub settled : Store → Store
  settled s = record {
    payments =
        update_where (is_open_payment payment.id) (confirm now attempt_id payload) s.payments;
    attempts = s.attempts ++ attempt_of attempt_id payment.id success payload ∷ [];
    posts = update_where (is_post payment.post_id) (add_amount payment.amount) s.posts;
  }

  open_row : is_success payment.status ≡ false → is_open_payment payment.id payment ≡ true
  unfolding is_open_payment
  open_row unpaid = rw (unpaid, eq_refl payment.id)

  module _ (s : Store)
      (unrecorded : any (has_transaction wayforpay payload.transaction_id) s.attempts ≡ false) where
    fresh_attempt :
        create_in_transaction db attempt_id payment.id wayforpay payload.transaction_id success
          payload s
        ≡ (
          ok attempt_id,
          record s {
            attempts = s.attempts ++ attempt_of attempt_id payment.id success payload ∷ [];
          },
        )
    unfolding create_in_transaction
    fresh_attempt = rw (
      unrecorded,
      db.payment_attempt.create_lem (attempt_of attempt_id payment.id success payload) s.attempts,
    )

  confirmed :
      (s : Store)
      → Memᴰ payment s.payments
      → is_success payment.status ≡ false
      → any (is_post payment.post_id) s.posts ≡ true
      → confirm_payment db now attempt_id payload payment s ≡ (
        ok true,
        record s {
          payments =
              update_where (is_open_payment payment.id) (confirm now attempt_id payload) s.payments;
          posts = update_where (is_post payment.post_id) (add_amount payment.amount) s.posts;
        },
      )
  unfolding confirm_payment
  confirmed s m unpaid has_post =
      rw
        (
          db.payment.update_many_lem (is_open_payment payment.id) (confirm now attempt_id payload)
              s.payments,
          count_member (is_open_payment payment.id) s.payments m (open_row unpaid),
          db.post.update_lem (is_post payment.post_id) (add_amount payment.amount) s.posts,
          has_post,
        )
        (rw (
          db.payment.update_many_lem (is_open_payment payment.id) (confirm now attempt_id payload)
            s.payments))

module _ (db : Database) (crypto : Crypto) (now : ℕ) (attempt_id : String)
    (payload : WayForPayWebhookPayload) (s : Store)
    (accepted : IsAccepted db crypto payload s) where
  open accepted use {payment}

  settle_success :
      any (has_transaction wayforpay payload.transaction_id) s.attempts ≡ false
      → is_success payment.status ≡ false
      → any (is_post payment.post_id) s.posts ≡ true
      → settle db now attempt_id payload WebhookStatus.success payment.id s
        ≡ (ok true, settled db now attempt_id payload payment s)
  unfolding settle update_status_with_post_increment increment_body find_by_id
  settle_success unrecorded unpaid has_post =
      let row : db.payment.find_first (is_payment payment.id) s.payments ≡ some payment =
        found_again db crypto now attempt_id payload s accepted in
      let listed = (db.payment.find_first-some (is_payment payment.id) s.payments row).0 in
      let recorded : Store = record s {
        attempts = s.attempts ++ attempt_of attempt_id payment.id success payload ∷ [];
      } in
      let ends : increment_body db now attempt_id payment.id wayforpay payload.transaction_id
            payload s
          ≡ (ok true, settled db now attempt_id payload payment s) =
        rw
          (
            increment_body,
            find_by_id,
            row,
            fresh_attempt db now attempt_id payload payment s unrecorded,
          )
          (confirmed db now attempt_id payload payment recorded listed unpaid has_post) in
      rw (db.transaction.commits _ s ends)

  -- An accepted webhook that says "approved", whose transaction no attempt has recorded, for a payment that has not succeeded and
  -- whose post exists, is acknowledged: it records the attempt, confirms the payment, and adds the payment's amount
  -- to its post.
  pub approved_settles :
      map_webhook_status payload.transaction_status ≡ WebhookStatus.success
      → any (has_transaction wayforpay payload.transaction_id) s.attempts ≡ false
      → is_success payment.status ≡ false
      → any (is_post payment.post_id) s.posts ≡ true
      → handle_webhook db crypto now attempt_id payload s ≡ (
        ok (build_webhook_acknowledge crypto (now / 1000) payment.id),
        settled db now attempt_id payload payment s,
      )
  approved_settles says_approved unrecorded unpaid has_post =
      rw (accepted_lem db crypto now attempt_id payload s accepted, says_approved)
        (rw (settle_success unrecorded unpaid has_post))

module _ (db : Database) (now : ℕ) (attempt_id : String) (payload : WayForPayWebhookPayload)
    (s : Store) where
  -- A transaction whose exception goes on has changed nothing.
  undone :
      (tx : Transaction Store Bool) (body : Action Store Bool) {f : Failure} {t : Store}
      → catch (tx.run body) unless_duplicate s ≡ (err f, t)
      → t ≡ s
  undone tx body {f} {t} e = elim (run-cases tx body s) [
    | inl (b, u, _, ends) ↦ cc
    | inr (g, u, _, ends) ↦
        let failed_on : unless_duplicate g s ≡ (err f, t) = rw ends at e in
        sym (ap (λ (x : Result Bool × Store). x.1) failed_on) ∙ unless_duplicate-state g s
  ]

  settle-err :
      (status : WebhookStatus) (id : String) {f : Failure} {t : Store}
      → settle db now attempt_id payload status id s ≡ (err f, t)
      → t ≡ s
  unfolding settle update_status_with_post_increment update_status_without_post_increment
  settle-err WebhookStatus.success id e = undone db.transaction _ e
  settle-err _ id e = undone db.transaction _ e

  err-proceed-pure :
      (x : Result Bool × Store) (a : Acknowledge) {f : Failure} {t : Store}
      → proceed x (λ b. pure a) ≡ (err f, t)
      → x ≡ (err f, t)
  err-proceed-pure (ok b, u) a e = cc
  err-proceed-pure (err g, u) a e = cc

  -- A webhook that is answered with an error, of whatever kind, has changed nothing.
  pub handle_webhook-err :
      (crypto : Crypto) (f : Failure) (t : Store)
      → handle_webhook db crypto now attempt_id payload s ≡ (err f, t)
      → t ≡ s
  unfolding handle_webhook
  handle_webhook-err crypto f t e = elim (Bool-cases (verify_webhook_signature crypto payload)) [
    | inr forged ↦ cc
    | inl signed ↦ elim (Option-cases (find_by_id db payload.order_reference s)) [
      | inl missing ↦ cc
      | inr (payment, found) ↦ elim (Bool-cases (nat_eq payment.amount payload.amount)) [
        | inr unlike ↦ cc
        | inl like ↦ elim (Bool-cases (payment.currency == payload.currency)) [
          | inr foreign ↦ cc
          | inl local ↦ settle-err (map_webhook_status payload.transaction_status) payment.id (
              err-proceed-pure _ (build_webhook_acknowledge crypto (now / 1000) payment.id)
                (rw (signed, found, like, local) at e))
        ]
      ]
    ]
  ]
