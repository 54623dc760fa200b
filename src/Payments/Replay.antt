-- ===== src/Payments/Replay.antt =====
-- A webhook whose transaction is recorded, and the webhooks that are refused.
use trust_post.Common.{
  ℕ, ◌/◌, ◌≡◌, sym, subst, String, Bool, true, false, some, any, eq_iff, nat_eq_iff,
}
use text.Mathlib.Text.{◌==◌}
use trust_post.Errors.{prisma, ok, err}
use trust_post.Actions.{Action, pure, catch, proceed}
use trust_post.Payments.{WayForPayWebhookPayload, wayforpay, Payment, PaymentStatus, success, Store}
use trust_post.Payments.Gateway.{
  Crypto, WebhookStatus, map_webhook_status, build_webhook_acknowledge, verify_webhook_signature,
}
use trust_post.Payments.Repo.{
  Database, is_payment, has_transaction, find_by_id, create_in_transaction, increment_body,
  close_body, update_status_with_post_increment, update_status_without_post_increment,
  unless_duplicate,
}
use trust_post.Payments.Service.{settle, handle_webhook}

-- A webhook that passes the checks of `handleWebhook`, for the payment that the query finds.
pub record IsAccepted (db : Database) (crypto : Crypto) (payload : WayForPayWebhookPayload)
    (s : Store) : Type 0 where
  pub payment : Payment
  pub signed : verify_webhook_signature crypto payload ≡ true
  pub found : find_by_id db payload.order_reference s ≡ some payment
  pub amount : payment.amount ≡ payload.amount
  pub currency : payment.currency ≡ payload.currency

module _ (db : Database) (now : ℕ) (attempt_id : String) (payload : WayForPayWebhookPayload)
    (s : Store)
    (recorded : any (has_transaction wayforpay payload.transaction_id) s.attempts ≡ true) where
  refused_attempt :
      (id : String) (status : PaymentStatus)
      → create_in_transaction db attempt_id id wayforpay payload.transaction_id status payload s
        ≡ (err (prisma "P2002"), s)
  unfolding create_in_transaction
  refused_attempt id status = rw recorded

  duplicate_ignored :
      (body : Action Store Bool)
      → body s ≡ (err (prisma "P2002"), s)
      → catch (db.transaction.run body) unless_duplicate s ≡ (ok false, s)
  unfolding unless_duplicate
  duplicate_ignored body e = rw (db.transaction.rolls_back body s e)

  blocked_increment :
      (id : String) (payment : Payment)
      → find_by_id db id s ≡ some payment
      → increment_body db now attempt_id id wayforpay payload.transaction_id payload s
        ≡ (err (prisma "P2002"), s)
  unfolding increment_body find_by_id
  blocked_increment id payment found =
      let row : db.payment.find_first (is_payment id) s.payments ≡ some payment = found in
      rw (increment_body, find_by_id, row, refused_attempt id success)

  blocked_close :
      (id : String) (status : PaymentStatus)
      → close_body db status now attempt_id id wayforpay payload.transaction_id payload s
        ≡ (err (prisma "P2002"), s)
  unfolding close_body
  blocked_close id status = rw (refused_attempt id status)

  settle_recorded :
      (status : WebhookStatus) (id : String) (payment : Payment)
      → find_by_id db id s ≡ some payment
      → settle db now attempt_id payload status id s ≡ (ok false, s)
  unfolding settle update_status_with_post_increment update_status_without_post_increment
  settle_recorded WebhookStatus.success id payment found =
      duplicate_ignored _ (blocked_increment id payment found)
  settle_recorded _ id payment found = duplicate_ignored _ (blocked_close id _)

module _ (db : Database) (crypto : Crypto) (now : ℕ) (attempt_id : String)
    (payload : WayForPayWebhookPayload) (s : Store)
    (accepted : IsAccepted db crypto payload s) where
  open accepted use {payment, signed, found, amount, currency}

  pub accepted_lem :
      handle_webhook db crypto now attempt_id payload s
      ≡ proceed
          (settle db now attempt_id payload
            (map_webhook_status payload.transaction_status)
            payment.id
            s)
          (λ updated. pure (build_webhook_acknowledge crypto (now / 1000) payment.id))
  unfolding handle_webhook
  accepted_lem = rw (
    signed,
    found,
    (nat_eq_iff payment.amount payload.amount).1 amount,
    (eq_iff payment.currency payload.currency).1 currency,
  )

  pub found_again : find_by_id db payment.id s ≡ some payment
  unfolding find_by_id
  found_again =
      let same = (eq_iff payment.id payload.order_reference).0 (named payment found) in
      subst (λ k. db.payment.find_first (is_payment k) s.payments ≡ some payment) (sym same) found
    where
      named :
          (p : Payment)
          → db.payment.find_first (is_payment payload.order_reference) s.payments ≡ some p
          → p.id == payload.order_reference ≡ true
      named p e =
          unfold is_payment in
          (db.payment.find_first-some (is_payment payload.order_reference) s.payments e).1

  -- An accepted webhook whose transaction id stands on a recorded attempt is acknowledged, and changes nothing,
  -- whatever its status and that attempt's.
  pub recorded_ignored :
      any (has_transaction wayforpay payload.transaction_id) s.attempts ≡ true
      → handle_webhook db crypto now attempt_id payload s
        ≡ (ok (build_webhook_acknowledge crypto (now / 1000) payment.id), s)
  recorded_ignored recorded = rw accepted_lem (
      rw (
        settle_recorded db now attempt_id payload s recorded
          (map_webhook_status payload.transaction_status) payment.id payment found_again))
