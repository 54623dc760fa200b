-- ===== src/Payments/Service.antt =====
-- modules/payments/services/payments.service.ts: what changes the store. The lists that only read
-- are left out, and so are log lines. `provider ?? DEFAULT_PROVIDER` is the one provider that
-- there is.
use text.Mathlib.Text.{◌==◌}
use trust_post.Common.{
  ℕ, ◌+◌, ◌*◌, ◌/◌, String, not, Bool, false, Option, none, some, get_or, nat_eq, if◌then◌else◌,
}
use trust_post.Common.Int.{ℤ, pos, leb_ℤ, pos_part}
use trust_post.Errors.{bad_request, not_found, Result}
use trust_post.Actions.{Action, pure, guard, require, ◌>>=◌, ◌>>◌}
use trust_post.Payments.{
  failed, expired, PaymentProvider, wayforpay, WayForPayWebhookPayload, Store,
}
use trust_post.Payments.Gateway.{
  Crypto, WebhookStatus, Acknowledge, CheckoutInput, CheckoutResult, parse_webhook,
  verify_webhook_signature, build_webhook_acknowledge,
}
use trust_post.Payments.Repo.{
  Database, create, find_by_id, get_post_for_donation, get_payment_for_regeneration,
  update_payment_checkout_state, update_status_with_post_increment,
  update_status_without_post_increment,
}

pub record CreatePaymentRequest : Type 0 where
  pub post_id : ℕ
  pub amount : ℤ
  pub currency : Option String
  pub user_id : String
  pub is_anonymous : Option Bool

pub record PaymentInitResponse : Type 0 where
  pub payment_id : String
  pub provider : PaymentProvider
  pub checkout_url : String
  pub qr_code_url : Option String

abbrev init_response : String → CheckoutResult → PaymentInitResponse
init_response id checkout = record {
  payment_id = id;
  provider = wayforpay;
  checkout_url = checkout.checkout_url;
  qr_code_url = checkout.qr_code_url;
}

-- `reason === 'Cardholder session expired'`
unfoldable pub is_session_expired : Option String → Bool
is_session_expired none = false
is_session_expired (some reason) = reason == "Cardholder session expired"

module _ (db : Database) where
  module _ (create_checkout : CheckoutInput → Result CheckoutResult) where
    -- `create_checkout` is the call of the gateway, which changes no row.
    abbrev checkout : CheckoutInput → Action Store CheckoutResult
    checkout input s = (create_checkout input, s)

    -- `order_expires_at` is the configured life of an order in seconds, `now` in milliseconds.
    unfoldable pub create_payment :
        (order_expires_at now : ℕ)
        → String
        → CreatePaymentRequest
        → Action Store PaymentInitResponse
    create_payment order_expires_at now new_id input s =
        (do
          guard (not (leb_ℤ input.amount (pos 0))) (bad_request "Amount must be greater than zero")
          post ←
              require (get_post_for_donation db input.post_id s)
                (not_found "Post for donation not found")
          let currency = get_or input.currency "UAH"
          guard (post.currency == currency)
              (bad_request "Payment currency must match post currency")
          payment ← create db new_id (record {
            post_id = post.id;
            user_id = input.user_id;
            is_anonymous = get_or input.is_anonymous false;
            amount = pos_part input.amount;
            currency = currency;
            reference_payment_id = post.reference_payment_id;
          })
          found ← checkout (record {
            payment_id = payment.id;
            amount = payment.amount;
            currency = payment.currency;
            post_title = post.title;
          })
          update_payment_checkout_state db payment.id (now + order_expires_at * 1000)
          pure (init_response payment.id found))
          s

    -- `title_of` is the title of the payment's post, which the query brings along.
    unfoldable pub regenerate_payment_link :
        (now : ℕ)
        → String
        → String
        → (user_id : String) → (ℕ → String)
        → Action Store PaymentInitResponse
    regenerate_payment_link now new_id payment_id user_id title_of s =
        (do
          payment ← require (get_payment_for_regeneration db now payment_id user_id s) (
              bad_request
                "Payment cannot be regenerated. Ensure payment status is pending or failed, payment is not expired, and post is approved")
          new_payment ← create db new_id (record {
            post_id = payment.post_id;
            user_id = user_id;
            is_anonymous = payment.is_anonymous;
            amount = payment.amount;
            currency = payment.currency;
            reference_payment_id = payment.reference_payment_id;
          })
          found ← checkout (record {
            payment_id = new_payment.id;
            amount = new_payment.amount;
            currency = new_payment.currency;
            post_title = title_of payment.post_id;
          })
          pure (init_response new_payment.id found))
          s

  -- The repository's call for the status of the webhook. Every status but SUCCESS closes the
  -- payment, as expired if the reason says that the session expired, and as failed otherwise.
  unfoldable pub settle :
      ℕ → String → WayForPayWebhookPayload → WebhookStatus → String → Action Store Bool
  unfolding is_session_expired
  settle now attempt_id payload WebhookStatus.success payment_id =
      update_status_with_post_increment db now attempt_id payment_id wayforpay
        payload.transaction_id payload
  settle now attempt_id payload _ payment_id =
      update_status_without_post_increment db
        (if is_session_expired payload.reason then expired else failed) now attempt_id payment_id
        wayforpay payload.transaction_id payload

  unfoldable pub handle_webhook :
      Crypto → ℕ → String → WayForPayWebhookPayload → Action Store Acknowledge
  unfolding settle parse_webhook
  handle_webhook crypto now attempt_id payload s =
      (do
        guard (verify_webhook_signature crypto payload)
            (bad_request "Invalid payment webhook signature")
        let webhook = parse_webhook payload
        payment ← require (find_by_id db webhook.payment_id s) (not_found "Payment not found")
        guard (nat_eq payment.amount payload.amount) (bad_request "Webhook amount mismatch")
        guard (payment.currency == payload.currency) (bad_request "Webhook currency mismatch")
        updated ← settle now attempt_id payload webhook.status payment.id
        pure (build_webhook_acknowledge crypto (now / 1000) payment.id))
        s
