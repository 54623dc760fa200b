-- ===== src/Payments/Tests.antt =====
-- The theorems of the payments at a concrete store.
use trust_post.Common.{ℕ, String, ◌/◌, ◌≡◌, refl, true, false, [], ◌∷◌, Memᴰ, some, none, any}
use trust_post.Common.Text.{codes, apart}
use trust_post.Errors.{bad_request, ok, err}
use trust_post.Prisma.ListTable.{list_table, list_transaction}
use trust_post.Payments.{
  WayForPayWebhookPayload, PaymentStatus, pending, success, wayforpay, Payment, approved, Store,
}
use trust_post.Payments.Gateway.{Crypto, build_webhook_acknowledge, verify_webhook_signature}
use trust_post.Payments.Repo.{Database, find_by_id, has_transaction, is_payment}
use trust_post.Payments.Service.{handle_webhook}
use trust_post.Payments.Settlement.{IsLedger}
use trust_post.Payments.Webhook.{handle_webhook-IsLedger, handle_webhook-mem}
use trust_post.Payments.Replay.{IsAccepted, recorded_ignored}
use trust_post.Payments.Approval.{settled, approved_settles, handle_webhook-err}
use trust_post.Payments.Repo.{is_post}
use trust_post.Payments.Gateway.{WebhookStatus, map_webhook_status}

abbrev database : Database
database = record {
  payment = list_table;
  payment_attempt = list_table;
  post = list_table;
  transaction = list_transaction;
}

-- A signature that is the same for every text.
abbrev fixed_crypto : Crypto
fixed_crypto = record { sign = λ text. "5a"; decode_hex = codes }

abbrev webhook : String → String → WayForPayWebhookPayload
webhook transaction status = record {
  merchant_account = "trust_post";
  order_reference = "pay-2";
  merchant_signature = some "5a";
  amount = 5000;
  currency = "UAH";
  auth_code = none;
  card_pan = none;
  transaction_status = status;
  reason_code = some 1100;
  reason = some "Ok";
  transaction_id = some transaction;
}

abbrev payment_of : String → ℕ → PaymentStatus → Payment
payment_of id amount status = record {
  id = id;
  post_id = 7;
  user_id = "user-1";
  is_anonymous = false;
  amount = amount;
  currency = "UAH";
  status = status;
  status_reason = none;
  reference_payment_id = "ref-7";
  last_attempt_id = none;
  confirmed_at = none;
  expired_at = none;
}

abbrev store : Store
store = record {
  payments = payment_of "pay-1" 300 success ∷ payment_of "pay-2" 5000 pending ∷ [];
  attempts =
      record {
        id = "attempt-1";
        payment_id = "pay-2";
        provider = wayforpay;
        provider_payment_id = some "t-1";
        status = pending;
        provider_response = webhook "t-1" "Pending";
        status_reason = none;
      }
      ∷ [];
  posts =
      record {
        id = 7;
        title = "Help";
        currency = "UAH";
        reference_payment_id = "ref-7";
        status = approved;
        current_amount = 1300;
        deleted_at = none;
      }
      ∷ [];
}

abbrev before_payments : ℕ → ℕ
before_payments post = 1000

store-IsLedger : IsLedger before_payments store
store-IsLedger = record { unique = ((apart refl, tt), (tt, tt)); balanced = (refl, tt) }

handle_webhook-IsLedger_example :
    IsLedger before_payments
      (handle_webhook database fixed_crypto 9000 "attempt-2" (webhook "t-2" "Approved") store).1
handle_webhook-IsLedger_example =
    handle_webhook-IsLedger database 9000 "attempt-2" (webhook "t-2" "Approved") store fixed_crypto
      before_payments store-IsLedger

handle_webhook-mem_example :
    Memᴰ
      (payment_of "pay-1" 300 success)
      (handle_webhook database fixed_crypto 9000 "attempt-2"
        (webhook "t-2" "Approved")
        store).1.payments
handle_webhook-mem_example =
    handle_webhook-mem database 9000 "attempt-2" (webhook "t-2" "Approved") store fixed_crypto
      (payment_of "pay-1" 300 success) refl (Memᴰ.head refl)

approved_again-IsAccepted : IsAccepted database fixed_crypto (webhook "t-1" "Approved") store
unfolding verify_webhook_signature find_by_id is_payment
approved_again-IsAccepted = record {
  payment = payment_of "pay-2" 5000 pending;
  signed = refl;
  found = refl;
  amount = refl;
  currency = refl;
}

t_1_recorded : any (has_transaction wayforpay (some "t-1")) store.attempts ≡ true
unfolding has_transaction
t_1_recorded = refl

recorded_ignored_example :
    handle_webhook database fixed_crypto 9000 "attempt-2" (webhook "t-1" "Approved") store ≡ (
      ok (
          build_webhook_acknowledge fixed_crypto
            (9000 / 1000)
            approved_again-IsAccepted.payment.id),
      store,
    )
recorded_ignored_example =
    recorded_ignored database fixed_crypto 9000 "attempt-2" (webhook "t-1" "Approved") store
      approved_again-IsAccepted t_1_recorded

new_approved-IsAccepted : IsAccepted database fixed_crypto (webhook "t-2" "Approved") store
unfolding verify_webhook_signature find_by_id is_payment
new_approved-IsAccepted = record {
  payment = payment_of "pay-2" 5000 pending;
  signed = refl;
  found = refl;
  amount = refl;
  currency = refl;
}

says_approved : map_webhook_status "Approved" ≡ WebhookStatus.success
unfolding map_webhook_status
says_approved = refl

t_2_unrecorded : any (has_transaction wayforpay (some "t-2")) store.attempts ≡ false
unfolding has_transaction
t_2_unrecorded = refl

has_post_7 : any (is_post 7) store.posts ≡ true
unfolding is_post
has_post_7 = refl

approved_settles_example :
    handle_webhook database fixed_crypto 9000 "attempt-2" (webhook "t-2" "Approved") store ≡ (
      ok (build_webhook_acknowledge fixed_crypto (9000 / 1000) new_approved-IsAccepted.payment.id),
      settled database 9000 "attempt-2"
          (webhook "t-2" "Approved")
          new_approved-IsAccepted.payment
          store,
    )
unfolding new_approved-IsAccepted
approved_settles_example =
    approved_settles database fixed_crypto 9000 "attempt-2" (webhook "t-2" "Approved") store
      new_approved-IsAccepted says_approved t_2_unrecorded refl has_post_7

abbrev forged : WayForPayWebhookPayload
forged = record (webhook "t-2" "Approved") { merchant_signature = none }

forged_refused :
    handle_webhook database fixed_crypto 9000 "attempt-2" forged store
    ≡ (err (bad_request "Invalid payment webhook signature"), store)
unfolding handle_webhook verify_webhook_signature
forged_refused = refl

handle_webhook-err_example : store ≡ store
handle_webhook-err_example =
    handle_webhook-err database 9000 "attempt-2" forged store fixed_crypto
      (bad_request "Invalid payment webhook signature") store forged_refused
