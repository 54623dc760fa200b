-- ===== src/Payments/Gateway.antt =====
-- modules/payments/providers/wayforpay.gateway.ts: what the service asks of the gateway for a
-- webhook. The HMAC and the hexadecimal decoding of Node are parameters, and so is the HTTP call
-- that makes a checkout.
use trust_post.Common.{ℕ, String, Bool, Option, none, some, List, [], ◌∷◌, get_or, if◌then◌else◌}
use trust_post.Common.Text.{◌<>◌, codes, trim, to_lower_case, codes_eq, show_nat, show_hundredths}
use trust_post.Payments.{WayForPayWebhookPayload}

-- `sign`: the hexadecimal HMAC with the merchant's secret; `decode_hex`: `Buffer.from(s, 'hex')`.
pub record Crypto : Type 0 where
  pub sign : String → String
  pub decode_hex : String → List ℕ

pub data WebhookStatus : Type 0 where
  success failed expired : WebhookStatus

pub record PaymentWebhookResult : Type 0 where
  pub payment_id : String
  pub provider_payment_id : Option String
  pub status : WebhookStatus
  pub payload : WayForPayWebhookPayload

pub record Acknowledge : Type 0 where
  pub order_reference : String
  pub status : String
  pub time : ℕ
  pub signature : String

pub record CheckoutInput : Type 0 where
  pub payment_id : String
  pub amount : ℕ
  pub currency : String
  pub post_title : String

pub record CheckoutResult : Type 0 where
  pub checkout_url : String
  pub qr_code_url : Option String

unfoldable pub map_webhook_status : String → WebhookStatus
map_webhook_status status =
    let normalized = to_lower_case (trim (codes status)) in
    if codes_eq normalized (codes "approved")
    then WebhookStatus.success
    else if codes_eq normalized (codes "expired")
    then WebhookStatus.expired
    else WebhookStatus.failed

unfoldable pub parse_webhook : WayForPayWebhookPayload → PaymentWebhookResult
parse_webhook payload = record {
  payment_id = payload.order_reference;
  provider_payment_id = payload.transaction_id;
  status = map_webhook_status payload.transaction_status;
  payload = payload;
}

-- `parts.join(';')`
join : List String → String
join [] = ""
join (part ∷ []) = part
join (part ∷ parts) = part <> ";" <> join parts

-- `String(payload.reasonCode ?? '')`
reason_text : Option ℕ → String
reason_text none = ""
reason_text (some n) = show_nat n

signature_source : WayForPayWebhookPayload → String
unfolding join reason_text
signature_source payload = join (
    payload.merchant_account
    ∷ payload.order_reference
    ∷ show_hundredths payload.amount
    ∷ payload.currency
    ∷ get_or payload.auth_code ""
    ∷ get_or payload.card_pan ""
    ∷ payload.transaction_status
    ∷ reason_text payload.reason_code
    ∷ [])

-- `timingSafeEqual` of two buffers, which wants them of one length: the guard above it in the
-- source answers false for buffers of two lengths.
unfoldable pub verify_webhook_signature : Crypto → WayForPayWebhookPayload → Bool
unfolding signature_source
verify_webhook_signature crypto payload =
    codes_eq (crypto.decode_hex (crypto.sign (signature_source payload)))
      (crypto.decode_hex (get_or payload.merchant_signature ""))

-- `time` is the current time in seconds.
unfoldable pub build_webhook_acknowledge : Crypto → ℕ → String → Acknowledge
build_webhook_acknowledge crypto time order_reference = record {
  order_reference = order_reference;
  status = "accept";
  time = time;
  signature = crypto.sign (order_reference <> ";accept;" <> show_nat time);
}
