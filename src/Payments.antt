-- ===== src/Payments.antt =====
-- modules/payments under src: donations to a post through WayForPay. Here are the rows that the
-- component reads and writes, with the columns that the modelled code uses; the children model
-- the gateway, the repositories and the service, and prove what they keep.
-- An amount is a number of kopecks (hundredths), which the column `Decimal(12, 2)` holds exactly.
-- A currency is the name of the value of the enum `Currencies`. Times are milliseconds.
pub mod Gateway
pub mod Repo
pub mod Service
pub mod Ledger
pub mod Settlement
pub mod Webhook
pub mod Replay
pub mod Approval
mod Tests
use trust_post.Common.{ℕ, String, Bool, true, false, Option, List}

pub data PaymentStatus : Type 0 where
  pending success failed expired : PaymentStatus

pub data PaymentProvider : Type 0 where
  wayforpay : PaymentProvider

-- The status of a post, as far as a donation asks for it.
pub data PostStatus : Type 0 where
  draft pending_review approved rejected blocked archived completed : PostStatus

-- A field that the payload may lack is an option.
pub record WayForPayWebhookPayload : Type 0 where
  pub merchant_account : String
  pub order_reference : String
  pub merchant_signature : Option String
  pub amount : ℕ
  pub currency : String
  pub auth_code : Option String
  pub card_pan : Option String
  pub transaction_status : String
  pub reason_code : Option ℕ
  pub reason : Option String
  pub transaction_id : Option String

pub record Payment : Type 0 where
  pub id : String
  pub post_id : ℕ
  pub user_id : String
  pub is_anonymous : Bool
  pub amount : ℕ
  pub currency : String
  pub status : PaymentStatus
  pub status_reason : Option String
  pub reference_payment_id : String
  pub last_attempt_id : Option String
  pub confirmed_at : Option ℕ
  pub expired_at : Option ℕ

pub record PaymentAttempt : Type 0 where
  pub id : String
  pub payment_id : String
  pub provider : PaymentProvider
  pub provider_payment_id : Option String
  pub status : PaymentStatus
  pub provider_response : WayForPayWebhookPayload
  pub status_reason : Option String

pub record Post : Type 0 where
  pub id : ℕ
  pub title : String
  pub currency : String
  pub reference_payment_id : String
  pub status : PostStatus
  pub current_amount : ℕ
  pub deleted_at : Option ℕ

-- The rows of the three tables.
pub record Store : Type 0 where
  pub payments : List Payment
  pub attempts : List PaymentAttempt
  pub posts : List Post

abbrev pub is_success : PaymentStatus → Bool
is_success success = true
is_success _ = false

abbrev pub is_approved : PostStatus → Bool
is_approved approved = true
is_approved _ = false
