-- ===== src/Payments/Repo.antt =====
-- modules/payments/repo/payments.repo.ts and payments-attempts.repo.ts. The tables are those of
-- `Database`; the id of a new row, which the database chooses, is an argument.
use text.Mathlib.Text.{◌==◌}
use trust_post.Common.{
  ℕ, ◌+◌, String, ◌&&◌, not, Bool, true, false, Option, none, some, List, [], ◌∷◌, any, nat_eq, ltb,
  if◌then◌else◌, is_some,
}
use trust_post.Common.Text.{codes, trim}
use trust_post.Errors.{Failure, prisma, ok, err}
use trust_post.Actions.{Action, pure, throw, proceed, catch}
use trust_post.Prisma.{Table, Transaction}
use trust_post.Payments.{
  PaymentStatus, pending, success, expired, PaymentProvider, wayforpay, WayForPayWebhookPayload,
  Payment, PaymentAttempt, Post, Store, is_success, is_approved,
}

-- The tables that the repositories use, and the client's transactions on them.
pub record Database : Type 0 where
  pub payment : Table Payment
  pub payment_attempt : Table PaymentAttempt
  pub post : Table Post
  pub transaction : Transaction Store Bool

pub record CreatePaymentInput : Type 0 where
  pub post_id : ℕ
  pub user_id : String
  pub is_anonymous : Bool
  pub amount : ℕ
  pub currency : String
  pub reference_payment_id : String

-- `confirmedAt` and `expiredAt` of a new row are null.
unfoldable pub new_payment : String → CreatePaymentInput → Payment
new_payment id input = record {
  id = id;
  post_id = input.post_id;
  user_id = input.user_id;
  is_anonymous = input.is_anonymous;
  amount = input.amount;
  currency = input.currency;
  status = pending;
  status_reason = none;
  reference_payment_id = input.reference_payment_id;
  last_attempt_id = none;
  confirmed_at = none;
  expired_at = none;
}

-- The reason, if it has a character that is no space.
unfoldable pub get_attempt_message : WayForPayWebhookPayload → Option String
get_attempt_message payload = elim payload.reason [
  | none ↦ none
  | some reason ↦ elim (trim (codes reason)) [ [] ↦ none | c ∷ rest ↦ some reason ]
]

same_provider : PaymentProvider → PaymentProvider → Bool
same_provider wayforpay wayforpay = true

-- A row that has this pair of values, which `@@unique([provider, providerPaymentId])` allows one
-- row at most. A null is unequal to every value.
unfoldable pub has_transaction : PaymentProvider → Option String → PaymentAttempt → Bool
unfolding same_provider
has_transaction provider none a = false
has_transaction provider (some t) a = elim a.provider_payment_id [
  | none ↦ false
  | some u ↦ same_provider a.provider provider && u == t
]

unfoldable pub is_payment : String → Payment → Bool
is_payment id p = p.id == id

-- `where: { id, status: { not: SUCCESS } }`
unfoldable pub is_open_payment : String → Payment → Bool
unfolding is_payment
is_open_payment id p = is_payment id p && not (is_success p.status)

unfoldable pub is_post : ℕ → Post → Bool
is_post id p = nat_eq p.id id

-- `{ ...(status === EXPIRED ? { expiredAt: new Date() } : {}) }`
expiry_of : PaymentStatus → ℕ → Option ℕ → Option ℕ
expiry_of expired now old = some now
expiry_of _ now old = old

-- `data` of the two updates of a payment.
unfoldable pub confirm : ℕ → String → WayForPayWebhookPayload → Payment → Payment
confirm now attempt_id payload p = record p {
  status = success;
  confirmed_at = some now;
  last_attempt_id = some attempt_id;
  status_reason = payload.reason;
}

unfoldable pub close : PaymentStatus → ℕ → String → WayForPayWebhookPayload → Payment → Payment
unfolding expiry_of
close status now attempt_id payload p = record p {
  status = status;
  last_attempt_id = some attempt_id;
  expired_at = expiry_of status now p.expired_at;
  status_reason = payload.reason;
}

-- `{ currentAmount: { increment: amount } }`
unfoldable pub add_amount : ℕ → Post → Post
add_amount amount p = record p { current_amount = p.current_amount + amount }

-- P2002, the violation of a unique constraint, is answered with false; any other error goes on.
unfoldable pub unless_duplicate : Failure → Action Store Bool
unless_duplicate (prisma code) = if code == "P2002" then pure false else throw (prisma code)
unless_duplicate f = throw f

module _ (db : Database) where
  unfoldable pub create : String → CreatePaymentInput → Action Store Payment
  unfolding new_payment
  create id input s =
      let p = new_payment id input in (ok p, record s { payments = db.payment.create p s.payments })

  unfoldable pub find_by_id : String → Store → Option Payment
  find_by_id id s = db.payment.find_first (is_payment id) s.payments

  -- `where: { id, status: APPROVED, deletedAt: null }`
  unfoldable pub get_post_for_donation : ℕ → Store → Option Post
  get_post_for_donation id s =
      db.post.find_first (λ p. is_post id p && is_approved p.status && not (is_some p.deleted_at))
        s.posts

  -- The condition on the payment's post.
  abbrev is_donation_post : List Post → ℕ → Bool
  is_donation_post posts id =
      any (λ (p : Post). is_post id p && is_approved p.status && not (is_some p.deleted_at)) posts

  -- `where: { id, userId, expiredAt: { gt: now }, post: { status: APPROVED, deletedAt: null } }`;
  -- a null is not greater than any time.
  unfoldable pub can_regenerate : ℕ → String → String → List Post → Payment → Bool
  can_regenerate now payment_id user_id posts p =
      is_payment payment_id p
      && p.user_id == user_id
      && elim p.expired_at [ none ↦ false | some t ↦ ltb now t ]
      && is_donation_post posts p.post_id

  unfoldable pub get_payment_for_regeneration : ℕ → String → String → Store → Option Payment
  unfolding can_regenerate
  get_payment_for_regeneration now payment_id user_id s =
      db.payment.find_first (can_regenerate now payment_id user_id s.posts) s.payments

  -- `updatePaymentCheckoutState` with the status PENDING, the one that the service passes.
  unfoldable pub update_payment_checkout_state : String → ℕ → Action Store (Unit {0})
  update_payment_checkout_state payment_id expires_at s =
      elim (db.payment.update (is_payment payment_id)
        (λ p. record p { status = pending; expired_at = some expires_at; confirmed_at = none })
        s.payments) [
          | none ↦ (err (prisma "P2025"), s)
          | some payments ↦ (ok tt, record s { payments = payments })
        ]

  -- `createInTransaction`: the database refuses a second row with the provider's transaction.
  unfoldable pub create_in_transaction :
      String
      → String
      → PaymentProvider
      → Option String
      → PaymentStatus
      → WayForPayWebhookPayload
      → Action Store String
  unfolding has_transaction get_attempt_message
  create_in_transaction id payment_id provider provider_payment_id status payload s =
      if any (has_transaction provider provider_payment_id) s.attempts
      then (err (prisma "P2002"), s)
      else (
        ok id,
        record s {
          attempts =
              db.payment_attempt.create
                (record {
                  id = id;
                  payment_id = payment_id;
                  provider = provider;
                  provider_payment_id = provider_payment_id;
                  status = status;
                  provider_response = payload;
                  status_reason = get_attempt_message payload;
                })
                s.attempts;
        },
      )

  -- The rest of the transaction of a success, once its attempt is recorded.
  unfoldable pub confirm_payment :
      ℕ → String → WayForPayWebhookPayload → Payment → Action Store Bool
  unfolding is_open_payment confirm add_amount is_post
  confirm_payment now attempt_id payload payment s =
      let (count, payments) =
        db.payment.update_many (is_open_payment payment.id) (confirm now attempt_id payload)
          s.payments in
      let s' = record s { payments = payments } in
      if nat_eq count 0
      then (ok false, s')
      else elim (db.post.update (is_post payment.post_id) (add_amount payment.amount) s.posts) [
        | none ↦ (err (prisma "P2025"), s')
        | some posts ↦ (ok true, record s' { posts = posts })
      ]

  -- The function that `updateStatusWithPostIncrement` runs in a transaction.
  unfoldable pub increment_body :
      ℕ
      → String
      → String
      → PaymentProvider
      → Option String
      → WayForPayWebhookPayload
      → Action Store Bool
  unfolding create_in_transaction confirm_payment
  increment_body now attempt_id payment_id provider provider_payment_id payload s =
      elim (find_by_id payment_id s) [
        | none ↦ (ok false, s)
        | some payment ↦
            proceed
              (create_in_transaction attempt_id payment_id provider provider_payment_id success
                payload s)
              (λ id. confirm_payment now id payload payment)
      ]

  unfoldable pub update_status_with_post_increment :
      ℕ
      → String
      → String
      → PaymentProvider
      → Option String
      → WayForPayWebhookPayload
      → Action Store Bool
  unfolding increment_body unless_duplicate
  update_status_with_post_increment now attempt_id payment_id provider provider_payment_id payload =
      catch
        (db.transaction.run
          (increment_body now attempt_id payment_id provider provider_payment_id payload))
        unless_duplicate

  -- The rest of the transaction of any other result.
  unfoldable pub close_payment :
      PaymentStatus → ℕ → String → String → WayForPayWebhookPayload → Action Store Bool
  unfolding is_open_payment close
  close_payment status now payment_id attempt_id payload s =
      let (count, payments) =
        db.payment.update_many (is_open_payment payment_id) (close status now attempt_id payload)
          s.payments in
      (ok (ltb 0 count), record s { payments = payments })

  unfoldable pub close_body :
      PaymentStatus
      → ℕ
      → String
      → String
      → PaymentProvider
      → Option String
      → WayForPayWebhookPayload
      → Action Store Bool
  unfolding create_in_transaction close_payment
  close_body status now attempt_id payment_id provider provider_payment_id payload s =
      proceed
        (create_in_transaction attempt_id payment_id provider provider_payment_id status payload s)
        (λ id. close_payment status now payment_id id payload)

  unfoldable pub update_status_without_post_increment :
      PaymentStatus
      → ℕ
      → String
      → String
      → PaymentProvider
      → Option String
      → WayForPayWebhookPayload
      → Action Store Bool
  unfolding close_body unless_duplicate
  update_status_without_post_increment status now attempt_id payment_id provider provider_payment_id
        payload =
      catch
        (db.transaction.run
          (close_body status now attempt_id payment_id provider provider_payment_id payload))
        unless_duplicate
