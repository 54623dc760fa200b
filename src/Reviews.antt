-- ===== src/Reviews.antt =====
-- The moderation of posts: modules/posts/services/posts-review.service.ts and
-- modules/posts/repos/posts-review.repo.ts under src, with `updateStatus` of
-- modules/posts/repos/posts.repo.ts. The id of a new review and the clock are arguments, and so is the
-- e-mail address of a user, which the users service looks up. The cache, the metrics, the e-mail queue and log
-- lines are left out: none of them changes a table.
pub mod Active
pub mod Verdict
mod Tests
use text.Mathlib.Text.{◌==◌}
use trust_post.Common.{
  ℕ, String, Bool, true, false, not, ◌&&◌, ◌||◌, Option, none, some, List, if◌then◌else◌, nat_eq,
  is_some,
}
use trust_post.Errors.{Failure, bad_request, forbidden, not_found, prisma, Result, ok, err}
use trust_post.Actions.{Action, pure, throw, guard, require, ◌>>=◌, ◌>>◌, proceed}
use trust_post.Prisma.{Table, Transaction}
use trust_post.Roles.{UserRoles, same_role}
use trust_post.Payments.{PostStatus, is_approved}

pub data PostReviewStatus : Type 0 where
  pending approved rejected : PostReviewStatus

pub record PostReview : Type 0 where
  pub id : ℕ
  pub post_id : ℕ
  pub reviewed_by_id : String
  pub status : PostReviewStatus
  pub is_active : Bool
  pub review_reason : Option String
  pub created_at : ℕ

-- The columns of a post that the moderation reads and writes.
pub record ReviewedPost : Type 0 where
  pub id : ℕ
  pub author_id : String
  pub status : PostStatus
  pub status_reason : Option String

pub record ReviewStore : Type 0 where
  pub reviews : List PostReview
  pub posts : List ReviewedPost

pub record ReviewDatabase : Type 0 where
  pub post_review : Table PostReview
  pub post : Table ReviewedPost
  pub transaction : Transaction ReviewStore (Unit {0})

pub record PostLifecycleStatus : Type 0 where
  pub review_status : PostReviewStatus
  pub review_reason : Option String
  pub post_status : PostStatus
  pub status_reason : Option String

-- `reason`, which is neither missing nor empty.
abbrev pub is_truthy : Option String → Bool
is_truthy none = false
is_truthy (some text) = not (text == "")

-- `a ?? b` of two texts that may be missing.
abbrev pub or_else : Option String → Option String → Option String
or_else none other = other
or_else (some text) other = some text

abbrev pub review_approved : PostReviewStatus → Bool
review_approved PostReviewStatus.approved = true
review_approved _ = false

abbrev pub review_rejected : PostReviewStatus → Bool
review_rejected PostReviewStatus.rejected = true
review_rejected _ = false

unfoldable pub allowed_post_status : PostStatus → Bool
allowed_post_status PostStatus.rejected = true
allowed_post_status PostStatus.blocked = true
allowed_post_status _ = false

-- `statusReason` of the post: none for an approved review.
unfoldable pub final_status_reason : PostLifecycleStatus → Option String
final_status_reason input =
    if review_approved input.review_status
    then none
    else or_else input.status_reason (or_else input.review_reason input.status_reason)

-- The checks before anything is read: the message of the first that fails.
unfoldable pub validate_lifecycle : PostLifecycleStatus → Option String
unfolding allowed_post_status
validate_lifecycle input =
    if allowed_post_status input.post_status && not (is_truthy input.status_reason)
    then some "statusReason is required when postStatus is REJECTED or BLOCKED"
    else if review_rejected input.review_status && not (allowed_post_status input.post_status)
    then some "When reviewStatus is REJECTED, postStatus must be REJECTED or BLOCKED"
    else if review_rejected input.review_status
        && not (is_truthy (or_else input.review_reason input.status_reason))
    then some "Review reason is required for rejected reviews"
    else if review_approved input.review_status && not (is_approved input.post_status)
    then some "When reviewStatus is APPROVED, postStatus must be APPROVED"
    else none

-- The throw of a check's message, if there is one.
abbrev pub refuse : Option String → Action ReviewStore (Unit {0})
refuse none s = (ok tt, s)
refuse (some message) s = (err (bad_request message), s)

unfoldable pub is_review_of : ℕ → PostReview → Bool
is_review_of post_id r = nat_eq r.post_id post_id

-- `where: { postId, isActive: true }`
unfoldable pub is_active_of : ℕ → PostReview → Bool
is_active_of post_id r = nat_eq r.post_id post_id && r.is_active

unfoldable pub suspended : PostReview → PostReview
suspended r = record r { is_active = false }

-- A new row; `isActive` is true by default.
unfoldable pub new_review : ℕ → ℕ → ℕ → String → PostReviewStatus → Option String → PostReview
new_review id now post_id reviewer status reason = record {
  id = id;
  post_id = post_id;
  reviewed_by_id = reviewer;
  status = status;
  is_active = true;
  review_reason = reason;
  created_at = now;
}

module _ (db : ReviewDatabase) where
  unfoldable pub find_latest_active_by_post : ℕ → ReviewStore → Option PostReview
  unfolding is_active_of
  find_latest_active_by_post post_id s =
      db.post_review.find_latest (λ r. r.created_at) (is_active_of post_id) s.reviews

  unfoldable pub suspend_previous_review : ℕ → Action ReviewStore ℕ
  unfolding is_review_of suspended
  suspend_previous_review post_id s =
      let (count, reviews) =
        db.post_review.update_many (is_review_of post_id) suspended s.reviews in
      (ok count, record s { reviews = reviews })

  -- `assignReviewer` and `addPostReview` of the repository.
  unfoldable pub add_post_review : PostReview → Action ReviewStore ℕ
  add_post_review review s =
      (ok review.id, record s { reviews = db.post_review.create review s.reviews })

  unfoldable pub update_status : ℕ → (ReviewedPost → ReviewedPost) → Action ReviewStore (Unit {0})
  update_status post_id change s = elim (db.post.update (λ p. nat_eq p.id post_id) change s.posts) [
    | none ↦ (err (prisma "P2025"), s)
    | some posts ↦ (ok tt, record s { posts = posts })
  ]

  -- The function of both transactions: the previous reviews suspended, a new one, the post's status.
  unfoldable pub review_body :
      PostReview → (ReviewedPost → ReviewedPost) → Action ReviewStore (Unit {0})
  unfolding suspend_previous_review add_post_review update_status
  review_body review change s =
      (do
        count ← suspend_previous_review review.post_id
        id ← add_post_review review
        update_status review.post_id change)
        s

  -- `assignReviewer` of the service, for the reviewer that the random choice fell on, if there is one.
  unfoldable pub assign_reviewer : ℕ → ℕ → ℕ → Option String → Action ReviewStore String
  unfolding review_body new_review
  assign_reviewer new_id now post_id chosen s =
      (do
        reviewer ← require chosen (not_found "No reviewers available")
        db.transaction.run (
            review_body (new_review new_id now post_id reviewer PostReviewStatus.pending none)
              (λ p. record p { status = PostStatus.pending_review }))
        pure "Reviewer assigned successfully")
        s

  module _ (email_of : String → Option String) where
    unfoldable pub modify_post_review_status :
        ℕ → ℕ → ℕ → String → UserRoles → PostLifecycleStatus → Action ReviewStore String
    unfolding validate_lifecycle find_latest_active_by_post review_body new_review
        final_status_reason
    modify_post_review_status new_id now post_id user_id role input s =
        (do
          refuse (validate_lifecycle input)
          active_review ← require (find_latest_active_by_post post_id s) (
              forbidden
                "You are not assigned to moderate this post or post is not in active moderation")
          guard (same_role role UserRoles.admin || active_review.reviewed_by_id == user_id) (
              forbidden
                "You are not assigned to moderate this post or post is not in active moderation")
          post ←
              require (db.post.find_first (λ p. nat_eq p.id post_id) s.posts)
                (not_found "Post not found")
          email ← require (email_of post.author_id) (not_found "User not found")
          db.transaction.run (
              review_body
                (new_review new_id now post_id user_id input.review_status
                  (or_else input.review_reason input.status_reason))
                (λ p. record p {
                  status = input.post_status;
                  status_reason = final_status_reason input;
                }))
          pure "Post review and lifecycle status updated successfully")
          s
