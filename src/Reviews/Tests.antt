-- ===== src/Reviews/Tests.antt =====
-- The theorems of the reviews at a concrete store.
use trust_post.Common.{
  Option, ◌≡◌, refl, String, true, false, not, ◌||◌, some, none, [], ◌∷◌, Memᴰ, arith, any, nat_eq,
}
use text.Mathlib.Text.{◌==◌}
use trust_post.Errors.{ok}
use trust_post.Prisma.ListTable.{list_table, list_transaction}
use trust_post.Roles.{UserRoles, same_role}
use trust_post.Payments.{PostStatus, is_approved}
use trust_post.Reviews.{
  allowed_post_status, is_truthy, review_approved, review_rejected, PostReviewStatus, PostReview,
  ReviewedPost, ReviewStore, ReviewDatabase, PostLifecycleStatus, is_active_of, assign_reviewer,
  find_latest_active_by_post, modify_post_review_status,
}
use trust_post.Reviews.Active.{
  HasOneActive, assign_reviewer-HasOneActive, modify_review-HasOneActive,
}
use trust_post.Reviews.Verdict.{modify_review_allowed}

abbrev review_database : ReviewDatabase
review_database = record {
  post_review = list_table;
  post = list_table;
  transaction = list_transaction;
}

abbrev assigned : PostReview
assigned = record {
  id = 1;
  post_id = 7;
  reviewed_by_id = "mod";
  status = PostReviewStatus.pending;
  is_active = true;
  review_reason = none;
  created_at = 100;
}

abbrev moderation : ReviewStore
moderation = record {
  reviews = assigned ∷ [];
  posts =
      record { id = 7; author_id = "u1"; status = PostStatus.pending_review; status_reason = none }
      ∷ [];
}

moderation-HasOneActive : HasOneActive moderation
moderation-HasOneActive q = ground arith

abbrev approval : PostLifecycleStatus
approval = record {
  review_status = PostReviewStatus.approved;
  review_reason = none;
  post_status = PostStatus.approved;
  status_reason = none;
}

abbrev email_of_all : String → Option String
email_of_all id = some "u1@example.org"

assign_reviewer-HasOneActive_example :
    HasOneActive (assign_reviewer review_database 2 200 7 (some "other") moderation).1
assign_reviewer-HasOneActive_example =
    assign_reviewer-HasOneActive review_database moderation 2 200 7 (some "other")
      moderation-HasOneActive

modify_review-HasOneActive_example :
    HasOneActive
      (modify_post_review_status review_database email_of_all 2 200 7 "mod" UserRoles.moderator
        approval moderation).1
modify_review-HasOneActive_example =
    modify_review-HasOneActive review_database moderation email_of_all 2 200 7 "mod"
      UserRoles.moderator approval moderation-HasOneActive

approved_state : ReviewStore
approved_state =
    (modify_post_review_status review_database email_of_all 2 200 7 "mod" UserRoles.moderator
      approval moderation).1

approved_by_reviewer :
    modify_post_review_status review_database email_of_all 2 200 7 "mod" UserRoles.moderator
      approval moderation
    ≡ (ok "Post review and lifecycle status updated successfully", approved_state)
unfolding approved_state modify_post_review_status find_latest_active_by_post is_active_of
approved_by_reviewer = refl

modify_review_allowed_example :
    ((r : PostReview) × Memᴰ r moderation.reviews
      × (is_active_of 7 r ≡ true)
      × (same_role UserRoles.moderator UserRoles.admin || r.reviewed_by_id == "mod" ≡ true))
    × (not (review_approved approval.review_status) || is_approved approval.post_status ≡ true)
    × (not (review_rejected approval.review_status) || allowed_post_status approval.post_status
        ≡ true)
    × (not (allowed_post_status approval.post_status) || is_truthy approval.status_reason ≡ true)
    × (any (λ (p : ReviewedPost). nat_eq p.id 7) moderation.posts ≡ true)
    × (approved_state.posts
        ≡ record { id = 7; author_id = "u1"; status = PostStatus.approved; status_reason = none }
          ∷ [])
    × (approved_state.reviews
        ≡ record assigned { is_active = false }
          ∷ record {
            id = 2;
            post_id = 7;
            reviewed_by_id = "mod";
            status = PostReviewStatus.approved;
            is_active = true;
            review_reason = none;
            created_at = 200;
          }
          ∷ [])
modify_review_allowed_example =
    modify_review_allowed review_database moderation email_of_all 2 200 7 "mod" UserRoles.moderator
      approval "Post review and lifecycle status updated successfully" approved_state
      approved_by_reviewer
