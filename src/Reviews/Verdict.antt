-- ===== src/Reviews/Verdict.antt =====
-- Whom `modifyPostReviewStatus` of modules/posts/services/posts-review.service.ts under src lets decide on a
-- post, and what it leaves of the post and its reviews.
use text.Mathlib.Text.{◌==◌}
use trust_post.Common.{
  ℕ, ◌≡◌, refl, ap, String, true, false, not, ◌||◌, Option, none, some, [], ◌∷◌, ◌++◌, any, nat_eq,
  if◌then◌else◌, Bool-cases, Option-cases, inl, inr, arith, Memᴰ,
}
use trust_post.Errors.{ok}
use trust_post.Prisma.{update_where}
use trust_post.Roles.{UserRoles, same_role}
use trust_post.Payments.{is_approved}
use trust_post.Reviews.{
  allowed_post_status, is_truthy, or_else, final_status_reason, new_review, review_approved,
  review_rejected, PostReview, ReviewStore, ReviewDatabase, PostLifecycleStatus, is_review_of,
  is_active_of, suspended, validate_lifecycle, find_latest_active_by_post,
  modify_post_review_status,
}
use trust_post.Reviews.Active.{run_lem}

module _ (db : ReviewDatabase) (s : ReviewStore) (email_of : String → Option String)
    (new_id now post_id : ℕ) (user_id : String) (role : UserRoles)
    (input : PostLifecycleStatus) where
  consistent :
      validate_lifecycle input ≡ none
      → (not (review_approved input.review_status) || is_approved input.post_status ≡ true)
        × (not (review_rejected input.review_status) || allowed_post_status input.post_status
            ≡ true)
        × (not (allowed_post_status input.post_status) || is_truthy input.status_reason ≡ true)
  unfolding validate_lifecycle
  consistent valid = (ground (arith, valid), ground (arith, valid), ground (arith, valid))

  reason_lem : final_status_reason input ≡ (
      if review_approved input.review_status
      then none
      else or_else input.status_reason input.review_reason)
  unfolding final_status_reason
  reason_lem =
      ap (λ reason. if review_approved input.review_status then none else reason)
        (first_of input.status_reason input.review_reason)
    where
      first_of : (a b : Option String) → or_else a (or_else b a) ≡ or_else a b
      first_of none none = refl
      first_of none (some text) = refl
      first_of (some text) b = refl

  -- A call of `modifyPostReviewStatus` that ends well was made by an administrator or by the reviewer of an active review of the
  -- post, for an input that approves the post if it approves the review, rejects or blocks the post if it rejects the
  -- review, and has a reason if it rejects or blocks the post. Afterwards the post, which is there, has the status that the
  -- input gives, and as its reason none if the review is approved, else the status reason, else the review reason;
  -- every other post is as it was. The reviews of the post are suspended, every other review is as
  -- it was, and one review is added: active, of this post and user, with the input's verdict and the review reason, else the status reason.
  pub modify_review_allowed :
      (message : String) (t : ReviewStore)
      → modify_post_review_status db email_of new_id now post_id user_id role input s
        ≡ (ok message, t)
      → ((r : PostReview) × Memᴰ r s.reviews
          × (is_active_of post_id r ≡ true)
          × (same_role role UserRoles.admin || r.reviewed_by_id == user_id ≡ true))
        × (not (review_approved input.review_status) || is_approved input.post_status ≡ true)
        × (not (review_rejected input.review_status) || allowed_post_status input.post_status
            ≡ true)
        × (not (allowed_post_status input.post_status) || is_truthy input.status_reason ≡ true)
        × (any (λ p. nat_eq p.id post_id) s.posts ≡ true)
        × (t.posts
            ≡ update_where
                (λ p. nat_eq p.id post_id)
                (λ p. record p {
                  status = input.post_status;
                  status_reason =
                      if review_approved input.review_status
                      then none
                      else or_else input.status_reason input.review_reason;
                })
                s.posts)
        × (t.reviews
            ≡ update_where
                (λ r. nat_eq r.post_id post_id)
                (λ r. record r { is_active = false })
                s.reviews
              ++ record {
                id = new_id;
                post_id = post_id;
                reviewed_by_id = user_id;
                status = input.review_status;
                is_active = true;
                review_reason = or_else input.review_reason input.status_reason;
                created_at = now;
              }
                ∷ [])
  unfolding modify_post_review_status find_latest_active_by_post new_review is_review_of suspended
  modify_review_allowed message t e = elim (Option-cases (validate_lifecycle input)) [
    | inr (text, invalid) ↦ cc
    | inl valid ↦
        elim (Option-cases
          (db.post_review.find_latest (λ r. r.created_at) (is_active_of post_id) s.reviews)) [
            | inl idle ↦ cc
            | inr (review, found) ↦
                elim (Bool-cases
                  (same_role role UserRoles.admin || review.reviewed_by_id == user_id)) [
                    | inr foreign ↦ cc
                    | inl allowed ↦
                        elim (Option-cases
                          (db.post.find_first (λ p. nat_eq p.id post_id) s.posts)) [
                            | inl missing ↦ cc
                            | inr (post, there) ↦ elim (Option-cases (email_of post.author_id)) [
                              | inl unknown ↦ cc
                              | inr (email, known) ↦
                                  let (listed, is_active) =
                                    db.post_review.find_latest-some (λ r. r.created_at)
                                      (is_active_of post_id) s.reviews found in
                                  let (approves, rejects, explained) = consistent valid in
                                  let (is_there, same) = run_lem db s _ _ _ (
                                    rw
                                      (
                                        valid, found, allowed, there, known,
                                        modify_post_review_status, find_latest_active_by_post,
                                      )
                                      at e) in
                                  (
                                    (review, listed, is_active, allowed),
                                    approves,
                                    rejects,
                                    explained,
                                    is_there,
                                    rw (← reason_lem) (ap (λ w. w.posts) same),
                                    ap (λ w. w.reviews) same,
                                  )
                            ]
                          ]
                  ]
          ]
  ]
