-- ===== src/Reviews/Active.antt =====
-- A post has at most one active review.
use text.Mathlib.Text.{◌==◌}
use trust_post.Common.{
  ℕ, ◌+◌, ◌≤◌, ◌≡◌, refl, sym, ap, subst, ◌∙◌, String, Bool, true, false, ◌||◌, Option, none, some,
  List, [], ◌∷◌, ◌++◌, any, count, nat_eq, nat_eq_iff, if◌then◌else◌, Bool-cases, Option-cases, inl,
  inr, arith,
}
use trust_post.Errors.{Failure, prisma, Result, ok, err}
use trust_post.Actions.{proceed, proceed-pure-state, pure}
use trust_post.Prisma.{update_where, run-cases}
use trust_post.Roles.{UserRoles, same_role}
use trust_post.Reviews.{
  PostReview, ReviewedPost, ReviewStore, ReviewDatabase, PostLifecycleStatus, is_review_of,
  is_active_of, suspended, review_body, suspend_previous_review, add_post_review, update_status,
  assign_reviewer, validate_lifecycle, find_latest_active_by_post, modify_post_review_status,
}

abbrev pub active : ℕ → List PostReview → ℕ
active post rows = count (is_active_of post) rows

count-snoc :
    (p : PostReview → Bool) (rows : List PostReview) (r : PostReview)
    → count p (rows ++ r ∷ []) ≡ count p rows + (if p r then 1 else 0)
count-snoc p [] r = omega arith
count-snoc p (q ∷ rows) r = omega (arith, count-snoc p rows r)

active-suspended :
    (post : ℕ) (rows : List PostReview)
    → active post (update_where (is_review_of post) suspended rows) ≡ 0
unfolding is_review_of is_active_of suspended
active-suspended post [] = refl
active-suspended post (r ∷ rows) = elim (Bool-cases (nat_eq r.post_id post)) [
  | inl own ↦ rw own (rw own (omega (arith, active-suspended post rows)))
  | inr other ↦ rw other (rw other (omega (arith, active-suspended post rows)))
]

active-suspended_le :
    (q post : ℕ) (rows : List PostReview)
    → active q (update_where (is_review_of post) suspended rows) ≤ active q rows
unfolding is_review_of is_active_of suspended
active-suspended_le q post [] = omega arith
active-suspended_le q post (r ∷ rows) = elim (Bool-cases (nat_eq r.post_id post)) [
  | inl own ↦ rw own (ground (arith, active-suspended_le q post rows))
  | inr other ↦ rw other (ground (arith, active-suspended_le q post rows))
]

misses : (q : ℕ) (r : PostReview) → nat_eq r.post_id q ≡ false → is_active_of q r ≡ false
unfolding is_active_of
misses q r other = rw other

-- The review that was made is the only active one of its post; of any other post there are no more than before.
active_after :
    (q : ℕ) (review : PostReview) (rows : List PostReview)
    → active q rows ≤ 1
    → active q (update_where (is_review_of review.post_id) suspended rows ++ review ∷ []) ≤ 1
active_after q review rows few =
    rw
      (count-snoc (is_active_of q) (update_where (is_review_of review.post_id) suspended rows)
        review)
      (elim (Bool-cases (nat_eq review.post_id q)) [
        | inl own ↦
            let same = (nat_eq_iff review.post_id q).0 own in
            let cleared : active q (update_where (is_review_of review.post_id) suspended rows) ≡ 0 =
              subst (λ k. active q (update_where (is_review_of k) suspended rows) ≡ 0) (sym same)
                (active-suspended q rows) in
            omega (arith, cleared, at_most_one (is_active_of q review))
        | inr other ↦
            rw (misses q review other) (omega (arith, active-suspended_le q review.post_id rows))
      ])
  where
    at_most_one : (b : Bool) → (if b then 1 else 0) ≤ 1
    at_most_one b = ground arith

-- No post has two active reviews.
abbrev pub HasOneActive : ReviewStore → Type 0
HasOneActive s = (q : ℕ) → active q s.reviews ≤ 1

-- The store after a review: the post's reviews suspended and the new one added, the post changed.
abbrev pub reviewed : PostReview → (ReviewedPost → ReviewedPost) → ReviewStore → ReviewStore
reviewed review change s = record {
  reviews = update_where (is_review_of review.post_id) suspended s.reviews ++ review ∷ [];
  posts = update_where (λ p. nat_eq p.id review.post_id) change s.posts;
}

module _ (db : ReviewDatabase) (s : ReviewStore) where
  suspended_rows :
      (review : PostReview)
      → db.post_review.create review
          (db.post_review.update_many (is_review_of review.post_id) suspended s.reviews).1
        ≡ update_where (is_review_of review.post_id) suspended s.reviews ++ review ∷ []
  suspended_rows review =
      db.post_review.create_lem _ _
      ∙ ap (λ (x : ℕ × List PostReview). x.1 ++ review ∷ [])
          (db.post_review.update_many_lem (is_review_of review.post_id) suspended s.reviews)

  -- The transaction's function ends well only for a post that is there, and then does the whole change.
  review_body_lem :
      (review : PostReview) (change : ReviewedPost → ReviewedPost) (u : Unit {0}) (t : ReviewStore)
      → review_body db review change s ≡ (ok u, t)
      → (any (λ p. nat_eq p.id review.post_id) s.posts ≡ true) × (t ≡ reviewed review change s)
  unfolding review_body suspend_previous_review add_post_review update_status
  review_body_lem review change u t e =
      elim (Bool-cases (any (λ p. nat_eq p.id review.post_id) s.posts)) [
        | inr missing ↦ absurd (
            refused (
              rw
                (
                  db.post.update_lem (λ p. nat_eq p.id review.post_id) change s.posts,
                  missing,
                  review_body,
                  suspend_previous_review,
                  add_post_review,
                  update_status,
                )
                at e))
        | inl there ↦ (
          there,
          sym (
              ap (λ (x : Result (Unit {0}) × ReviewStore). x.1)
                (rw
                  (
                    db.post.update_lem (λ p. nat_eq p.id review.post_id) change s.posts,
                    there,
                    suspended_rows review,
                    review_body,
                    suspend_previous_review,
                    add_post_review,
                    update_status,
                  )
                  at e)),
        )
      ]
    where
      refused :
          {w : ReviewStore}
          → ◌≡◌ {A = Result (Unit {0}) × ReviewStore} (err (prisma "P2025"), w) (ok u, t)
          → ⊥
      refused e = cc

  review_body-HasOneActive :
      (review : PostReview) (change : ReviewedPost → ReviewedPost) (u : Unit {0}) (t : ReviewStore)
      → HasOneActive s
      → review_body db review change s ≡ (ok u, t)
      → HasOneActive t
  review_body-HasOneActive review change u t few e =
      subst HasOneActive (sym (review_body_lem review change u t e).1)
        (λ q. active_after q review s.reviews (few q))

  -- A transaction of a review that ends well, with the answer after it.
  pub run_lem :
      (review : PostReview) (change : ReviewedPost → ReviewedPost) (text : String)
      {message : String} {t : ReviewStore}
      → proceed {B = String} (db.transaction.run (review_body db review change) s) (λ _. pure text)
        ≡ (ok message, t)
      → (any (λ p. nat_eq p.id review.post_id) s.posts ≡ true) × (t ≡ reviewed review change s)
  run_lem review change text e = elim (run-cases db.transaction (review_body db review change) s) [
    | inr (f, w, failed, ends) ↦ absurd (refused (rw ends at e))
    | inl (u, w, done, ends) ↦
        let (there, same) = review_body_lem review change u w done in
        (there, sym (ap (λ (x : Result String × ReviewStore). x.1) (rw ends at e)) ∙ same)
  ]
    where
      refused :
          {f : Failure} {v w : ReviewStore} {m : String}
          → ◌≡◌ {A = Result String × ReviewStore} (err f, v) (ok m, w)
          → ⊥
      refused e = cc

  -- The transaction of a review, and the answer after it.
  run_keeps :
      (review : PostReview) (change : ReviewedPost → ReviewedPost) (message : String)
      → HasOneActive s
      → HasOneActive
          (proceed {B = String}
            (db.transaction.run (review_body db review change) s)
            (λ _. pure message)).1
  run_keeps review change message few =
      subst HasOneActive
        (sym (proceed-pure-state (db.transaction.run (review_body db review change) s) message))
        (elim (run-cases db.transaction (review_body db review change) s) [
          | inl (u, t, e, ends) ↦ rw ends (review_body-HasOneActive review change u t few e)
          | inr (f, t, e, ends) ↦ rw ends few
        ])

  -- If no post has two active reviews, so it is after every call of `assignReviewer`.
  pub assign_reviewer-HasOneActive :
      (new_id now post_id : ℕ) (chosen : Option String)
      → HasOneActive s
      → HasOneActive (assign_reviewer db new_id now post_id chosen s).1
  unfolding assign_reviewer
  assign_reviewer-HasOneActive new_id now post_id none few = few
  assign_reviewer-HasOneActive new_id now post_id (some reviewer) few = run_keeps _ _ _ few

  module _ (email_of : String → Option String) (new_id now post_id : ℕ) (user_id : String)
      (role : UserRoles) (input : PostLifecycleStatus) where
    -- If no post has two active reviews, so it is after every call of `modifyPostReviewStatus`, whatever it answers.
    pub modify_review-HasOneActive :
        HasOneActive s
        → HasOneActive
            (modify_post_review_status db email_of new_id now post_id user_id role input s).1
    unfolding modify_post_review_status
    modify_review-HasOneActive few = elim (Option-cases (validate_lifecycle input)) [
      | inr (message, invalid) ↦ rw invalid few
      | inl valid ↦ elim (Option-cases (find_latest_active_by_post db post_id s)) [
        | inl idle ↦ rw (valid, idle) few
        | inr (review, found) ↦
            elim (Bool-cases (same_role role UserRoles.admin || review.reviewed_by_id == user_id)) [
              | inr foreign ↦ rw (valid, found, foreign) few
              | inl allowed ↦
                  elim (Option-cases (db.post.find_first (λ p. nat_eq p.id post_id) s.posts)) [
                    | inl missing ↦ rw (valid, found, allowed, missing) few
                    | inr (post, there) ↦ elim (Option-cases (email_of post.author_id)) [
                      | inl unknown ↦ rw (valid, found, allowed, there, unknown) few
                      | inr (email, known) ↦
                          rw (valid, found, allowed, there, known) (run_keeps _ _ _ few)
                    ]
                  ]
            ]
      ]
    ]
