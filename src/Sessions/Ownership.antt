-- ===== src/Sessions/Ownership.antt =====
-- Which sessions the operations leave alone.
use text.Mathlib.Text.{◌==◌}
use trust_post.Common.{
  ℕ, ◌-◌, ◌≡◌, ◌≢◌, refl, sym, ap, subst, ◌∙◌, String, Bool, true, false, not, some, List, [], ◌∷◌,
  map, Memᴰ, All, All-mem, length, take, filter, leb, Bool-cases, Option-cases, inl, inr, ◌⊎◌,
  eq_iff,
}
use trust_post.Prisma.{Table}
use trust_post.Prisma.Lists.{filter-mem, mem-filter, mem-take}
use trust_post.Sessions.{
  Session, Sessions, is_of_user, is_session, is_in, last_active, insert_by, sort_by, max_devices,
  find_by_user_id, ids_to_delete, delete_by_ids, prepare_for_login, delete_by_session_id,
}

-- No two sessions have one id, as the primary key has it.
abbrev pub HasUniqueSessions : Sessions → Type 0
HasUniqueSessions [] = Unit
HasUniqueSessions (s ∷ ss) = All (λ t. t.id ≢ s.id) ss × HasUniqueSessions ss

same_session :
    (rows : Sessions) {a b : Session}
    → HasUniqueSessions rows
    → Memᴰ a rows
    → Memᴰ b rows
    → a.id ≡ b.id
    → a ≡ b
same_session [] u m n e = elim m [ ]
same_session (s ∷ ss) (fresh, u) (Memᴰ.head e) (Memᴰ.head e') same = e ∙ sym e'
same_session (s ∷ ss) {b} (fresh, u) (Memᴰ.head e) (Memᴰ.tail n) same =
    absurd (All-mem (λ t. t.id ≢ s.id) ss fresh n (sym same ∙ ap (λ (s : Session). s.id) e))
same_session (s ∷ ss) (fresh, u) (Memᴰ.tail m) (Memᴰ.head e') same =
    absurd (All-mem (λ t. t.id ≢ s.id) ss fresh m (same ∙ ap (λ (s : Session). s.id) e'))
same_session (s ∷ ss) (fresh, u) (Memᴰ.tail m) (Memᴰ.tail n) same = same_session ss u m n same

mem-insert_by :
    (key : Session → ℕ) (s : Session) (ss : Sessions) {r : Session}
    → Memᴰ r (insert_by key s ss)
    → (r ≡ s) ⊎ Memᴰ r ss
unfolding insert_by
mem-insert_by key s [] (Memᴰ.head e) = inl e
mem-insert_by key s [] (Memᴰ.tail m) = elim m [ ]
mem-insert_by key s (t ∷ ts) {r} m = elim (Bool-cases (leb (key s) (key t))) [
  | inl le ↦ first (rw le at m)
  | inr gt ↦ later (mem-insert_by key s ts) (rw gt at m)
]
  where
    first : Memᴰ r (s ∷ t ∷ ts) → (r ≡ s) ⊎ Memᴰ r (t ∷ ts)
    first (Memᴰ.head e) = inl e
    first (Memᴰ.tail m) = inr m

    later :
        (Memᴰ r (insert_by key s ts) → (r ≡ s) ⊎ Memᴰ r ts)
        → Memᴰ r (t ∷ insert_by key s ts)
        → (r ≡ s) ⊎ Memᴰ r (t ∷ ts)
    later rest (Memᴰ.head e) = inr (Memᴰ.head e)
    later rest (Memᴰ.tail m) = elim (rest m) [ inl e ↦ inl e | inr n ↦ inr (Memᴰ.tail n) ]

mem-sort_by :
    (key : Session → ℕ) (ss : Sessions) {r : Session} → Memᴰ r (sort_by key ss) → Memᴰ r ss
unfolding sort_by
mem-sort_by key [] m = elim m [ ]
mem-sort_by key (s ∷ ss) m = elim (mem-insert_by key s (sort_by key ss) m) [
  | inl e ↦ Memᴰ.head e
  | inr n ↦ Memᴰ.tail (mem-sort_by key ss n)
]

is_in-map :
    (ss : Sessions) (id : String)
    → is_in (map (λ (s : Session). s.id) ss) id ≡ true
    → (s : Session) × Memᴰ s ss × (s.id ≡ id)
unfolding is_in
is_in-map [] id h = cc
is_in-map (s ∷ ss) id h = elim (Bool-cases (s.id == id)) [
  | inl own ↦ (s, Memᴰ.head refl, (eq_iff s.id id).0 own)
  | inr other ↦ let (t, m, e) = is_in-map ss id (rw other at h) in (t, Memᴰ.tail m, e)
]

module _ (db : Table Session) (rows : Sessions) (unique : HasUniqueSessions rows) (r : Session)
    (listed : Memᴰ r rows) where
  -- A row stays if its id is not in the list.
  spared : (ids : List String) → is_in ids r.id ≡ false → Memᴰ r (delete_by_ids db ids rows).1
  unfolding delete_by_ids
  spared ids absent =
      subst (λ (x : ℕ × Sessions). Memᴰ r x.1) (sym (db.delete_many_lem (λ s. is_in ids s.id) rows))
        (filter-mem (λ s. not (is_in ids s.id)) rows (rw absent) listed)

  chosen :
      (user_id device_id : String)
      → is_in (ids_to_delete db user_id device_id rows) r.id ≡ true
      → (r.user_id ≡ user_id) × (r.device_id ≢ device_id)
  unfolding ids_to_delete find_by_user_id is_of_user
  chosen user_id device_id h =
      let mine = db.find_many (λ s. s.user_id == user_id) rows in
      let elsewhere = filter (λ (s : Session). not (s.device_id == device_id)) mine in
      let (s, m, same) =
        is_in-map (take (length mine - max_devices) (sort_by last_active elsewhere)) r.id h in
      let (found, far) =
        mem-filter (λ (s : Session). not (s.device_id == device_id)) mine
          (mem-sort_by last_active elsewhere
            (mem-take (length mine - max_devices) (sort_by last_active elsewhere) m)) in
      let (stored, own) =
        mem-filter (λ (s : Session). s.user_id == user_id) rows
          (subst (λ (ss : Sessions). Memᴰ s ss) (db.find_many_lem (λ s. s.user_id == user_id) rows)
            found) in
      let itself : s ≡ r = same_session rows unique stored listed same in
      (
        (eq_iff r.user_id user_id).0
            (subst (λ (s : Session). s.user_id == user_id ≡ true) itself own),
        λ e.
            contradiction ((eq_iff r.device_id device_id).1 e)
              (subst (λ (s : Session). not (s.device_id == device_id) ≡ true) itself far),
      )
    where
      contradiction : {b : Bool} → b ≡ true → not b ≡ true → ⊥
      contradiction e f = cc

  -- Where no two sessions have one id, `prepareForLogin` removes no session of another user, and not the session of the device that
  -- logs in.
  pub prepare_for_login-mem :
      (user_id device_id : String)
      → (r.user_id ≢ user_id) ⊎ (r.device_id ≡ device_id)
      → Memᴰ r (prepare_for_login db user_id device_id rows)
  unfolding prepare_for_login
  prepare_for_login-mem user_id device_id other =
      elim (Bool-cases (leb (length (find_by_user_id db user_id rows)) max_devices)) [
        | inl few ↦ rw few listed
        | inr many ↦ rw many (spared (ids_to_delete db user_id device_id rows) absent)
      ]
    where
      absent : is_in (ids_to_delete db user_id device_id rows) r.id ≡ false
      absent = elim (Bool-cases (is_in (ids_to_delete db user_id device_id rows) r.id)) [
        | inr out ↦ out
        | inl in_list ↦
            let (own, far) = chosen user_id device_id in_list in
            elim other [ inl foreign ↦ absurd (foreign own) | inr near ↦ absurd (far near) ]
      ]

  -- Where no two sessions have one id, the deletion of a session by its id leaves the sessions of other users, whatever it
  -- answers.
  pub delete_by_session_id-mem :
      (session_id user_id : String)
      → r.user_id ≢ user_id
      → Memᴰ r (delete_by_session_id db session_id user_id rows).1
  unfolding delete_by_session_id is_session is_in
  delete_by_session_id-mem session_id user_id foreign =
      elim (Option-cases (db.find_first (λ s. s.id == session_id) rows)) [
        | inl missing ↦ rw missing listed
        | inr (session, found) ↦ elim (Bool-cases (session.user_id == user_id)) [
          | inr refused ↦ rw (found, refused) listed
          | inl own ↦ rw (found, own) (spared (session_id ∷ []) (rw (absent session found own)))
        ]
      ]
    where
      absent :
          (session : Session)
          → db.find_first (λ s. s.id == session_id) rows ≡ some session
          → session.user_id == user_id ≡ true
          → session_id == r.id ≡ false
      absent session found own = elim (Bool-cases (session_id == r.id)) [
        | inr other ↦ other
        | inl named ↦
            let (stored, fits) =
              db.find_first-some (λ (s : Session). s.id == session_id) rows found in
            let itself : session ≡ r =
              same_session rows unique stored listed
                ((eq_iff session.id session_id).0 fits ∙ (eq_iff session_id r.id).0 named) in
            absurd (
              foreign (
                sym (ap (λ (s : Session). s.user_id) itself)
                ∙ (eq_iff session.user_id user_id).0 own))
      ]
