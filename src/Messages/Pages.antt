-- ===== src/Messages/Pages.antt =====
-- The pages that `getMessages` of modules/message/services/message.service.ts under src answers with.
use mathlib.Core.Option
use trust_post.Common.{
  ◌≡◌, refl, sym, ap, ◌∙◌, subst, ℕ, zero, suc, ◌+◌, ◌≤◌, String, true, Option, none, some, List,
  [], ◌∷◌, map, take, length, length-take, ltb, Memᴰ, All, ◌⊎◌, inl, inr, Bool-cases, Option-cases,
  arith, is_some,
}
use trust_post.Common.Int.{ℤ, pos, negsuc}
use trust_post.Errors.{ok, ok-injective}
use trust_post.Prisma.{IsDescending}
use trust_post.Prisma.Lists.{mem-take}
use trust_post.Files.{Cloud}
use trust_post.Messages.{
  Message, MessageView, MessagePage, MessageStore, MessageDatabase, Dates, is_listed, with_files,
  cursor_after, page_rows, find_messages, find_chat_member,
}
use trust_post.Messages.Service.{MessageCache, safe_limit, cursor_date, get_messages}
use trust_post.Prisma.Slices.{
  slice_lem, more_lem, last, last-some, take-IsDescending, first_or_later, all_mem,
}

-- A page of a chat's messages before a time: no more than the limit, newest first, each a message of the
-- chat that is not deleted; any other such message is no newer than those on the page, which
-- then says that there are more.
pub record IsPage {F C : Type 0} (db : MessageDatabase F C) (s : MessageStore F C) (chat : String)
    (date : Option ℕ) (limit : ℕ) (page : MessagePage) : Type 0 where
  pub size : length page.entries ≤ limit
  pub sound :
      All (λ v. (is_listed chat date v.message ≡ true) × Memᴰ v.message s.messages) page.entries
  pub newest_first : IsDescending (λ v. v.message.created_at) page.entries
  pub complete :
      (m : Message)
      → Memᴰ m s.messages
      → is_listed chat date m ≡ true
      → Memᴰ (with_files db s m) page.entries
        ⊎ ((page.has_more ≡ true) × All (λ v. m.created_at ≤ v.message.created_at) page.entries)

module _ {F C : Type 0} (db : MessageDatabase F C) (dates : Dates) (s : MessageStore F C) where
  -- The messages of the chat before the time, newest first.
  abbrev listed : String → Option ℕ → List Message
  listed chat date = db.message.find_sorted (λ m. m.created_at) (is_listed chat date) s.messages

  entries_of : (rows : List Message) → List MessageView
  entries_of rows = map (with_files db s) rows

  length-views : (rows : List Message) → length (map (with_files db s) rows) ≡ length rows
  length-views [] = refl
  length-views (r ∷ rows) = ap suc (length-views rows)

  views-All :
      (P : Message → Type 0) (rows : List Message)
      → All P rows
      → All (λ (v : MessageView). P v.message) (map (with_files db s) rows)
  unfolding with_files
  views-All P [] h = tt
  views-All P (r ∷ rows) (x, h) = (x, views-All P rows h)

  views-IsDescending :
      (rows : List Message)
      → IsDescending (λ m. m.created_at) rows
      → IsDescending (λ (v : MessageView). v.message.created_at) (map (with_files db s) rows)
  unfolding with_files
  views-IsDescending [] h = tt
  views-IsDescending (r ∷ rows) (least, h) =
      (views-All (λ q. q.created_at ≤ r.created_at) rows least, views-IsDescending rows h)

  views-mem :
      (rows : List Message) (m : Message)
      → Memᴰ m rows
      → Memᴰ (with_files db s m) (map (with_files db s) rows)
  views-mem [] m h = elim h [ ]
  views-mem (r ∷ rows) m (Memᴰ.head e) = Memᴰ.head (ap (with_files db s) e)
  views-mem (r ∷ rows) m (Memᴰ.tail h) = Memᴰ.tail (views-mem rows m h)

  page_of : String → Option ℕ → ℕ → Option String → MessagePage
  page_of chat date limit next = record {
    entries = map (with_files db s) (take limit (listed chat date));
    next_cursor = next;
    has_more = ltb limit (length (listed chat date));
  }

  page_of-IsPage :
      (chat : String) (date : Option ℕ) (limit : ℕ) (next : Option String)
      → IsPage db s chat date limit (page_of chat date limit next)
  unfolding page_of
  page_of-IsPage chat date limit next =
      let rows = listed chat date in
      let sorted =
        db.message.find_sorted-IsDescending (λ m. m.created_at) (is_listed chat date) s.messages in
      record {
        size = omega (arith, length-views (take limit rows), length-take limit rows);
        sound =
            views-All (λ m. (is_listed chat date m ≡ true) × Memᴰ m s.messages) (take limit rows)
              (all_mem _ (take limit rows) (λ m h.
                let (there, fits) =
                  db.message.find_sorted-mem (λ q. q.created_at) (is_listed chat date) s.messages
                    (mem-take limit rows h) in
                (fits, there)));
        newest_first =
            views-IsDescending (take limit rows)
              (take-IsDescending (λ m. m.created_at) limit rows sorted);
        complete = λ m there fits.
            elim (first_or_later (λ q. q.created_at) limit rows m sorted
              (db.message.mem-find_sorted (λ q. q.created_at) (is_listed chat date) s.messages there
                fits)) [
                  | inl early ↦ inl (views-mem (take limit rows) m early)
                  | inr (more, later) ↦
                      inr
                        (more, views-All (λ q. m.created_at ≤ q.created_at) (take limit rows) later)
                ];
      }

  -- The time of the last entry is read only where there is one.
  cursor-found :
      (limit : ℕ) (rows : List Message)
      → 1 ≤ limit
      → (next : Option String) × (cursor_after dates.to_iso_string
            (ltb limit (length rows))
            (take limit rows)
          ≡ ok next)
  cursor-found zero rows h = absurd (omega arith)
  cursor-found (suc limit) [] h = (none, ground arith)
  cursor-found (suc limit) (r ∷ rows) h = elim (Bool-cases (ltb (suc limit) (length (r ∷ rows)))) [
    | inr fewer ↦ (none, rw fewer refl)
    | inl more ↦
        let (q, found) = last-some r (take limit rows) in
        (some (dates.to_iso_string q.created_at), rw (more, found) refl)
  ]

  find_messages-page :
      (chat : String) (date : Option ℕ) (limit : ℕ)
      → 1 ≤ limit
      → (next : Option String) × (cursor_after dates.to_iso_string
            (ltb limit (length (listed chat date)))
            (take limit (listed chat date))
          ≡ ok next)
        × (find_messages db dates.to_iso_string chat date limit s
            ≡ ok (page_of chat date limit next))
  unfolding find_messages page_rows page_of
  find_messages-page chat date limit positive =
      let rows = listed chat date in
      let (next, found) = cursor-found limit rows positive in
      let plus : limit + 1 ≡ suc limit = omega arith in
      (next, found, rw (plus, slice_lem limit rows, more_lem limit rows, found) refl)

  safe_limit_bounds : (limit : Option ℤ) → (1 ≤ safe_limit limit) × (safe_limit limit ≤ 50)
  safe_limit_bounds none = (omega arith, omega arith)
  safe_limit_bounds (some (pos n)) = (ground arith, ground arith)
  safe_limit_bounds (some (negsuc n)) = (omega arith, omega arith)

  -- Where the cache holds no page, a member's call with a cursor that is empty or a date always answers, with a
  -- page of at most 50 messages: the newest messages of the chat, before the cursor's time if there
  -- is one, that are not deleted, newest first. A message of that kind that is not on the page is
  -- no newer than any on it, and the page then says that there are more.
  pub get_messages-IsPage :
      (cloud : Cloud F) (service_name : String) (cache : MessageCache C) (chat user : String)
      (cursor : Option String) (limit : Option ℤ) (date : Option ℕ)
      → cache.read_page chat user cursor (safe_limit limit) s.cache ≡ none
      → is_some (find_chat_member db chat user s) ≡ true
      → cursor_date dates cursor ≡ ok date
      → (page : MessagePage) × ((get_messages db cloud service_name cache dates chat user cursor
            limit s).0
          ≡ ok (record { page = page; limit = safe_limit limit }))
        × (length page.entries ≤ 50)
        × IsPage db s chat date (safe_limit limit) page
  unfolding get_messages
  get_messages-IsPage cloud service_name cache chat user cursor limit date miss there valid =
      let (positive, bounded) = safe_limit_bounds limit in
      let (next, stamp, found) = find_messages-page chat date (safe_limit limit) positive in
      let page = page_of chat date (safe_limit limit) next in
      let is_page = page_of-IsPage chat date (safe_limit limit) next in
      (
        page,
        rw (get_messages, miss, there, valid, found) refl,
        (let size = is_page.size in omega arith),
        is_page,
      )

  last-views :
      (rows : List Message) {m : Message}
      → last rows ≡ some m
      → last (map (with_files db s) rows) ≡ some (with_files db s m)
  last-views [] e = absurd (ground (arith, e))
  last-views (r ∷ []) e = ap (λ (o : Option Message). Option.map (with_files db s) o) e
  last-views (r ∷ q ∷ rows) e = last-views (q ∷ rows) e

  cursor-last :
      (limit : ℕ) (rows : List Message) (next : Option String)
      → ltb limit (length rows) ≡ true
      → cursor_after dates.to_iso_string true (take limit rows) ≡ ok next
      → (m : Message) × (last (take limit rows) ≡ some m)
        × (next ≡ some (dates.to_iso_string m.created_at))
  cursor-last limit rows next more e = elim (Option-cases (last (take limit rows))) [
    | inl empty ↦ absurd (ground (arith, rw empty at e))
    | inr (m, found) ↦ (m, found, ground (arith, rw found at e))
  ]

  stamped :
      (time : ℕ) (next : Option String)
      → next ≡ some (dates.to_iso_string time)
      → cursor_date dates next ≡ ok (some time)
  unfolding cursor_date
  stamped time next e =
      ap (cursor_date dates) e
      ∙ rw (dates.to_iso_string_nonempty time, dates.parse_date-to_iso_string time) refl

  -- Where a page for a limit of at least one says that there are more, its cursor, given back to
  -- getMessages, is read as the time of the page's last message.
  pub next_cursor-cursor_date :
      (chat : String) (date : Option ℕ) (limit : ℕ) (page : MessagePage)
      → 1 ≤ limit
      → find_messages db dates.to_iso_string chat date limit s ≡ ok page
      → page.has_more ≡ true
      → (v : MessageView) × (last page.entries ≡ some v)
        × (cursor_date dates page.next_cursor ≡ ok (some v.message.created_at))
  unfolding cursor_date with_files
  next_cursor-cursor_date chat date limit page positive e more =
      let rows = listed chat date in
      let (next, found, answer) = find_messages-page chat date limit positive in
      let same : page_of chat date limit next ≡ page = ok-injective (sym answer ∙ e) in
      let many : ltb limit (length rows) ≡ true =
        unfold page_of in (ap (λ (p : MessagePage). p.has_more) same ∙ more) in
      let (m, at_end, stamp) = cursor-last limit rows next many (rw many at found) in
      subst
        (λ (p : MessagePage).
          (v : MessageView) × (last p.entries ≡ some v)
          × (cursor_date dates p.next_cursor ≡ ok (some v.message.created_at)))
        same
        (
          with_files db s m,
          unfold page_of in last-views (take limit rows) at_end,
          unfold page_of in stamped m.created_at next stamp,
        )
