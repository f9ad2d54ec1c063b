-- ===== src/Handoff/Answers.antt =====
-- When `HandoffStore.list` of mcp/gxp_core/handoff_store.py answers.
use Prim.Native.String.{count}
use look_lowcode.Prelude.{
  ℕ, zero, suc, ◌+◌, ◌*◌, ◌≤◌, String, Bool, true, false, Option, none, some, List, [], ◌∷◌, ◌++◌,
  pos, length, ltb, leb, All, Bool-cases, inl, inr, ◌≡◌, refl, sym, ◌∙◌, ap, arith,
}
use mathlib.Core.Path.{subst}
use look_lowcode.Json.{Value, int, str}
use look_lowcode.Texts.Order.{all_distinct}
use look_lowcode.Texts.Later.{later-imp}
use look_lowcode.Outcome.{done, ◌>>=◌}
use look_lowcode.Handoff.Host.{Attempt, Host}
use look_lowcode.Handoff.Finite.{canonical_sha256}
use look_lowcode.Handoff.Store.{Files}
use look_lowcode.Handoff.Page.{
  Page, Lookup, Progress, Found, unreadable, other, candidate, look, summary_size, is_empty,
  counted, taken, carry_on, scan, first_names, paths_after, page_from, file_names, wanted_text,
  scope_text, cursor_id, list_page, with_earlier, after_page, all_pages, newest_first,
  sorted_option, list,
}
use look_lowcode.Handoff.Scan.{matching, stepped}
use look_lowcode.Handoff.Turn.{Turn, ends, turns, page_of, page_from-Turn}
use look_lowcode.Handoff.Ids.{every_id, paths_after-later}
use look_lowcode.Handoff.Listing.{
  key, query, Stands, joined-Stands, paths_after_turn, paths_after-Ascends, list-matching,
}

module _ (host : Host) (files : Files) (q : Lookup) where
  -- The summary of what was found can be encoded and fits a page.
  abbrev pub Fitting : Found → Type 0
  Fitting (candidate v) = (n : ℕ) × (summary_size host v ≡ done n) × (2 + n ≤ q.max_bytes)
  Fitting _ = Unit

  -- A file that can be looked at.
  abbrev pub Readable : String → Type 0
  Readable name = (what : Found) × (look host files q name ≡ done what) × Fitting what

  abbrev Fresh : Progress → Type 0
  Fresh s = is_empty s.summaries ≡ true → s.used ≡ 2

  abbrev Step : (Attempt (Progress × Bool)) → Type 0
  Step m = (t : Progress) × (stop : Bool) × (m ≡ stepped t stop) × Fresh t

  not_empty : (vs : List Value) (v : Value) → is_empty (vs ++ v ∷ []) ≡ false
  not_empty [] v = refl
  not_empty (w ∷ vs) v = refl

  counted_answers :
      (name : String) (v : Value) (s : Progress) (size : ℕ)
      → 2 + size ≤ q.max_bytes
      → Fresh s
      → Step (counted q name v s size)
  counted_answers name v s size fits fresh = elim (Bool-cases (ltb q.max_bytes (s.used + size))) [
    | inr within ↦ (
      record { summaries = s.summaries ++ v ∷ []; used = s.used + size; last = name },
      leb q.most (length (s.summaries ++ v ∷ [])),
      rw within refl,
      λ e. cc (e, not_empty s.summaries v),
    )
    | inl full ↦ elim (Bool-cases (is_empty s.summaries)) [
      | inl none_yet ↦ absurd (ground (arith, fresh none_yet))
      | inr some_yet ↦ (s, true, rw (full, some_yet) refl, fresh)
    ]
  ]

  taken_answers :
      (name : String) (what : Found) (s : Progress)
      → Fitting what
      → Fresh s
      → Step (taken host q name what s)
  unfolding taken
  taken_answers name unreadable s fits fresh = (record s { last = name }, false, refl, fresh)
  taken_answers name other s fits fresh =
      (record s { last = name }, leb q.most (length s.summaries), refl, fresh)
  taken_answers name (candidate v) s (n, e, fits) fresh =
      let (t, stop, k, g) = counted_answers name v s n fits fresh in
      (t, stop, ap (λ m. m >>= counted q name v s) e ∙ k, g)

  scan_answers :
      (names : List String) (s : Progress)
      → All Readable names
      → Fresh s
      → (t : Progress) × (scan host files q names s ≡ done t)
  unfolding scan
  scan_answers [] s h fresh = (s, refl)
  scan_answers (name ∷ names) s ((what, e, fits), h) fresh =
      let (t, stop, k, g) = taken_answers name what s fits fresh in
      let (u, l) = go t stop (scan_answers names t h g) in (u, rw (e, k) l)
    where
      go :
          (t : Progress) (stop : Bool)
          → ((u : Progress) × (scan host files q names t ≡ done u))
          → (u : Progress) × (carry_on (scan host files q names) (t, stop) ≡ done u)
      go t true rest = (t, refl)
      go t false rest = rest

  first_names-All :
      (n : ℕ) (names : List String) → All Readable names → All Readable (first_names n names)
  first_names-All zero names h = tt
  first_names-All (suc n) [] h = tt
  first_names-All (suc n) (name ∷ names) (p, h) = (p, first_names-All n names h)

  page_from_answers :
      (digest after : String)
      → All Readable (every_id files)
      → (page : Page) × (page_from host files q digest after ≡ done page)
  unfolding page_from
  page_from_answers digest after h =
      let ahead : All Readable (paths_after after files) =
        subst (All Readable) (sym (paths_after-later after files))
          (later-imp Readable after (every_id files) h) in
      let begin : Progress = record { summaries = []; used = 2; last = after } in
      let (t, e) =
        scan_answers (first_names 200 (paths_after after files)) begin
          (first_names-All 200 (paths_after after files) ahead) (λ _. refl) in
      (page_of host files q digest (paths_after after files) t, rw e refl)

module _ (host : Host) (files : Files) (wanted scope digest : String)
    (sizes : (s : String) → count (host.sha256 s) ≡ 64)
    (alone : all_distinct (file_names files) ≡ true)
    (wanted_ok : wanted_text host.runtime (str wanted) ≡ done wanted)
    (scope_ok : scope_text (str scope) ≡ done scope)
    (key_ok : canonical_sha256 host (key wanted scope) ≡ done digest)
    (readable : All (Readable host files (query wanted scope)) (every_id files)) where
  abbrev page_at : Value → Attempt Page
  page_at at =
      list_page host files (str wanted) (str scope) at (int (pos 50)) (int (pos (48 * 1024)))

  list_page_answers :
      (at : Value) (after : String)
      → Stands host files wanted scope at after
      → (page : Page) × (page_at at ≡ done page)
        × Turn host files (query wanted scope) digest (paths_after after files) page
  unfolding list_page
  list_page_answers at after stands =
      let (page, e) = page_from_answers host files (query wanted scope) digest after readable in
      (
        page,
        rw (wanted_ok, scope_ok, key_ok, stands digest key_ok) e,
        page_from-Turn host files (query wanted scope) digest after page
            (paths_after-Ascends host files wanted scope sizes alone after) e,
      )

  all_pages_answers :
      (fuel : ℕ) (at : Value) (after : String)
      → Stands host files wanted scope at after
      → (found : Option (List Value)) × (all_pages host files (str wanted) (str scope) fuel at
          ≡ done found)
  unfolding all_pages
  all_pages_answers zero at after stands = (none, refl)
  all_pages_answers (suc fuel) at after stands =
      let (page, e, turn) = list_page_answers at after stands in
      let (found, k) = go page turn (λ next a later. all_pages_answers fuel next a later) in
      (found, rw e k)
    where
      go :
          (page : Page)
          → Turn host files (query wanted scope) digest (paths_after after files) page
          → ((next : Value) (a : String)
              → Stands host files wanted scope next a
              → (found : Option (List Value)) × (all_pages host files
                    (str wanted)
                    (str scope)
                    fuel
                    next
                  ≡ done found))
          → (found : Option (List Value)) × (after_page
                (all_pages host files (str wanted) (str scope) fuel)
                page
              ≡ done found)
      go page (ends m e) again = (some page.candidates, rw e refl)
      go page (turns before ys a split m e n) again =
          let (left, id) =
            paths_after_turn host files wanted scope sizes alone after a before ys split in
          let (found, k) = again (str page.next_cursor) a (
            joined-Stands host files wanted scope sizes alone digest a page.next_cursor key_ok id
              n) in
          (with_earlier page.candidates found, rw (e, k) refl)

  -- `list` answers with the summaries of all the records that match, the newest first: for a valid
  -- identifier and scope, distinct file names, digests of 64 characters, and files that can be looked at
  -- with summaries that fit a page.
  pub list_answers :
      (vs : List Value) × (matching host files (query wanted scope) (every_id files) ≡ done vs)
      × (list host files (str wanted) (str scope) ≡ done (some (newest_first vs)))
  unfolding list cursor_id
  list_answers =
      let (found, e) = all_pages_answers (suc (length files)) (str "") "" (λ _ _. refl) in
      let listed : list host files (str wanted) (str scope) ≡ done (sorted_option found) =
        rw e refl in
      let (vs, m, same) =
        list-matching host files wanted scope sizes alone (sorted_option found) listed in
      (vs, m, listed ∙ ap done same)
