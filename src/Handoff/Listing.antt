-- ===== src/Handoff/Listing.antt =====
-- `HandoffStore.list` (mcp/gxp_core/handoff_store.py) over all its pages.
use look_lowcode.Prelude.{
  ℕ, zero, suc, ◌*◌, ◌≤◌, String, true, Option, some, List, [], ◌∷◌, ◌++◌, pos, length,
  length-append, All, ◌≡◌, refl, sym, ◌∙◌, ap, arith,
}
use mathlib.Core.List.{append_assoc}
use mathlib.Core.Path.{subst}
use Prim.Native.String.{count}
use look_lowcode.Json.{Value, int, str, obj}
use look_lowcode.Texts.{precedes}
use look_lowcode.Texts.Order.{Ascends, later, later_split, All-right, all_distinct}
use look_lowcode.Texts.Later.{later-All, later-later, later-Ascends, later-imp, length-sort_texts}
use look_lowcode.Outcome.{done, bind-eq_done, bind_known, require_known, done_inj}
use look_lowcode.Handoff.Host.{Host, is_id, identifier, environment}
use look_lowcode.Handoff.Finite.{canonical_bytes, canonical_sha256}
use look_lowcode.Handoff.Snapshots.{fields}
use look_lowcode.Handoff.Store.{Files}
use look_lowcode.Handoff.Page.{
  Page, Lookup, look, file_names, paths_after, page_from, cursor_id, joined, list_page, wanted_text,
  scope_text, after_page, with_earlier, sorted_option, all_pages, newest_first, list,
}
use look_lowcode.Handoff.Ids.{
  every_id, every_id-is_id, every_id-Ascends, paths_after-later, paths_after_start, length-id_names,
  id_names,
}
use look_lowcode.Handoff.Scan.{matching, summaries_of}
use look_lowcode.Handoff.Turn.{Turn, ends, turns, page_from-Turn}
use look_lowcode.Handoff.Cursor.{cursor_id-joined}

-- The text that a listing's cursors are bound to.
abbrev pub key : String → String → Value
key wanted scope = obj (fields (("identifier", str wanted) ∷ ("environment", str scope) ∷ []))

abbrev pub query : String → String → Lookup
query wanted scope = record { wanted = wanted; scope = scope; most = 50; max_bytes = 48 * 1024 }

canonical_sha256-count :
    (host : Host) (v : Value) (digest : String)
    → ((s : String) → count (host.sha256 s) ≡ 64)
    → canonical_sha256 host v ≡ done digest
    → count digest ≡ 64
unfolding canonical_sha256
canonical_sha256-count host v digest size h =
    let (payload, _, k) = bind-eq_done (canonical_bytes host v) _ h in
    ap count (sym (done_inj (host.sha256 payload) digest k)) ∙ size payload

module _ (host : Host) (files : Files) (wanted scope : String) where
  matching-append :
      (q : Lookup) (xs ys : List String) (vs ws : List Value)
      → matching host files q xs ≡ done vs
      → matching host files q ys ≡ done ws
      → matching host files q (xs ++ ys) ≡ done (vs ++ ws)
  unfolding matching
  matching-append q [] ys vs ws h k = k ∙ ap (λ us. done (us ++ ws)) (done_inj [] vs h)
  matching-append q (x ∷ xs) ys vs ws h k =
      let (what, looked, h') = bind-eq_done (look host files q x) _ h in
      let (us, e, h'') = bind-eq_done (matching host files q xs) _ h' in
      rw (looked, matching-append q xs ys us ws e k)
        (ap done (sym (append_assoc (summaries_of what) us ws))
          ∙ ap (λ zs. done (zs ++ ws)) (done_inj (summaries_of what ++ us) vs h''))

  list_page_parts :
      (at : Value) (page : Page)
      → list_page host files (str wanted) (str scope) at (int (pos 50)) (int (pos (48 * 1024)))
        ≡ done page
      → (digest : String) × (after : String) × (canonical_sha256 host (key wanted scope)
          ≡ done digest)
        × (cursor_id digest at ≡ done after)
        × (page_from host files (query wanted scope) digest after ≡ done page)
  unfolding list_page
  list_page_parts at page h =
      let h1 =
        bind_known (wanted_text host.runtime (str wanted)) _ wanted
          (require_known _ identifier wanted) h in
      let h2 = bind_known (scope_text (str scope)) _ scope (require_known _ environment scope) h1 in
      let (digest, g, h3) = bind-eq_done (canonical_sha256 host (key wanted scope)) _ h2 in
      let (after, c, h4) = bind-eq_done (cursor_id digest at) _ h3 in (digest, after, g, c, h4)

  -- A cursor that stands after a path.
  abbrev pub Stands : Value → String → Type 0
  Stands at after =
      (digest : String)
      → canonical_sha256 host (key wanted scope) ≡ done digest
      → cursor_id digest at ≡ done after

  abbrev Listed : List String → Option (List Value) → Type 0
  Listed names found =
      (vs : List Value) × (matching host files (query wanted scope) names ≡ done vs)
      × (found ≡ some vs)

  module _ (sizes : (s : String) → count (host.sha256 s) ≡ 64)
      (alone : all_distinct (file_names files) ≡ true) where
    pub paths_after-Ascends : (after : String) → Ascends (paths_after after files)
    paths_after-Ascends after =
        subst Ascends (sym (paths_after-later after files))
          (later-Ascends after (every_id files) (every_id-Ascends files alone))

    -- What a page leaves for the next one is what is after the path its cursor is made at.
    pub paths_after_turn :
        (after a : String) (before ys : List String)
        → paths_after after files ≡ before ++ a ∷ ys
        → (paths_after a files ≡ ys) × (is_id a ≡ true)
    paths_after_turn after a before ys e =
        let all = every_id files in
        let e' : later after all ≡ before ++ a ∷ ys = sym (paths_after-later after files) ∙ e in
        let behind : precedes after a ≡ true =
          (All-right (λ x. precedes after x ≡ true) before (a ∷ ys)
            (subst (All (λ x. precedes after x ≡ true)) e' (later-All after all))).0 in
        (
          paths_after-later a files
              ∙ sym (later-later after a all behind)
              ∙ ap (later a) e'
              ∙ later_split before a ys (subst Ascends e (paths_after-Ascends after)),
          (All-right (λ x. is_id x ≡ true) before (a ∷ ys)
              (subst (All (λ x. is_id x ≡ true)) e'
                (later-imp (λ x. is_id x ≡ true) after all (every_id-is_id files)))).0,
        )

    -- A cursor made at a path stands after it.
    pub joined-Stands :
        (digest a cursor_text : String)
        → canonical_sha256 host (key wanted scope) ≡ done digest
        → is_id a ≡ true
        → cursor_text ≡ joined a digest
        → Stands (str cursor_text) a
    joined-Stands digest a cursor_text g id e d g' =
        ap (λ t. cursor_id d (str t)) (e ∙ ap (joined a) (done_inj digest d (sym g ∙ g')))
        ∙ cursor_id-joined a d id (canonical_sha256-count host _ d sizes g')

    after_page-Listed :
        (fuel : ℕ) (after digest : String) (page : Page) (found : Option (List Value))
        → length (paths_after after files) ≤ fuel
        → canonical_sha256 host (key wanted scope) ≡ done digest
        → Turn host files (query wanted scope) digest (paths_after after files) page
        → ((at : Value) (a : String) (rest : Option (List Value))
            → suc (length (paths_after a files)) ≤ fuel
            → Stands at a
            → all_pages host files (str wanted) (str scope) fuel at ≡ done rest
            → Listed (paths_after a files) rest)
        → after_page (all_pages host files (str wanted) (str scope) fuel) page ≡ done found
        → Listed (paths_after after files) found
    after_page-Listed fuel after digest page found enough g (ends m e) again k =
        (page.candidates, m, sym (done_inj (some page.candidates) found (rw e at k)))
    after_page-Listed fuel after digest page found enough g (turns before ys a split m e n) again
          k =
        let (rest, r, k2) =
          bind-eq_done (all_pages host files (str wanted) (str scope) fuel (str page.next_cursor))
            (λ rest. done (with_earlier page.candidates rest)) (rw e at k) in
        let (left, id) = paths_after_turn after a before ys split in
        let fewer : suc (length (paths_after a files)) ≤ fuel =
          grind (arith, ap length left, ap length split, length-append before (a ∷ ys)) in
        let (ws, mw, some_ws) =
          again (str page.next_cursor) a rest fewer (joined-Stands digest a page.next_cursor g id n)
            r in
        (
          page.candidates ++ ws,
          ap (matching host files (query wanted scope))
                (split ∙ sym (append_assoc before (a ∷ []) ys))
              ∙ matching-append (query wanted scope) (before ++ a ∷ []) ys page.candidates ws m
                  (ap (matching host files (query wanted scope)) (sym left) ∙ mw),
          sym (done_inj (with_earlier page.candidates rest) found k2)
              ∙ ap (with_earlier page.candidates) some_ws,
        )

    all_pages-Listed :
        (fuel : ℕ) (at : Value) (after : String) (found : Option (List Value))
        → suc (length (paths_after after files)) ≤ fuel
        → Stands at after
        → all_pages host files (str wanted) (str scope) fuel at ≡ done found
        → Listed (paths_after after files) found
    unfolding all_pages
    all_pages-Listed zero at after found enough stands h = absurd (ground arith)
    all_pages-Listed (suc fuel) at after found enough stands h =
        let (page, p, k) =
          bind-eq_done
            (list_page host files (str wanted) (str scope) at (int (pos 50))
              (int (pos (48 * 1024))))
            _ h in
        let (digest, from, g, c, f) = list_page_parts at page p in
        let here : from ≡ after = done_inj from after (sym c ∙ stands digest g) in
        let f' : page_from host files (query wanted scope) digest after ≡ done page =
          ap (page_from host files (query wanted scope) digest) (sym here) ∙ f in
        after_page-Listed fuel after digest page found (ground arith) g
          (page_from-Turn host files (query wanted scope) digest after page
            (paths_after-Ascends after) f')
          (λ at' a rest. all_pages-Listed fuel at' a rest) k

    -- For distinct file names and digests of 64 characters: when `list` answers, its loop over the pages
    -- has ended within one page more than there are files, and the answer is the summaries of all the
    -- readable records of the store that match, each once, the newest first.
    pub list-matching :
        (found : Option (List Value))
        → list host files (str wanted) (str scope) ≡ done found
        → (vs : List Value) × (matching host files (query wanted scope) (every_id files) ≡ done vs)
          × (found ≡ some (newest_first vs))
    unfolding list cursor_id
    list-matching found h =
        let (all, p, k) =
          bind-eq_done (all_pages host files (str wanted) (str scope) (suc (length files)) (str ""))
            _ h in
        let (vs, m, e) =
          all_pages-Listed (suc (length files)) (str "") "" all start_fuel (λ _ _. refl) p in
        (
          vs,
          ap (matching host files (query wanted scope)) (sym (paths_after_start files)) ∙ m,
          sym (done_inj (sorted_option all) found k) ∙ ap sorted_option e,
        )
      where
        start_fuel : suc (length (paths_after "" files)) ≤ suc (length files)
        start_fuel = grind (
          arith,
          ap length (paths_after_start files),
          length-sort_texts (id_names (file_names files)),
          length-id_names files,
        )
