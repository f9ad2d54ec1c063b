-- ===== src/Handoff/Turn.antt =====
-- What a page of mcp/gxp_core/handoff_store.py's `list_page` leaves to the next one.
use look_lowcode.Prelude.{
  ℕ, zero, suc, String, true, false, not, ◌||◌, List, [], ◌∷◌, ◌++◌, All, inl, inr, ◌≡◌, refl, sym,
  ◌∙◌, ap, if◌then◌else◌,
}
use mathlib.Core.List.{append_assoc}
use mathlib.Core.Path.{subst}
use look_lowcode.Texts.{precedes}
use look_lowcode.Texts.Order.{Ascends, precedes_irrefl}
use look_lowcode.Texts.Later.{ends_in}
use look_lowcode.Outcome.{done, bind-eq_done, done_inj}
use look_lowcode.Handoff.Host.{Host}
use look_lowcode.Handoff.Store.{Files}
use look_lowcode.Handoff.Page.{
  Page, Lookup, Progress, scan, first_names, more_after, joined, paths_after, page_from,
}
use look_lowcode.Handoff.Scan.{is_nil, matching, Covers, scan-Covers}

pub first_names_split :
    (n : ℕ) (names : List String) → (rest : List String) × (names ≡ first_names n names ++ rest)
first_names_split zero names = (names, refl)
first_names_split (suc n) [] = ([], refl)
first_names_split (suc n) (name ∷ names) =
    let (rest, e) = first_names_split n names in (rest, ap (λ xs. name ∷ xs) e)

first_names_nil :
    (n : ℕ) (names : List String)
    → (is_nil (first_names (suc n) names) || false || false) ≡ true
    → names ≡ []
first_names_nil n [] h = refl
first_names_nil n (name ∷ names) h = cc

more_after-All :
    (a y : String) (ys : List String)
    → All (λ x. precedes a x ≡ true) (y ∷ ys)
    → more_after a (y ∷ ys) ≡ true
more_after-All a y [] (p, h) = p
more_after-All a y (z ∷ zs) (p, h) = more_after-All a z zs h

-- In ascending paths, more are behind one exactly where it is not the last.
more_after_split :
    (a : String) (before ys : List String)
    → Ascends (before ++ a ∷ ys)
    → more_after a (before ++ a ∷ ys) ≡ not (is_nil ys)
more_after_split a [] [] h = precedes_irrefl a
more_after_split a [] (y ∷ ys) (p, h) = more_after-All a y ys p
more_after_split a (b ∷ []) ys (p, h) = more_after_split a [] ys h
more_after_split a (b ∷ c ∷ bs) ys (p, h) = more_after_split a (c ∷ bs) ys h

more_at :
    (names : List String) (s : Progress) (before ys : List String) (a : String)
    → Ascends names
    → names ≡ before ++ a ∷ ys
    → s.last ≡ a
    → more_after s.last names ≡ not (is_nil ys)
more_at names s before ys a up split last =
    ap (more_after s.last) split
    ∙ ap (λ x. more_after x (before ++ a ∷ ys)) last
    ∙ more_after_split a before ys (subst Ascends split up)

regroup :
    (before : List String) (a : String) (unseen rest : List String)
    → ((before ++ a ∷ []) ++ unseen) ++ rest ≡ before ++ a ∷ (unseen ++ rest)
regroup before a unseen rest =
    ap (λ xs. xs ++ rest) (append_assoc before (a ∷ []) unseen)
    ∙ append_assoc before (a ∷ unseen) rest

module _ (host : Host) (files : Files) (q : Lookup) (digest : String) where
  pub data Turn (names : List String) (page : Page) : Type 0 where
    ends :
        matching host files q names ≡ done page.candidates → page.has_more ≡ false → Turn names page
    turns :
        (before ys : List String) (a : String)
        → names ≡ before ++ a ∷ ys
        → matching host files q (before ++ a ∷ []) ≡ done page.candidates
        → page.has_more ≡ true
        → page.next_cursor ≡ joined a digest
        → Turn names page

  abbrev at_start : String → Progress
  at_start after = record { summaries = []; used = 2; last = after }

  abbrev pub page_of : List String → Progress → Page
  page_of names s = record {
    candidates = s.summaries;
    has_more = more_after s.last names;
    next_cursor = if more_after s.last names then joined s.last digest else "";
  }

  Turn-at :
      (names : List String) (s : Progress) (before ys : List String) (a : String)
      → Ascends names
      → names ≡ before ++ a ∷ ys
      → matching host files q (before ++ a ∷ []) ≡ done s.summaries
      → s.last ≡ a
      → Turn names (page_of names s)
  Turn-at names s before [] a up split found last =
      ends (ap (matching host files q) split ∙ found) (more_at names s before [] a up split last)
  Turn-at names s before (y ∷ ys) a up split found last =
      let more = more_at names s before (y ∷ ys) a up split last in
      turns before (y ∷ ys) a split found more (rw more (ap (λ x. joined x digest) last))

  page_of-Turn :
      (names : List String) (after : String) (s : Progress)
      → Ascends names
      → Covers host files q (first_names 200 names) (at_start after) s
      → Turn names (page_of names s)
  page_of-Turn names after s up c =
      let (rest, split) = first_names_split 200 names in
      elim (ends_in after c.seen) [
        | inl e ↦
            let none_left : names ≡ [] = first_names_nil 199 names (
              subst (λ xs. (is_nil (first_names 200 names) || not (is_nil xs) || false) ≡ true) e
                c.moved) in
            ends (ap (matching host files q) (none_left ∙ sym e) ∙ c.found ∙ ap done (sym c.summed))
              (ap (more_after s.last) none_left)
        | inr (before, a, e, l) ↦
            Turn-at names s before (c.unseen ++ rest) a up
              (split
                ∙ ap (λ xs. xs ++ rest) c.splits
                ∙ ap (λ xs. (xs ++ c.unseen) ++ rest) e
                ∙ regroup before a c.unseen rest)
              (ap (matching host files q) (sym e) ∙ c.found ∙ ap done (sym c.summed)) (c.ended ∙ l)
      ]

  pub page_from-Turn :
      (after : String) (page : Page)
      → Ascends (paths_after after files)
      → page_from host files q digest after ≡ done page
      → Turn (paths_after after files) page
  unfolding page_from
  page_from-Turn after page up h =
      let names = paths_after after files in
      let (s, scanned, k) =
        bind-eq_done (scan host files q (first_names 200 names) (at_start after)) _ h in
      subst (λ p. Turn names p) (done_inj (page_of names s) page k)
        (page_of-Turn names after s up (scan-Covers host files q _ _ s scanned))
