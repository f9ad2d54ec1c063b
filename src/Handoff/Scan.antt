-- ===== src/Handoff/Scan.antt =====
-- What the loop of a page reads (mcp/gxp_core/handoff_store.py, `list_page`).
use look_lowcode.Prelude.{
  ℕ, ◌+◌, String, Bool, true, false, not, ◌||◌, List, [], ◌∷◌, ◌++◌, ltb, Bool-cases, inl, inr, ◌≡◌,
  refl, sym, ◌∙◌, ap, arith,
}
use mathlib.Core.List.{append_assoc, append-nil}
use look_lowcode.Json.{Value}
use look_lowcode.Texts.Later.{last_of}
use look_lowcode.Outcome.{done, ◌>>=◌, bind-eq_done}
use look_lowcode.Handoff.Host.{Attempt, Host}
use look_lowcode.Handoff.Store.{Files}
use look_lowcode.Handoff.Page.{
  Lookup, Progress, Found, unreadable, other, candidate, look, summary_size, counted, taken,
  carry_on, scan, is_empty,
}

abbrev pub summaries_of : Found → List Value
summaries_of (candidate v) = v ∷ []
summaries_of _ = []

-- The summaries of the readable records among the paths that match the lookup, in their order.
unfoldable pub matching : Host → Files → Lookup → List String → Attempt (List Value)
matching host files q [] = done []
matching host files q (name ∷ names) = do
  what ← look host files q name
  rest ← matching host files q names
  done (summaries_of what ++ rest)

abbrev pub is_nil : List String → Bool
is_nil [] = true
is_nil (_ ∷ _) = false

-- A step either takes a path, or breaks before it once there are summaries.
data Step (s t : Progress) (name : String) (what : Found) (stop : Bool) : Type 0 where
  took : t.summaries ≡ s.summaries ++ summaries_of what → t.last ≡ name → Step s t name what stop
  broke : stop ≡ true → t ≡ s → is_empty s.summaries ≡ false → Step s t name what stop

abbrev pub stepped : Progress → Bool → Attempt (Progress × Bool)
stepped s stop = done (s, stop)

pub pair_parts : (s t : Progress) (a b : Bool) → stepped s a ≡ stepped t b → (s ≡ t) × (a ≡ b)
pair_parts s t a b h = (cc, cc)

module _ (host : Host) (files : Files) (q : Lookup) where
  counted-Step :
      (name : String) (v : Value) (s t : Progress) (size : ℕ) (stop : Bool)
      → counted q name v s size ≡ done (t, stop)
      → Step s t name (candidate v) stop
  counted-Step name v s t size stop h = elim (Bool-cases (ltb q.max_bytes (s.used + size))) [
    | inr fits ↦
        let (e, _) = pair_parts _ t _ stop (rw fits at h) in
        took (ap (λ p. p.summaries) (sym e)) (ap (λ p. p.last) (sym e))
    | inl full ↦ elim (Bool-cases (is_empty s.summaries)) [
      | inl none_yet ↦ absurd (cc (rw (full, none_yet) at h))
      | inr some_yet ↦
          let (e, b) = pair_parts s t true stop (rw (full, some_yet) at h) in
          broke (sym b) (sym e) some_yet
    ]
  ]

  taken-Step :
      (name : String) (what : Found) (s t : Progress) (stop : Bool)
      → taken host q name what s ≡ done (t, stop)
      → Step s t name what stop
  unfolding taken
  taken-Step name unreadable s t stop h =
      let (e, _) = pair_parts _ t _ stop h in
      took (sym (ap (λ p. p.summaries) e) ∙ sym (append-nil s.summaries)) (sym (ap (λ p. p.last) e))
  taken-Step name other s t stop h =
      let (e, _) = pair_parts _ t _ stop h in
      took (sym (ap (λ p. p.summaries) e) ∙ sym (append-nil s.summaries)) (sym (ap (λ p. p.last) e))
  taken-Step name (candidate v) s t stop h =
      let (size, _, k) = bind-eq_done (summary_size host v) (counted q name v s) h in
      counted-Step name v s t size stop k

  -- The loop reads `seen` of the paths and leaves `unseen`.
  pub record Covers (names : List String) (s t : Progress) : Type 0 where
    pub seen : List String
    pub unseen : List String
    pub kept : List Value
    pub splits : names ≡ seen ++ unseen
    pub found : matching host files q seen ≡ done kept
    pub summed : t.summaries ≡ s.summaries ++ kept
    pub ended : t.last ≡ last_of s.last seen
    pub moved : (is_nil names || not (is_nil seen) || not (is_empty s.summaries)) ≡ true

  Covers-none :
      (names : List String) (s t : Progress)
      → t ≡ s
      → (is_nil names || not (is_empty s.summaries)) ≡ true
      → Covers names s t
  unfolding matching
  Covers-none names s t e h = record {
    seen = [];
    unseen = names;
    kept = [];
    splits = refl;
    found = refl;
    summed = ap (λ p. p.summaries) e ∙ sym (append-nil s.summaries);
    ended = ap (λ p. p.last) e;
    moved = ground arith;
  }

  matching-cons :
      (name : String) (names : List String) (what : Found) (kept : List Value)
      → look host files q name ≡ done what
      → matching host files q names ≡ done kept
      → matching host files q (name ∷ names) ≡ done (summaries_of what ++ kept)
  unfolding matching
  matching-cons name names what kept h k = rw (h, k) refl

  Covers-cons :
      (name : String) (names : List String) (what : Found) (s t u : Progress)
      → look host files q name ≡ done what
      → t.summaries ≡ s.summaries ++ summaries_of what
      → t.last ≡ name
      → Covers names t u
      → Covers (name ∷ names) s u
  Covers-cons name names what s t u h e l c = record {
    seen = name ∷ c.seen;
    unseen = c.unseen;
    kept = summaries_of what ++ c.kept;
    splits = ap (λ xs. name ∷ xs) c.splits;
    found = matching-cons name c.seen what c.kept h c.found;
    summed =
        c.summed ∙ ap (λ vs. vs ++ c.kept) e ∙ append_assoc s.summaries (summaries_of what) c.kept;
    ended = c.ended ∙ ap (λ x. last_of x c.seen) l;
    moved = refl;
  }

  Covers-one :
      (name : String) (names : List String) (what : Found) (s t : Progress)
      → look host files q name ≡ done what
      → t.summaries ≡ s.summaries ++ summaries_of what
      → t.last ≡ name
      → Covers (name ∷ names) s t
  unfolding matching
  Covers-one name names what s t h e l = record {
    seen = name ∷ [];
    unseen = names;
    kept = summaries_of what ++ [];
    splits = refl;
    found = matching-cons name [] what [] h refl;
    summed = e ∙ ap (λ vs. s.summaries ++ vs) (sym (append-nil (summaries_of what)));
    ended = l;
    moved = refl;
  }

  pub scan-Covers :
      (names : List String) (s t : Progress) → scan host files q names s ≡ done t → Covers names s t
  unfolding scan
  scan-Covers [] s t h = Covers-none [] s t (cc) refl
  scan-Covers (name ∷ names) s t h =
      let (what, looked, h') = bind-eq_done (look host files q name) _ h in
      let ((u, stop), step, k) = bind-eq_done (taken host q name what s) _ h' in
      go what u stop looked (taken-Step name what s u stop step) k (λ v e. scan-Covers names v t e)
    where
      go :
          (what : Found) (u : Progress) (stop : Bool)
          → look host files q name ≡ done what
          → Step s u name what stop
          → carry_on (scan host files q names) (u, stop) ≡ done t
          → ((v : Progress) → scan host files q names v ≡ done t → Covers names v t)
          → Covers (name ∷ names) s t
      go what u true looked (took e l) k again =
          let same : t ≡ u = cc in
          Covers-one name names what s t looked (ap (λ v. v.summaries) same ∙ e)
            (ap (λ v. v.last) same ∙ l)
      go what u false looked (took e l) k again =
          Covers-cons name names what s u t looked e l (again u k)
      go what u true looked (broke b e some_yet) k again =
          let same : t ≡ u = cc in Covers-none (name ∷ names) s t (same ∙ e) (rw some_yet refl)
      go what u false looked (broke b e some_yet) k again = cc
