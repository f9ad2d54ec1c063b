-- ===== src/Handoff/Budget.antt =====
-- The budget of a page (mcp/gxp_core/handoff_store.py, `list_page`): its summaries as a JSON list.
use Prim.Native.String.{len}
use look_lowcode.Prelude.{
  ℕ, suc, ◌+◌, ◌-◌, ◌≤◌, String, Bool, true, false, List, [], ◌∷◌, ◌++◌, length, length-append, ltb,
  leb, Bool-cases, inl, inr, ◌≡◌, refl, sym, ◌∙◌, ap, arith, if◌then◌else◌,
}
use mathlib.Core.Path.{subst}
use look_lowcode.Json.{Value}
use look_lowcode.Outcome.{done, bind-eq_done, done_inj}
use look_lowcode.Handoff.Host.{Host}
use look_lowcode.Handoff.Finite.{canonical_bytes}
use look_lowcode.Handoff.Clean.{canonical_bytes-eq_done}
use look_lowcode.Handoff.Store.{Files}
use look_lowcode.Handoff.Page.{
  Page, Lookup, Progress, Found, unreadable, other, candidate, look, summary_size, is_empty,
  counted, taken, carry_on, scan, first_names, paths_after, page_from,
}
use look_lowcode.Handoff.Scan.{stepped, pair_parts}

-- The bytes of the values in a JSON list: each with a comma or a bracket behind it.
abbrev pub bytes_of : Host → List Value → ℕ
bytes_of host [] = 0
bytes_of host (v ∷ vs) = len (host.encode v) + 1 + bytes_of host vs

bytes_of-append :
    (host : Host) (vs ws : List Value)
    → bytes_of host (vs ++ ws) ≡ bytes_of host vs + bytes_of host ws
bytes_of-append host [] ws = omega arith
bytes_of-append host (v ∷ vs) ws = grind (arith, bytes_of-append host vs ws)

summary_size-eq_done :
    (host : Host) (v : Value) (n : ℕ) → summary_size host v ≡ done n → len (host.encode v) + 1 ≡ n
summary_size-eq_done host v n h =
    let (payload, e, k) = bind-eq_done (canonical_bytes host v) (λ s. done (len s + 1)) h in
    let (_, _, _, same) = canonical_bytes-eq_done host v payload e in
    ap (λ s. len s + 1) same ∙ done_inj (len payload + 1) n k

module _ (host : Host) (files : Files) (q : Lookup) where
  -- The loop's counter is true, within the budget, and there are at most so many summaries.
  pub record Fits (most : ℕ) (s : Progress) : Type 0 where
    pub true_count : s.used ≡ 2 + bytes_of host s.summaries
    pub within : s.used ≤ q.max_bytes
    pub few : length s.summaries ≤ most

  weaker : (m n : ℕ) (s : Progress) → m ≤ n → Fits m s → Fits n s
  weaker m n s h f = record {
    true_count = f.true_count;
    within = f.within;
    few = omega (arith, f.few);
  }

  moved : (s : Progress) (n : ℕ) (name : String) → Fits n s → Fits n (record s { last = name })
  moved s n name f = record { true_count = f.true_count; within = f.within; few = f.few }

  counted-Fits :
      (name : String) (v : Value) (s t : Progress) (n size : ℕ) (stop : Bool)
      → suc n ≡ q.most
      → Fits n s
      → len (host.encode v) + 1 ≡ size
      → counted q name v s size ≡ stepped t stop
      → Fits (if stop then q.most else n) t
  counted-Fits name v s t n size stop m f e h =
      elim (Bool-cases (ltb q.max_bytes (s.used + size))) [
        | inr fits ↦
            let (same, stops) = pair_parts _ t _ stop (rw fits at h) in
            subst (λ u. Fits (if stop then q.most else n) u) same
              (record {
                true_count =
                    grind (arith, bytes_of-append host s.summaries (v ∷ []), f.true_count, e);
                within = ground arith;
                few = ground (arith, length-append s.summaries (v ∷ []), f.few, stops);
              })
        | inl full ↦ elim (Bool-cases (is_empty s.summaries)) [
          | inl none_yet ↦ absurd (cc (rw (full, none_yet) at h))
          | inr some_yet ↦
              let (same, b) = pair_parts s t true stop (rw (full, some_yet) at h) in
              subst (λ u. Fits (if stop then q.most else n) u) same
                (rw (sym b) (weaker n q.most s (omega (arith, m)) f))
        ]
      ]

  taken-Fits :
      (name : String) (what : Found) (s t : Progress) (n : ℕ) (stop : Bool)
      → suc n ≡ q.most
      → Fits n s
      → taken host q name what s ≡ stepped t stop
      → Fits (if stop then q.most else n) t
  unfolding taken
  taken-Fits name unreadable s t n stop m f h =
      let (same, b) = pair_parts (record s { last = name }) t false stop h in
      subst (λ u. Fits (if stop then q.most else n) u) same (rw (sym b) (moved s n name f))
  taken-Fits name other s t n stop m f h =
      let (same, b) =
        pair_parts (record s { last = name }) t (leb q.most (length s.summaries)) stop h in
      subst (λ u. Fits (if stop then q.most else n) u) same
        (weaker n (if stop then q.most else n) (record s { last = name }) (ground (arith, m))
          (moved s n name f))
  taken-Fits name (candidate v) s t n stop m f h =
      let (size, e, k) = bind-eq_done (summary_size host v) (counted q name v s) h in
      counted-Fits name v s t n size stop m f (summary_size-eq_done host v size e) k

  scan-Fits :
      (names : List String) (s t : Progress) (n : ℕ)
      → suc n ≡ q.most
      → Fits n s
      → scan host files q names s ≡ done t
      → Fits q.most t
  unfolding scan
  scan-Fits [] s t n m f h =
      subst (Fits q.most) (done_inj s t h) (weaker n q.most s (omega (arith, m)) f)
  scan-Fits (name ∷ names) s t n m f h =
      let (what, looked, h') = bind-eq_done (look host files q name) _ h in
      let ((u, stop), step, k) =
        bind-eq_done (taken host q name what s) (carry_on (scan host files q names)) h' in
      go u stop (taken-Fits name what s u n stop m f step) k (λ v g e. scan-Fits names v t n m g e)
    where
      go :
          (u : Progress) (stop : Bool)
          → Fits (if stop then q.most else n) u
          → carry_on (scan host files q names) (u, stop) ≡ done t
          → ((v : Progress) → Fits n v → scan host files q names v ≡ done t → Fits q.most t)
          → Fits q.most t
      go u true g k again = subst (Fits q.most) (done_inj u t k) g
      go u false g k again = again u g k

  -- A page has at most as many candidates as were asked for, and they fit the budget as a JSON list.
  pub page_from-Fits :
      (digest after : String) (page : Page)
      → 1 ≤ q.most
      → 2 ≤ q.max_bytes
      → page_from host files q digest after ≡ done page
      → (length page.candidates ≤ q.most) × (2 + bytes_of host page.candidates ≤ q.max_bytes)
  unfolding page_from
  page_from-Fits digest after page some_wanted room h =
      let begin : Progress = record { summaries = []; used = 2; last = after } in
      let (s, scanned, k) =
        bind-eq_done (scan host files q (first_names 200 (paths_after after files)) begin) _ h in
      let same = ap (λ p. p.candidates) (done_inj _ page k) in
      let f =
        scan-Fits _ begin s (q.most - 1) (omega (arith, some_wanted))
          (record { true_count = refl; within = room; few = omega arith }) scanned in
      (
        subst (λ vs. length vs ≤ q.most) same f.few,
        subst (λ vs. 2 + bytes_of host vs ≤ q.max_bytes) same
            (omega (arith, f.true_count, f.within)),
      )
