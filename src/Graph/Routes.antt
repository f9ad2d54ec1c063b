-- ===== src/Graph/Routes.antt =====
-- What the answers of `paths` of mcp/gxp_core/business_graph_algorithms.py are.
use mathlib.Core.Path.{subst}
use look_lowcode.Graph.Trails.{
  has_link, Genuine, reached, exhausted, begin, Followed, Followed-extended, Genuine-cyclic_path,
  count-reverse,
}
use look_lowcode.Graph.Paths.{known_target}
use look_lowcode.Prelude.{
  ℕ, zero, suc, ◌≤◌, ◌<◌, String, Bool, true, false, ◌&&◌, Option, none, some, List, [], ◌∷◌, ◌++◌,
  reverse, length, length-append, leb, ltb, ◌==◌, eq_iff, eq_refl, one_of, All, Bool-cases, inl,
  inr, ◌≡◌, refl, sym, ap, arith,
}
use look_lowcode.Json.{Value}
use look_lowcode.Graph.Adjacency.{Edge, Neighbor, Links, neighbors, adjacency}
use look_lowcode.Graph.Paths.{
  Item, Route, found, whole_path, cyclic_path, extended, is_target, is_open, Progress, add_path,
  scan_one, scan, go_on, visit_item, walk, begun, bounded, paths,
}

All-snoc :
    {A : Type 0} (P : A → Type 0) (xs : List A) (x : A) → All P xs → P x → All P (xs ++ x ∷ [])
All-snoc P [] x h p = (p, tt)
All-snoc P (y ∷ xs) x (q, h) p = (q, All-snoc P xs x h p)

no_target : (target : Option String) → is_open target ≡ true → target ≡ none
no_target none h = refl
no_target (some t) h = cc

at_target : (target : Option String) (v : String) → is_target target v ≡ true → target ≡ some v
at_target none v h = cc
at_target (some t) v h = ap some ((eq_iff t v).0 h)

module _ (links : Links) (start : String) (target : Option String) (depth most : ℕ) where
  abbrev pub Waiting : Item → Type 0
  Waiting i = Followed links start i × (length i.edges ≤ depth)

  in_depth : (i : Item) → length i.edges ≤ depth → length (reverse i.edges) ≤ depth
  in_depth i h = subst (λ k. k ≤ depth) (sym (count-reverse i.edges)) h

  pub record Sound (s : Progress) : Type 0 where
    pub genuine : All (Genuine links start target depth) s.results
    pub waiting : All Waiting s.queue
    pub few : length s.results ≤ most

  Sound-add_path :
      (p : Route) (s : Progress)
      → Genuine links start target depth p
      → length s.results < most
      → Sound s
      → Sound (add_path target depth most links p s)
  Sound-add_path p s g room h = record {
    genuine = All-snoc (Genuine links start target depth) s.results p h.genuine g;
    waiting = h.waiting;
    few = omega (arith, length-append s.results (p ∷ []));
  }

  Sound-scan_one :
      (i : Item) (n : Neighbor) (s : Progress)
      → Followed links start i
      → length i.edges < depth
      → has_link n (neighbors i.current links) ≡ true
      → Sound s
      → Sound (scan_one target depth most links i n s)
  unfolding scan_one
  Sound-scan_one i n s trail short link h = elim (Bool-cases (one_of n.0 (i.current ∷ i.earlier))) [
    | inl old ↦ rw old (elim (Bool-cases (is_open target && ltb (length s.results) most)) [
      | inl fits ↦ rw fits (
          Sound-add_path (cyclic_path i n) s
            (Genuine-cyclic_path links start target depth i n trail short
              (no_target target (ground arith)) link old)
            (ground arith) h)
      | inr full ↦ rw full h
    ])
    | inr new ↦ rw new (record {
      genuine = h.genuine;
      waiting =
          All-snoc Waiting s.queue (extended i n) h.waiting
            (Followed-extended links start i n trail link new, omega arith);
      few = h.few;
    })
  ]

  Sound-scan :
      (i : Item) (ns : List Neighbor) (s : Progress)
      → Followed links start i
      → length i.edges < depth
      → ((n : Neighbor) → has_link n ns ≡ true → has_link n (neighbors i.current links) ≡ true)
      → Sound s
      → Sound (scan target depth most links i ns s)
  unfolding scan
  Sound-scan i [] s trail short linked h = h
  Sound-scan i ((w, e) ∷ ns) s trail short linked h =
      Sound-scan i ns (scan_one target depth most links i (w, e) s) trail short
        (λ n k. linked n (ground arith))
        (Sound-scan_one i (w, e) s trail short (linked (w, e) (rw (eq_refl w, eq_refl e) refl)) h)

  Sound-go_on :
      (i : Item) (ns : List Neighbor) (s : Progress)
      → neighbors i.current links ≡ ns
      → Waiting i
      → length s.results < most
      → Sound s
      → Sound (go_on target depth most links i ns s)
  Sound-go_on i [] s e w room h = elim (Bool-cases (is_open target)) [
    | inl free ↦ rw free (
        Sound-add_path (whole_path i) s (exhausted w.0 (in_depth i w.1) (no_target target free) e)
          room h)
    | inr aimed ↦ rw aimed h
  ]
  Sound-go_on i (n ∷ ns) s e w room h = elim (Bool-cases (leb depth (length i.edges))) [
    | inl deep ↦ rw deep (record { genuine = h.genuine; waiting = h.waiting; few = h.few })
    | inr short ↦ rw short (Sound-scan i (n ∷ ns) s w.0 (ground arith) (λ m k. rw e k) h)
  ]

  Sound-visit_item :
      (i : Item) (s : Progress)
      → Waiting i
      → length s.results < most
      → Sound s
      → Sound (visit_item target depth most links i s)
  unfolding visit_item
  Sound-visit_item i s w room h = elim (Bool-cases (is_target target i.current)) [
    | inl there ↦ rw there (
        Sound-add_path (whole_path i) s
          (reached w.0 (in_depth i w.1) (at_target target i.current there)) room h)
    | inr elsewhere ↦ rw elsewhere (Sound-go_on i (neighbors i.current links) s refl w room h)
  ]

  Sound-taken :
      (i : Item) (rest : List Item) (s : Progress)
      → s.queue ≡ i ∷ rest
      → Sound s
      → Waiting i × Sound (record s { queue = rest })
  Sound-taken i rest s e h =
      let (w, ws) = subst (All Waiting) e h.waiting in
      (w, record { genuine = h.genuine; waiting = ws; few = h.few })

  Sound-turn :
      (in_time : ℕ → Bool) (visits : ℕ) (results : List Route) (frontier : List String)
      (queue : List Item)
      → ((t : Progress) → Sound t → Sound (walk target depth most links in_time visits t))
      → Sound (record { results = results; frontier = frontier; queue = queue })
      → Sound (
          walk target depth most links in_time
            (suc visits)
            (record { results = results; frontier = frontier; queue = queue }))
  unfolding walk
  Sound-turn in_time visits results frontier [] again h = h
  Sound-turn in_time visits results frontier (i ∷ rest) again h =
      elim (Bool-cases (ltb (length results) most && in_time visits)) [
        | inl more ↦
            let s : Progress = record { results = results; frontier = frontier; queue = rest } in
            let (w, h') = Sound-taken i rest (record s { queue = i ∷ rest }) refl h in
            rw more (
              again (visit_item target depth most links i s)
                (Sound-visit_item i s w (ground arith) h'))
        | inr stop ↦ rw stop h
      ]

  Sound-walk :
      (in_time : ℕ → Bool) (visits : ℕ) (s : Progress)
      → Sound s
      → Sound (walk target depth most links in_time visits s)
  unfolding walk
  Sound-walk in_time zero s h = h
  Sound-walk in_time (suc visits) s h =
      Sound-turn in_time visits s.results s.frontier s.queue (Sound-walk in_time visits) h

  Sound-begun : Sound (begun start)
  Sound-begun = record { genuine = tt; waiting = ((begin, omega arith), tt); few = omega arith }

found-results :
    (rs ss : List Route) (f g : List String) (t u : Bool) → found rs f t ≡ found ss g u → rs ≡ ss
found-results rs ss f g t u h = cc

-- Every path of an answer of `paths` is genuine in the directed links, reversed for upstream: a trail
-- from the start of at most `max_depth` edges that visits no entity twice, and ends at the target or, if none
-- is asked for, at an entity without links; or, if none is asked for, such a trail of fewer edges and one
-- more link back to an entity of its own, marked as a cycle. There are at most `max_paths` of them. The
-- clock may stop the search at any visit.
pub paths-Genuine :
    (in_time : ℕ → Bool) (nodes : List String) (edges : List Edge) (start : String)
    (target : Option String) (direction : String) (max_depth max_paths : Value) (depth most : ℕ)
    (results : List Route) (frontier : List String) (truncated : Bool)
    → bounded 20 max_depth ≡ some depth
    → bounded 5 max_paths ≡ some most
    → paths in_time nodes edges start target direction max_depth max_paths
      ≡ found results frontier truncated
    → All
        (Genuine (adjacency nodes edges (direction == "upstream") false) start target depth)
        results
      × (length results ≤ most)
unfolding paths
paths-Genuine in_time nodes edges start target direction max_depth max_paths depth most results
      frontier truncated d m h =
    let links = adjacency nodes edges (direction == "upstream") false in
    let end = walk target depth most links in_time 5000 (begun start) in
    let sound =
      Sound-walk links start target depth most in_time 5000 (begun start)
        (Sound-begun links start target depth most) in
    elim (Bool-cases (one_of direction ("upstream" ∷ "downstream" ∷ []))) [
      | inr other ↦ absurd (cc (rw other at h))
      | inl either ↦ elim (Bool-cases (one_of start nodes && known_target nodes target)) [
        | inr lost ↦ absurd (cc (rw (either, d, m, lost) at h))
        | inl known ↦
            let same : end.results ≡ results =
              found-results _ _ _ _ _ _ (rw (either, d, m, known) at h) in
            subst (λ t. All (Genuine links start target depth) t × (length t ≤ most)) same
              (sound.genuine, sound.few)
      ]
    ]
