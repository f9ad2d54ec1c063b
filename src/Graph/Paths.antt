-- ===== src/Graph/Paths.antt =====
-- `paths` of mcp/gxp_core/business_graph_algorithms.py.
use look_lowcode.Prelude.{
  ℕ, zero, suc, pos, String, Bool, true, false, not, ◌&&◌, Option, none, some, List, [], ◌∷◌, ◌++◌,
  reverse, length, leb, ltb, ◌==◌, one_of, if◌then◌else◌,
}
use look_lowcode.Json.{Value, int}
use look_lowcode.Graph.Adjacency.{Edge, Neighbor, Links, neighbors, adjacency}
use look_lowcode.Texts.{sorted_set}

-- An item of the queue: the last entity of its path, those before it and the edges between them, both
-- with the newest first.
pub record Item : Type 0 where
  pub current : String
  pub earlier : List String
  pub edges : List String

pub record Route : Type 0 where
  pub entities : List String
  pub edges : List String
  pub cycle : Bool

pub data Answer : Type 0 where
  -- GRAPH_INVALID_PATH_QUERY
  refused : Answer
  not_found : Answer
  -- the paths, the frontier, whether it is truncated
  found : List Route → List String → Bool → Answer

abbrev pub whole_path : Item → Route
whole_path i = record {
  entities = reverse (i.current ∷ i.earlier);
  edges = reverse i.edges;
  cycle = false;
}

abbrev pub cyclic_path : Item → Neighbor → Route
cyclic_path i (w, e) = record {
  entities = reverse (w ∷ i.current ∷ i.earlier);
  edges = reverse (e ∷ i.edges);
  cycle = true;
}

abbrev pub extended : Item → Neighbor → Item
extended i (w, e) = record { current = w; earlier = i.current ∷ i.earlier; edges = e ∷ i.edges }

abbrev pub is_target : Option String → String → Bool
is_target none v = false
is_target (some t) v = t == v

abbrev pub is_open : Option String → Bool
is_open none = true
is_open (some t) = false

pub record Progress : Type 0 where
  pub results : List Route
  pub frontier : List String
  pub queue : List Item

module _ (target : Option String) (max_depth max_paths : ℕ) (links : Links) where
  abbrev pub add_path : Route → Progress → Progress
  add_path p s = record s { results = s.results ++ p ∷ [] }

  -- One neighbour of the item's last entity.
  unfoldable pub scan_one : Item → Neighbor → Progress → Progress
  scan_one i n s =
      if one_of n.0 (i.current ∷ i.earlier)
      then (if is_open target && ltb (length s.results) max_paths
          then add_path (cyclic_path i n) s
          else s)
      else record s { queue = s.queue ++ extended i n ∷ [] }

  unfoldable pub scan : Item → List Neighbor → Progress → Progress
  unfolding scan_one
  scan i [] s = s
  scan i (n ∷ ns) s = scan i ns (scan_one i n s)

  abbrev pub at_dead_end : Item → Progress → Progress
  at_dead_end i s = if is_open target then add_path (whole_path i) s else s

  abbrev pub go_on : Item → List Neighbor → Progress → Progress
  go_on i [] s = at_dead_end i s
  go_on i (n ∷ ns) s =
      if leb max_depth (length i.edges)
      then record s { frontier = i.current ∷ s.frontier }
      else scan i (n ∷ ns) s

  -- The body of the loop, for the item that `popleft` takes.
  unfoldable pub visit_item : Item → Progress → Progress
  unfolding scan
  visit_item i s =
      if is_target target i.current
      then add_path (whole_path i) s
      else go_on i (neighbors i.current links) s

  -- The loop with the visits that are left; `in_time` is what the clock says at each of them.
  unfoldable pub walk : (ℕ → Bool) → ℕ → Progress → Progress
  unfolding visit_item
  walk in_time zero s = s
  walk in_time (suc visits) s = elim s.queue [
    | [] ↦ s
    | i ∷ rest ↦
        let later = walk in_time visits (visit_item i (record s { queue = rest })) in
        if ltb (length s.results) max_paths && in_time visits then later else s
  ]

abbrev pub last_entities : List Item → List String
last_entities [] = []
last_entities (i ∷ is) = i.current ∷ last_entities is

abbrev is_empty : List String → Bool
is_empty [] = true
is_empty (_ ∷ _) = false

abbrev pub answer_of : Progress → Answer
answer_of s =
    let frontier = sorted_set (last_entities s.queue ++ s.frontier) in
    found s.results frontier (not (is_empty frontier))

-- `type(v) is int and 1 <= v <= most`
abbrev pub bounded : ℕ → Value → Option ℕ
bounded most (int (pos n)) = if leb 1 n && leb n most then some n else none
bounded most _ = none

abbrev pub known_target : List String → Option String → Bool
known_target nodes none = true
known_target nodes (some t) = one_of t nodes

abbrev pub begun : String → Progress
begun start = record {
  results = [];
  frontier = [];
  queue = record { current = start; earlier = []; edges = [] } ∷ [];
}

abbrev pub run_paths :
    (ℕ → Bool) → List String → List Edge → String → Option String → Bool → ℕ → ℕ → Answer
run_paths in_time nodes edges start target upstream max_depth max_paths =
    if one_of start nodes && known_target nodes target
    then answer_of (
        walk target max_depth max_paths (adjacency nodes edges upstream false) in_time 5000
          (begun start))
    else not_found

abbrev with_bounds {ℓ} : {A : Type ℓ} → Option ℕ → Option ℕ → A → (ℕ → ℕ → A) → A
with_bounds (some m) (some n) other f = f m n
with_bounds _ _ other f = other

unfoldable pub paths :
    (ℕ → Bool) → List String → List Edge → String → Option String → String → Value → Value → Answer
paths in_time nodes edges start target direction max_depth max_paths =
    if one_of direction ("upstream" ∷ "downstream" ∷ [])
    then with_bounds (bounded 20 max_depth) (bounded 5 max_paths) refused
        (run_paths in_time nodes edges start target (direction == "upstream"))
    else refused
