-- ===== src/Graph/Neighborhood.antt =====
-- `neighborhood` of mcp/gxp_core/business_graph_algorithms.py.
use look_lowcode.Prelude.{
  ℕ, zero, suc, ◌+◌, String, Bool, true, false, ◌&&◌, ◌||◌, Option, none, some, List, [], ◌∷◌, ◌++◌,
  ℤ, pos, negsuc, length, ltb, leb, one_of, if◌then◌else◌,
}
use look_lowcode.Outcome.{Outcome, raised, done}
use look_lowcode.Texts.{precedes, sort_texts, sorted_set}
use look_lowcode.Graph.Adjacency.{Edge, Links, adjacency}
use look_lowcode.Graph.Search.{next, outside, weight}

-- A node in the queue, and its distance from a seed.
abbrev pub Queued : Type 0
Queued = String × ℕ

pub record Around : Type 0 where
  pub selected : List String
  pub frontier : List String

abbrev pub at_distance : ℕ → List String → List Queued
at_distance d [] = []
at_distance d (x ∷ xs) = (x, d) ∷ at_distance d xs

-- The loop's body, for a node that it takes off the queue.
abbrev pub grow_step : Links → ℕ → ℕ → Queued → List Queued → Around → List Queued × Around
grow_step links depth max_nodes (current, distance) queue a =
    let fresh = outside (current ∷ a.selected) (next links current) in
    if one_of current a.selected
    then (queue, a)
    else if leb max_nodes (length a.selected)
    then (queue, record a { frontier = current ∷ a.frontier })
    else if ltb distance depth
    then (queue ++ at_distance (suc distance) fresh, record a { selected = current ∷ a.selected })
    else (queue, record { selected = current ∷ a.selected; frontier = fresh ++ a.frontier })

-- The loop; `none` means that the fuel ran out.
unfoldable pub grow : Links → ℕ → ℕ → ℕ → List Queued → Around → Option Around
grow links depth max_nodes fuel [] a = some a
grow links depth max_nodes zero (q ∷ queue) a = none
grow links depth max_nodes (suc fuel) (q ∷ queue) a =
    let (rest, b) = grow_step links depth max_nodes q queue a in
    grow links depth max_nodes fuel rest b

abbrev only_known : List String → List String → List String
only_known nodes [] = []
only_known nodes (x ∷ xs) =
    let rest = only_known nodes xs in if one_of x nodes then x ∷ rest else rest

abbrev behind_cursor : Option String → Edge → Bool
behind_cursor none e = true
behind_cursor (some cursor) e = precedes cursor e.id

abbrev edges_among : Option String → List String → List Edge → List Edge
edges_among cursor selected [] = []
edges_among cursor selected (e ∷ es) =
    let rest = edges_among cursor selected es in
    if one_of e.source selected && one_of e.target selected && behind_cursor cursor e
    then e ∷ rest
    else rest

-- edges[:n] and edges[n:]
abbrev pub first_edges : ℕ → List Edge → List Edge
first_edges zero es = []
first_edges (suc n) [] = []
first_edges (suc n) (e ∷ es) = e ∷ first_edges n es

abbrev other_edges : ℕ → List Edge → List Edge
other_edges zero es = es
other_edges (suc n) [] = []
other_edges (suc n) (e ∷ es) = other_edges n es

abbrev end_points : List Edge → List String
end_points [] = []
end_points (e ∷ es) = e.source ∷ e.target ∷ end_points es

abbrev is_any : List String → Bool
is_any [] = false
is_any (_ ∷ _) = true

pub record Vicinity : Type 0 where
  pub nodes : List String
  pub edges : List Edge
  pub frontier : List String
  pub truncated : Bool

abbrev pub vicinity : List Edge → ℕ → Option String → Around → Vicinity
vicinity edges max_edges cursor a =
    let among = edges_among cursor a.selected edges in
    let left = outside a.selected a.frontier in
    record {
      nodes = sort_texts a.selected;
      edges = first_edges max_edges among;
      frontier = sorted_set (left ++ end_points (other_edges max_edges among));
      truncated = ltb max_edges (length among) || is_any left;
    }

pub data Fault : Type 0 where
  invalid_depth exhausted : Fault

abbrev pub vicinity_of : List Edge → ℕ → Option String → Option Around → Outcome Fault Vicinity
vicinity_of edges max_edges cursor none = raised exhausted
vicinity_of edges max_edges cursor (some a) = done (vicinity edges max_edges cursor a)

abbrev pub first_queue : List String → List String → List Queued
first_queue nodes seeds = at_distance 0 (only_known nodes (sorted_set seeds))

-- Fuel for the loop: one for each seed, and one for each link.
unfoldable pub neighborhood :
    List String → List Edge → List String → ℤ → ℕ → ℕ → Option String → Outcome Fault Vicinity
unfolding grow adjacency sort_texts sorted_set
neighborhood nodes edges seeds (negsuc n) max_nodes max_edges cursor = raised invalid_depth
neighborhood nodes edges seeds (pos depth) max_nodes max_edges cursor =
    let links = adjacency nodes edges false true in
    let queue = first_queue nodes seeds in
    let found =
      grow links depth max_nodes (length queue + weight [] links) queue
        (record { selected = []; frontier = [] }) in
    if leb depth 5 then vicinity_of edges max_edges cursor found else raised invalid_depth
