-- ===== src/Handoff/Snapshots.antt =====
-- `snapshot_targets` of mcp/gxp_core/handoff_store.py.
use look_lowcode.Prelude.{
  ℕ, ◌+◌, ◌-◌, String, Bool, true, false, none, some, List, [], ◌∷◌, get_elem?, nat_beq, ◌==◌,
  if◌then◌else◌,
}
use look_lowcode.Json.{
  Runtime, Value, null, bool, str, arr, obj, Items, nil, cons, Fields, end, field,
}
use look_lowcode.Condition.Text.{text_of, truthy}
use look_lowcode.Condition.Build.{get}
use look_lowcode.Outcome.{raised, done, ◌>>=◌}
use look_lowcode.Handoff.Host.{
  type_error, ambiguous_target, target_not_found, Attempt, Host, elements, field_names,
}
use look_lowcode.Handoff.Finite.{canonical_sha256}
use look_lowcode.Handoff.Targets.{Target, normalize_targets}

-- The values that `for x in value` goes through.
abbrev pub characters : String → List Value
characters String.[] = []
characters (String.◌∷◌ c s) = str (String.◌∷◌ c "") ∷ characters s

abbrev pub named : List String → List Value
named [] = []
named (k ∷ ks) = str k ∷ named ks

unfoldable pub iterated : Value → Attempt (List Value)
iterated (arr xs) = done (elements xs)
iterated (str s) = done (characters s)
iterated (obj fs) = done (named (field_names fs))
iterated _ = raised type_error

abbrev pub listed : List Value → Items
listed [] = nil
listed (v ∷ vs) = cons v (listed vs)

abbrev pub fields : List (String × Value) → Fields
fields [] = end
fields ((k, v) ∷ rest) = field k v (fields rest)

abbrev text_at : Runtime → String → Fields → String
text_at py key fs = text_of py (get key (str "") fs)

abbrev pub keyed : Runtime → String → Value → Bool
keyed py key (obj fs) = text_at py "key" fs == key
keyed py key _ = false

-- The items that are dictionaries with the key, with their positions.
unfoldable pub matches_from : Runtime → String → ℕ → List Value → List (ℕ × Value)
matches_from py key index [] = []
matches_from py key index (v ∷ vs) =
    let rest = matches_from py key (index + 1) vs in
    if keyed py key v then (index, v) ∷ rest else rest

abbrev pub fields_in : Value → Fields
fields_in (obj fs) = fs
fields_in _ = end

-- `identity`
unfoldable pub identity : Runtime → Value → Value
identity py (obj fs) = obj (
    fields (
      ("node_key", str (text_at py "key" fs))
      ∷ ("element_key", str (text_at py "elementKey" fs))
      ∷ ("title", str (text_at py "title" fs))
      ∷ []))
identity py _ = null

-- {**…, "params_sha256": …} for one key of the node's depth
unfoldable pub parent_of : Host → List Value → Value → Attempt Value
unfolding matches_from identity
parent_of host nodes key = elim (matches_from host.runtime (text_of host.runtime key) 0 nodes) [
  | (i, v) ∷ [] ↦ do
    digest ← canonical_sha256 host (get "paramsValue" (obj end) (fields_in v))
    done (
        obj (
          fields (
            ("node_key", str (text_at host.runtime "key" (fields_in v)))
            ∷ ("element_key", str (text_at host.runtime "elementKey" (fields_in v)))
            ∷ ("title", str (text_at host.runtime "title" (fields_in v)))
            ∷ ("params_sha256", str digest)
            ∷ [])))
  | _ ↦ done (
      obj (
        fields (
          ("node_key", str (text_of host.runtime key))
          ∷ ("unresolved", bool true)
          ∷ ("params_sha256", null)
          ∷ [])))
]

unfoldable pub parents_of : Host → List Value → List Value → Attempt (List Value)
unfolding parent_of
parents_of host nodes [] = done []
parents_of host nodes (key ∷ keys) = do
  p ← parent_of host nodes key
  ps ← parents_of host nodes keys
  done (p ∷ ps)

-- The keys, elements and depths of the nodes that are dictionaries.
unfoldable pub structure_of : List Value → List Value
structure_of [] = []
structure_of (obj fs ∷ vs) =
    obj (
      fields (
        ("key", get "key" null fs)
        ∷ ("elementKey", get "elementKey" null fs)
        ∷ ("depth", get "depth" (arr nil) fs)
        ∷ []))
    ∷ structure_of vs
structure_of (v ∷ vs) = structure_of vs

abbrev pub without : String → Fields → Fields
without key end = end
without key (field k v fs) = let rest = without key fs in if k == key then rest else field k v rest

abbrev neighbor_at : Runtime → List Value → ℕ → Value
neighbor_at py nodes i = elim (get_elem? nodes i) [ none ↦ null | some v ↦ identity py v ]

abbrev pub append_field : Fields → String → Value → Fields
append_field end key v = field key v end
append_field (field k w fs) key v = field k w (append_field fs key v)

-- value.get(key, []) or []
abbrev list_at : String → Fields → Value
list_at key fs = let v = get key (arr nil) fs in if truthy v then v else arr nil

unfoldable pub snapshot_of :
    Host → Fields → List Value → Value → Target → ℕ → Fields → Attempt Value
unfolding parents_of structure_of identity iterated
snapshot_of host group nodes raw_nodes target index node = do
  keys ← iterated (list_at "depth" node)
  parents ← parents_of host nodes keys
  structure ← canonical_sha256 host (arr (listed (structure_of nodes)))
  context ←
      canonical_sha256 host
        (obj (fields (("configuration", obj (without "data" group)) ∷ ("nodes", raw_nodes) ∷ [])))
  let body = fields (
      ("group_key", str target.group_key)
      ∷ ("node_key", str target.node_key)
      ∷ ("element_key", str (text_at host.runtime "elementKey" node))
      ∷ ("title", str (text_at host.runtime "title" node))
      ∷ ("paramsValue", get "paramsValue" (obj end) node)
      ∷ ("depth", list_at "depth" node)
      ∷ ("parent_path", arr (listed parents))
      ∷ (
        "previous_node",
        if nat_beq index 0 then null else neighbor_at host.runtime nodes (index - 1),
      )
      ∷ ("next_node", neighbor_at host.runtime nodes (index + 1))
      ∷ (
        "control_flow",
        obj (
            fields (
              ("group_structure_sha256", str structure)
              ∷ ("group_context_sha256", str context)
              ∷ [])),
      )
      ∷ [])
  digest ← canonical_sha256 host (obj body)
  done (obj (append_field body "node_sha256" (str digest)))

abbrev missing_target : Target → Value
missing_target target = obj (
    fields (
      ("group_key", str target.group_key)
      ∷ ("node_key", str target.node_key)
      ∷ ("missing", bool true)
      ∷ []))

abbrev in_group :
    Host → Bool → Target → Fields → List Value → Value → List (ℕ × Value) → Attempt Value
in_group host allow_missing target group nodes raw ((index, node) ∷ []) =
    snapshot_of host group nodes raw target index (fields_in node)
in_group host allow_missing target group nodes raw [] =
    if allow_missing then done (missing_target target) else raised target_not_found
in_group host allow_missing target group nodes raw (_ ∷ _ ∷ _) = raised target_not_found

-- One target in the groups that have its key.
unfoldable pub snapshot_target : Host → Bool → Target → List (ℕ × Value) → Attempt Value
unfolding snapshot_of matches_from iterated
snapshot_target host allow_missing target [] =
    in_group host allow_missing target end [] (arr nil) []
snapshot_target host allow_missing target ((i, group) ∷ []) = do
  nodes ← iterated (get "data" (arr nil) (fields_in group))
  in_group host allow_missing target (fields_in group) nodes
      (get "data" (arr nil) (fields_in group)) (matches_from host.runtime target.node_key 0 nodes)
snapshot_target host allow_missing target (_ ∷ _ ∷ _) = raised ambiguous_target

unfoldable pub snapshot_all : Host → Bool → Fields → List Target → Attempt (List Value)
unfolding snapshot_target
snapshot_all host allow_missing design [] = done []
snapshot_all host allow_missing design (target ∷ rest) = do
  groups ← iterated (get "actionData" (arr nil) design)
  s ←
      snapshot_target host allow_missing target
        (matches_from host.runtime target.group_key 0 groups)
  ss ← snapshot_all host allow_missing design rest
  done (s ∷ ss)

unfoldable pub snapshot_targets : Host → Fields → Value → Bool → Attempt (List Value)
unfolding snapshot_all
snapshot_targets host design raw_targets allow_missing = do
  targets ← normalize_targets raw_targets
  snapshot_all host allow_missing design targets
