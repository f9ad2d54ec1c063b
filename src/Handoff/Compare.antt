-- ===== src/Handoff/Compare.antt =====
-- `compare_targets` of mcp/gxp_core/handoff_store.py.
use look_lowcode.Prelude.{
  String, Bool, true, false, ◌&&◌, ◌||◌, Option, none, some, List, [], ◌∷◌, ◌++◌, one_of,
  if◌then◌else◌,
}
use look_lowcode.Json.{
  Runtime, Value, null, str, arr, obj, Items, nil, cons, Fields, end, field, value_eq,
}
use look_lowcode.Condition.Build.{get}
use look_lowcode.Texts.{sorted_set}
use look_lowcode.Outcome.{raised, done, ◌>>=◌, ◌>>◌, require}
use look_lowcode.Handoff.Host.{type_error, Attempt, field_names, item_at}

abbrev can_hash : Value → Bool
can_hash (arr _) = false
can_hash (obj _) = false
can_hash _ = true

-- The key of an item in the dictionary of the later items.
abbrev pub Identity : Type 0
Identity = Value × Value

unfoldable pub identity_of : Value → Attempt Identity
identity_of (obj fs) = do
  group ← item_at "group_key" fs
  node ← item_at "node_key" fs
  require (can_hash group && can_hash node) type_error
  done (group, node)
identity_of _ = raised type_error

abbrev pub same_identity : Runtime → Identity → Identity → Bool
same_identity py (a, b) (c, d) = value_eq py a c && value_eq py b d

abbrev pub fields_of : Value → Fields
fields_of (obj fs) = fs
fields_of _ = end

abbrev pub Known : Type 0
Known = List (Identity × Fields)

-- {identity: item for item in after}, the latest first
unfoldable pub index_items : Known → Items → Attempt Known
unfolding identity_of
index_items known nil = done known
index_items known (cons v rest) = do
  key ← identity_of v
  index_items ((key, fields_of v) ∷ known) rest

unfoldable pub latest : Runtime → Identity → Known → Option Fields
latest py key [] = none
latest py key ((k, fs) ∷ rest) = if same_identity py k key then some fs else latest py key rest

abbrev set_aside : List String
set_aside = "node_sha256" ∷ "group_key" ∷ "node_key" ∷ []

unfoldable pub differing : Runtime → Fields → Fields → List String → List String
differing py a b [] = []
differing py a b (k ∷ ks) =
    let rest = differing py a b ks in
    if one_of k set_aside || value_eq py (get k null a) (get k null b) then rest else k ∷ rest

abbrev is_bare : Fields → Bool
is_bare end = true
is_bare (field _ _ _) = false

unfoldable pub changed_fields : Runtime → Fields → Option Fields → List String
unfolding differing sorted_set
changed_fields py item none = "missing" ∷ []
changed_fields py item (some other) =
    if is_bare other
    then "missing" ∷ []
    else sorted_set (differing py item other (field_names item ++ field_names other))

abbrev pub texts : List String → Items
texts [] = nil
texts (s ∷ ss) = cons (str s) (texts ss)

abbrev pub difference : Identity → List String → Value
difference (group, node) changed = obj (
    field "group_key" group
      (field "node_key" node (field "changed_fields" (arr (texts changed)) end)))

abbrev pub add_difference : Identity → List String → Items → Items
add_difference key [] rest = rest
add_difference key (c ∷ cs) rest = cons (difference key (c ∷ cs)) rest

unfoldable pub differences : Runtime → Known → Items → Attempt Items
unfolding changed_fields latest
differences py known nil = done nil
differences py known (cons v rest) = do
  key ← identity_of v
  others ← differences py known rest
  done (add_difference key (changed_fields py (fields_of v) (latest py key known)) others)

unfoldable pub compare_targets : Runtime → Items → Items → Attempt Items
unfolding index_items differences
compare_targets py before after = do known ← index_items [] after; differences py known before
