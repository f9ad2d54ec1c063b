-- ===== src/Handoff/Record.antt =====
-- `HandoffStore._validate` of mcp/gxp_core/handoff_store.py.
use Prim.Native.String.{count}
use look_lowcode.Prelude.{
  String, Bool, true, false, not, ◌&&◌, ◌||◌, List, [], ◌∷◌, pos, leb, nat_beq, all, ◌==◌,
  if◌then◌else◌,
}
use look_lowcode.Json.{Runtime, Value, null, bool, int, str, arr, obj, Items, nil, Fields, value_eq}
use look_lowcode.Condition.Text.{text_of, truthy}
use look_lowcode.Condition.Build.{get}
use look_lowcode.Outcome.{raised, done, ◌>>=◌, ◌>>◌, require}
use look_lowcode.Handoff.Host.{
  format, version, change_spec, type_error, Attempt, Host, elements, size, within, has_field,
  has_fields, exactly, in_names, is_id, is_hash,
}
use look_lowcode.Handoff.Finite.{finite, canonical_sha256}
use look_lowcode.Handoff.Targets.{normalize_targets}
use look_lowcode.Handoff.Compare.{compare_targets}
use look_lowcode.Handoff.Snapshots.{without, fields_in, listed, fields}
use look_lowcode.Handoff.ChangeSpec.{validate_change_spec}

abbrev record_fields : List String
record_fields =
    "schema_version" ∷ "handoff_id" ∷ "created_at" ∷ "environment_scope" ∷ "action" ∷ "draft"
    ∷ "diagnosis_source" ∷ "targets" ∷ "diagnosis_targets" ∷ "source_target_differences"
    ∷ "change_spec" ∷ []

abbrev snapshot_fields : List String
snapshot_fields =
    "group_key" ∷ "node_key" ∷ "element_key" ∷ "title" ∷ "paramsValue" ∷ "depth" ∷ "parent_path"
    ∷ "previous_node" ∷ "next_node" ∷ "control_flow" ∷ "node_sha256" ∷ []

abbrev pub is_dict : Value → Bool
is_dict (obj _) = true
is_dict _ = false

abbrev pub is_array : Value → Bool
is_array (arr _) = true
is_array _ = false

abbrev pub items_in : Value → Items
items_in (arr xs) = xs
items_in _ = nil

abbrev pub default_kind : Value
default_kind = str "edit_snapshot"

-- `kind == name`, for a kind that is a text
abbrev pub is_kind : String → Value → Bool
is_kind name (str s) = s == name
is_kind name _ = false

abbrev hashed : Runtime → String → Fields → Bool
hashed py key fs = is_hash (text_of py (get key (str "") fs))

unfoldable pub identified : Runtime → Fields → Bool
identified py fs =
    has_fields record_fields fs
    && within ("record_kind" ∷ record_fields) fs
    && is_id (text_of py (get "handoff_id" (str "") fs))
    && hashed py "environment_scope" fs

abbrev action_identity : Value → Attempt (Unit {0})
action_identity (obj fs) =
    require
      (truthy (get "ref_id" null fs)
        && within ("ref_id" ∷ "action_code" ∷ "action_name" ∷ "action_type" ∷ "page_id" ∷ []) fs)
      format
action_identity _ = raised format

-- The fields of a piece of design evidence, and its fingerprints.
unfoldable pub design_evidence : Runtime → List String → Value → Attempt (Unit {0})
design_evidence py names (obj fs) =
    require (truthy (get "design_id" null fs) && hashed py "data_sha256" fs && within names fs)
      format
    >> require (not (has_field "semantic_sha256" fs) || hashed py "semantic_sha256" fs) format
design_evidence py names _ = raised format

abbrev draft_evidence : Runtime → Value → Value → Attempt (Unit {0})
draft_evidence py kind draft =
    if is_kind "diagnosis_only" kind
    then elim draft [ null ↦ done tt | _ ↦ raised format ]
    else design_evidence py ("design_id" ∷ "data_sha256" ∷ "version" ∷ "semantic_sha256" ∷ []) draft

abbrev known_version : Value → Attempt (Unit {0})
known_version source = do
  known ← in_names (get "version" null (fields_in source)) ("draft" ∷ "published" ∷ [])
  require known format

-- `value != []`
abbrev is_empty_list : Value → Bool
is_empty_list (arr nil) = true
is_empty_list _ = false

abbrev diagnosis_only : Fields → Attempt (Unit {0})
diagnosis_only fs =
    require
      (all (λ k. is_empty_list (get k null fs))
        ("targets" ∷ "diagnosis_targets" ∷ "source_target_differences" ∷ []))
      format
    >> require
        (has_field "diagnosis" (fields_in (get "change_spec" null fs))
          && not (truthy (get "changes" null (fields_in (get "change_spec" null fs)))))
        change_spec

-- The group and node keys of the targets, if these are dictionaries in a list.
abbrev bare_target : Value → Value
bare_target v = obj (
    fields (
      ("group_key", get "group_key" null (fields_in v))
      ∷ ("node_key", get "node_key" null (fields_in v))
      ∷ []))

abbrev bare_targets : List Value → List Value
bare_targets [] = []
bare_targets (v ∷ vs) = bare_target v ∷ bare_targets vs

abbrev target_list : Value → Value
target_list v =
    if is_array v && all is_dict (elements (items_in v))
    then arr (listed (bare_targets (elements (items_in v))))
    else null

abbrev edit_targets : Value → Attempt (Unit {0})
edit_targets v = normalize_targets (target_list v) >>= λ ts. done tt

unfoldable pub full_snapshot : Host → Value → Attempt (Unit {0})
full_snapshot host (obj fs) = do
  require (exactly snapshot_fields fs) format
  digest ← canonical_sha256 host (obj (without "node_sha256" fs))
  require (value_eq host.runtime (get "node_sha256" null fs) (str digest)) format
  require
      (is_dict (get "paramsValue" null fs)
        && is_array (get "depth" null fs)
        && is_array (get "parent_path" null fs))
      format
full_snapshot host _ = raised type_error

-- `snapshot.get("missing") is True`
abbrev is_missing : Fields → Bool
is_missing fs = elim (get "missing" null fs) [ bool b ↦ b | _ ↦ false ]

abbrev observed_snapshot : Host → Value → Attempt (Unit {0})
observed_snapshot host (obj fs) =
    if is_missing fs
    then require (exactly ("group_key" ∷ "node_key" ∷ "missing" ∷ []) fs) format
    else full_snapshot host (obj fs)
observed_snapshot host _ = raised format

abbrev same_field : Runtime → Value → Value → String → Bool
same_field py a b key = value_eq py (get key null (fields_in a)) (get key null (fields_in b))

unfoldable pub snapshot_pair : Host → Value → Value → Attempt (Unit {0})
unfolding full_snapshot
snapshot_pair host expected observed =
    require
      (is_dict observed
        && all (same_field host.runtime expected observed) ("group_key" ∷ "node_key" ∷ []))
      format
    >> full_snapshot host expected
    >> observed_snapshot host observed

unfoldable pub snapshot_pairs : Host → List Value → List Value → Attempt (Unit {0})
unfolding snapshot_pair
snapshot_pairs host (a ∷ as') (b ∷ bs) = snapshot_pair host a b >> snapshot_pairs host as' bs
snapshot_pairs host _ _ = done tt

-- The targets of the draft and of the diagnosis, and what is said to differ. The draft's targets are a
-- list when this is reached.
unfoldable pub corresponding : Host → Value → Value → Value → Attempt (Unit {0})
unfolding snapshot_pairs
corresponding host expected observed said = do
  require (is_array observed && nat_beq (size (items_in observed)) (size (items_in expected)))
      format
  snapshot_pairs host (elements (items_in expected)) (elements (items_in observed))
  found ← compare_targets host.runtime (items_in observed) (items_in expected)
  require (value_eq host.runtime said (arr found)) format

abbrev creation_time : Value → Bool
creation_time (str s) = leb (count s) 80
creation_time _ = false

unfoldable pub validate_fields : Host → Value → Fields → Attempt (Unit {0})
unfolding design_evidence corresponding
validate_fields host kind fs =
    require (is_kind "edit_snapshot" kind || is_kind "diagnosis_only" kind) format
    >> action_identity (get "action" null fs)
    >> draft_evidence host.runtime kind (get "draft" null fs)
    >> design_evidence host.runtime ("design_id" ∷ "data_sha256" ∷ "version" ∷ [])
        (get "diagnosis_source" null fs)
    >> known_version (get "diagnosis_source" null fs)
    >> validate_change_spec host (get "change_spec" null fs)
    >> (if is_kind "diagnosis_only" kind then diagnosis_only fs else done tt)
    >> (if is_kind "edit_snapshot" kind then edit_targets (get "targets" null fs) else done tt)
    >> corresponding host (get "targets" null fs) (get "diagnosis_targets" null fs)
        (get "source_target_differences" null fs)
    >> require (creation_time (get "created_at" null fs)) format
    >> finite host.runtime 0 (obj fs)

unfoldable pub validate : Host → Value → Attempt (Unit {0})
unfolding identified validate_fields
validate host (obj fs) =
    require (value_eq host.runtime (get "schema_version" null fs) (int (pos 1))) version
    >> require (identified host.runtime fs) format
    >> validate_fields host (get "record_kind" default_kind fs) fs
validate host _ = raised version
