-- ===== src/Policy/Snapshot.antt =====
-- `RelationPolicyStore.snapshot` (mcp/gxp_core/relation_policy.py), `RelationPolicyClient.sync`
-- (mcp/gxp_core/policy_client.py) and `_policy_allows` (mcp/gxp_core/schema_snapshot.py).
use Prim.Native.String.{compare}
use text.Mathlib.Text.{is_lt}
use look_lowcode.Prelude.{
  ℕ, ℤ, pos, String, Bool, false, ◌&&◌, ◌||◌, not, Option, none, some, List, [], ◌∷◌, ltb, ltb_ℤ,
  int_beq, ◌==◌, one_of, all, if◌then◌else◌,
}
use look_lowcode.Dict.{Dict, lookup, value_or}
use look_lowcode.Policy.Document.{
  Result, ok, err, ◌>>=◌, invalid_scope_id, scope_missing, is_identifier, is_rejected, Scope,
  Decision, Document, File, read,
}
use look_lowcode.Policy.Store.{decisions_of, restore_revision}

pub record Rejection : Type 0 where
  pub relation_id : String
  pub reason_code : String
  pub updated_at : String

pub record Snapshot : Type 0 where
  pub scope_id : String
  pub revision : ℕ
  pub rejections : List Rejection
  pub restore_revisions : Dict ℕ

module _ {ℓ} {V : Type ℓ} where
  unfoldable pub insert_sorted : String → V → Dict V → Dict V
  insert_sorted key v [] = (key, v) ∷ []
  insert_sorted key v ((k, w) ∷ rest) =
      if is_lt (compare key k) then (key, v) ∷ (k, w) ∷ rest else (k, w) ∷ insert_sorted key v rest

  -- sorted(d.items()): the keys of a dictionary differ, so only they are compared.
  unfoldable pub sorted_items : Dict V → Dict V
  sorted_items [] = []
  sorted_items ((k, v) ∷ rest) = insert_sorted k v (sorted_items rest)

unfoldable pub rejections_of : Dict Decision → List Rejection
rejections_of [] = []
rejections_of ((relation_id, item) ∷ rest) =
    let others = rejections_of rest in
    if is_rejected item.state
    then record {
      relation_id = relation_id;
      reason_code = item.reason_code;
      updated_at = item.updated_at;
    }
      ∷ others
    else others

-- item.get("last_restore_revision") or item.get("state") == "restored"
abbrev pub has_restore : Decision → Bool
has_restore item = elim item.last_restore_revision [
  | none ↦ not (is_rejected item.state)
  | some r ↦ ltb 0 r || not (is_rejected item.state)
]

unfoldable pub restores_of : ℕ → Dict Decision → Dict ℕ
restores_of revision [] = []
restores_of revision ((relation, item) ∷ rest) =
    let others = restores_of revision rest in
    if has_restore item then (relation, restore_revision revision (some item)) ∷ others else others

unfoldable pub snapshot_scope : String → Document → Option Scope → Result Snapshot
snapshot_scope scope_id value none = err scope_missing
snapshot_scope scope_id value (some scope) =
    let decisions = decisions_of scope_id value in
    ok (record {
      scope_id = scope_id;
      revision = scope.revision;
      rejections = rejections_of (sorted_items decisions);
      restore_revisions = restores_of scope.revision decisions;
    })

unfoldable pub snapshot_in : String → Document → Result Snapshot
unfolding snapshot_scope
snapshot_in scope_id value = snapshot_scope scope_id value (lookup scope_id value.scopes)

unfoldable pub snapshot : String → File → Result Snapshot × File
unfolding read snapshot_in
snapshot scope_id file =
    if is_identifier scope_id
    then (let (r, after_read) = read file in (r >>= snapshot_in scope_id, after_read))
    else (err invalid_scope_id, file)

-- The policy that a validated relation is held against; a missing revision counts as -1.
pub record Policy : Type 0 where
  pub storage : Option String
  pub revision : ℤ
  pub rejections : List String
  pub protocol_version : ℕ
  pub restore_revisions : Dict ℕ

abbrev pub ids : List Rejection → List String
ids [] = []
ids (r ∷ rs) = r.relation_id ∷ ids rs

-- What `sync` makes of a snapshot.
unfoldable pub synced : Snapshot → Policy
synced s = record {
  storage = some "local";
  revision = pos s.revision;
  rejections = ids s.rejections;
  protocol_version = 2;
  restore_revisions = s.restore_revisions;
}

-- What `_policy_allows` reads of a validated relation; `policy_revision_at_validation` is `none` where
-- it is missing or no integer.
pub record Validated : Type 0 where
  pub relation_id : String
  pub policy_storage : Option String
  pub policy_revision_at_validation : Option ℤ
  pub candidate_group_relations : List String

abbrev pub is_local : Option String → Bool
is_local none = false
is_local (some s) = s == "local"

abbrev pub dependencies : Validated → List String
dependencies r = elim r.candidate_group_relations [ [] ↦ r.relation_id ∷ [] | x ∷ xs ↦ x ∷ xs ]

abbrev pub restored_by : Dict ℕ → ℤ → String → Bool
restored_by restores revision relation =
    not (ltb_ℤ revision (pos (value_or 0 (lookup relation restores))))

unfoldable pub allows_at : Validated → Policy → Option ℤ → Bool
allows_at relation policy none = false
allows_at relation policy (some revision) =
    not (ltb_ℤ revision (pos 0) || ltb_ℤ policy.revision revision)
    && not (one_of relation.relation_id policy.rejections)
    && (if ltb policy.protocol_version 2
        then int_beq revision policy.revision
        else all (restored_by policy.restore_revisions revision) (dependencies relation))

unfoldable pub policy_allows : Validated → Policy → Bool
unfolding allows_at
policy_allows relation policy =
    not (is_local policy.storage && not (is_local relation.policy_storage))
    && allows_at relation policy relation.policy_revision_at_validation
