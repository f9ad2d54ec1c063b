-- ===== src/Policy/Tests.antt =====
-- The theorems about the policy store at a small file (mcp/gxp_core/relation_policy.py).
use look_lowcode.Prelude.{
  pos, String, true, false, none, some, [], ◌∷◌, one_of, List, ◌≡◌, ◌≢◌, refl, arith,
}
use look_lowcode.Dict.{lookup, insert, set_default}
use look_lowcode.Policy.Document.{
  ok, rejected, restored, File, absent, read, mutate, empty_document, migrated, migrated_scopes,
  migrated_decisions, migrated_decision, needs_migration, lacks_restore_revision, is_identifier,
  is_relation_id, is_reason_code,
}
use look_lowcode.Policy.Store.{
  Reply, reject, restore, create_scope, reject_relation, restore_relation, reject_in, restore_in,
  rejection, restoration, append_audit,
}
use look_lowcode.Policy.Snapshot.{
  Snapshot, Validated, snapshot, snapshot_in, snapshot_scope, synced, policy_allows, allows_at, ids,
  rejections_of, sorted_items, insert_sorted, restores_of,
}
use look_lowcode.Policy.Consistent.{IsConsistent, empty-IsConsistent}
use look_lowcode.Policy.Files.{
  FileConsistent, reject-consistent, restore-consistent, create_scope-consistent, ok-injective,
}
use mathlib.Core.Path.{subst}
use look_lowcode.Policy.Stale.{reject_blocks, restore_invalidates}
use look_lowcode.Policy.Attempts.{
  Candidate, present, verified, marked, apply_current_policy, candidate_resolution,
}
use look_lowcode.Policy.Verdict.{IsBacked, candidate_resolution-IsBacked, reject_reaches_verdict}

abbrev relation : String
relation = "aaaaaaaaaaaaaaaaaaaaaaaaaaaaaaaaaaaaaaaaaaaaaaaaaaaaaaaaaaaaaaaa"

abbrev scoped : File
scoped = (create_scope "s" "t0" none absent).1

abbrev after_reject : File
after_reject = (reject "s" relation "wrong_columns" "t1" scoped).1

abbrev after_restore : File
after_restore = (restore "s" relation "t2" after_reject).1

abbrev validated : Validated
validated = record {
  relation_id = relation;
  policy_storage = some "local";
  policy_revision_at_validation = some (pos 1);
  candidate_group_relations = [];
}

absent-consistent : FileConsistent absent
unfolding read
absent-consistent value h =
    subst IsConsistent (ok-injective empty_document value h) empty-IsConsistent

reject-consistent_example : FileConsistent (reject "s" relation "wrong_columns" "t1" absent).1
reject-consistent_example =
    reject-consistent "s" relation "wrong_columns" "t1" absent absent-consistent

restore-consistent_example : FileConsistent (restore "s" relation "t2" absent).1
restore-consistent_example = restore-consistent "s" relation "t2" absent absent-consistent

create_scope-consistent_example : FileConsistent (create_scope "s" "t0" none absent).1
create_scope-consistent_example = create_scope-consistent "s" "t0" none absent absent-consistent

abbrev rejected_reply : Reply
rejected_reply = record { relation_id = relation; state = rejected; revision = 1; flag = false }

abbrev restored_reply : Reply
restored_reply = record { relation_id = relation; state = restored; revision = 2; flag = true }

reject_runs : reject "s" relation "wrong_columns" "t1" scoped ≡ (ok rejected_reply, after_reject)
unfolding create_scope reject lookup insert set_default mutate read is_identifier is_relation_id
    is_reason_code reject_relation reject_in
reject_runs = refl

restore_runs : restore "s" relation "t2" after_reject ≡ (ok restored_reply, after_restore)
unfolding reject_runs restore restore_relation restore_in
restore_runs = refl

abbrev rejected_snapshot : Snapshot
rejected_snapshot = record {
  scope_id = "s";
  revision = 1;
  rejections =
      record { relation_id = relation; reason_code = "wrong_columns"; updated_at = "t1" } ∷ [];
  restore_revisions = [];
}

abbrev restored_snapshot : Snapshot
restored_snapshot = record {
  scope_id = "s";
  revision = 2;
  rejections = [];
  restore_revisions = (relation, 2) ∷ [];
}

rejected_snapshot_runs : snapshot "s" after_reject ≡ (ok rejected_snapshot, after_reject)
unfolding reject_runs snapshot snapshot_in snapshot_scope migrated migrated_scopes
    migrated_decisions migrated_decision needs_migration lacks_restore_revision rejection
    append_audit sorted_items insert_sorted rejections_of restores_of
rejected_snapshot_runs = refl

restored_snapshot_runs : snapshot "s" after_restore ≡ (ok restored_snapshot, after_restore)
unfolding rejected_snapshot_runs restore_runs restoration
restored_snapshot_runs = refl

reject_blocks_example :
    (one_of relation (ids rejected_snapshot.rejections) ≡ true)
    × (policy_allows validated (synced rejected_snapshot) ≡ false)
reject_blocks_example =
    reject_blocks "s" relation "wrong_columns" "t1" scoped after_reject after_reject rejected_reply
      rejected_snapshot validated reject_runs rejected_snapshot_runs refl

restore_invalidates_example : policy_allows validated (synced restored_snapshot) ≡ false
restore_invalidates_example =
    restore_invalidates "s" relation "t2" after_reject after_restore after_restore restored_reply
      restored_snapshot validated 1 restore_runs refl restored_snapshot_runs refl (omega arith) refl

-- Another candidate, validated after the rejection.
abbrev kept : Candidate
kept = record {
  relation = record {
    relation_id = "other";
    policy_storage = some "local";
    policy_revision_at_validation = some (pos 1);
    candidate_group_relations = [];
  };
  status = some "data_verified";
  evidence = present true;
  candidate_truncated = false;
}

abbrev tried : List Candidate
tried =
    record {
      relation = validated;
      status = some "data_verified";
      evidence = present true;
      candidate_truncated = false;
    }
    ∷ kept
    ∷ []

one_is_left :
    candidate_resolution (apply_current_policy (synced rejected_snapshot) tried)
    ≡ (verified, kept ∷ [])
unfolding candidate_resolution marked policy_allows allows_at synced lookup
one_is_left = refl

candidate_resolution-IsBacked_example :
    (a : Candidate) × (kept ∷ [] ≡ a ∷ []) × IsBacked (synced rejected_snapshot) a
candidate_resolution-IsBacked_example =
    candidate_resolution-IsBacked (synced rejected_snapshot) tried (kept ∷ []) one_is_left

reject_reaches_verdict_example : "other" ≢ relation
reject_reaches_verdict_example =
    reject_reaches_verdict "s" relation "wrong_columns" "t1" scoped after_reject after_reject
      rejected_reply rejected_snapshot tried [] kept reject_runs rejected_snapshot_runs one_is_left
