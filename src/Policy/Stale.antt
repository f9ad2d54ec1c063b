-- ===== src/Policy/Stale.antt =====
-- A decision on a relation takes effect on what was validated before it
-- (mcp/gxp_core/relation_policy.py and `_policy_allows` of mcp/gxp_core/schema_snapshot.py).
use look_lowcode.Prelude.{
  ℕ, ◌+◌, ◌<◌, pos, String, Bool, true, false, Option, none, some, Option-cases, List, [], ◌∷◌,
  ◌==◌, eq_iff, Bool-cases, inl, inr, one_of, all, ◌≡◌, refl, ◌∙◌, ap, arith,
}
use look_lowcode.Dict.{lookup}
use look_lowcode.Policy.Document.{
  ok, rejected, Scope, Decision, Document, File, document, read, migrated, migrated_decision,
  revision_of,
}
use look_lowcode.Policy.Store.{
  decisions_of, was_rejected, restore_revision, Reply, reject_in, restore_in, rejection,
  restoration, reject, restore, append_audit,
}
use look_lowcode.Policy.Snapshot.{
  Policy, Snapshot, snapshot, snapshot_in, snapshot_scope, synced, Validated, policy_allows,
  allows_at, dependencies, restored_by, restores_of, rejections_of, sorted_items, ids, has_restore,
}
use look_lowcode.Policy.Lookup.{
  lookup-insert_self, decision_in, decision_in-migrated, decision_in-put, reject-eq_ok,
  restore-eq_ok,
}
use look_lowcode.Policy.Listed.{listed-sorted_items, listed_of_rejected, lookup-restores_of}

-- A relation that is listed is not allowed.
allows-rejected :
    (relation : Validated) (policy : Policy)
    → one_of relation.relation_id policy.rejections ≡ true
    → policy_allows relation policy ≡ false
unfolding policy_allows
allows-rejected relation policy h = elim (Option-cases relation.policy_revision_at_validation) [
  | inl missing ↦ rw missing (unfold allows_at in ground arith)
  | inr (rev, e) ↦ rw e (unfold allows_at in ground arith)
]

all-false :
    (p : String → Bool) (r : String) (xs : List String)
    → one_of r xs ≡ true
    → p r ≡ false
    → all p xs ≡ false
all-false p r [] h k = cc
all-false p r (x ∷ xs) h k = elim (Bool-cases (r == x)) [
  | inl same ↦ rw (← (eq_iff r x).0 same, k) refl
  | inr other ↦ ground (arith, all-false p r xs)
]

-- A relation is not allowed if one that it depends on was restored after the validation.
allows-restored :
    (relation : Validated) (policy : Policy) (r : String) (rev n : ℕ)
    → policy.protocol_version ≡ 2
    → relation.policy_revision_at_validation ≡ some (pos rev)
    → one_of r (dependencies relation) ≡ true
    → lookup r policy.restore_revisions ≡ some n
    → rev < n
    → policy_allows relation policy ≡ false
unfolding policy_allows
allows-restored relation policy r rev n version e dep found late =
    rw (e, version)
      (unfold allows_at in
        ground (
          arith,
          all-false (restored_by policy.restore_revisions (pos rev)) r (dependencies relation) dep
              (rw found (ground arith)),
        ))

snapshot_scope-eq_ok :
    (s : String) (value : Document) (o : Option Scope) (snap : Snapshot)
    → snapshot_scope s value o ≡ ok snap
    → (scope : Scope) × (o ≡ some scope)
      × (snap.revision ≡ scope.revision)
      × (snap.rejections ≡ rejections_of (sorted_items (decisions_of s value)))
      × (snap.restore_revisions ≡ restores_of scope.revision (decisions_of s value))
unfolding snapshot_scope
snapshot_scope-eq_ok s value none snap h = ground arith
snapshot_scope-eq_ok s value (some scope) snap h =
    (scope, refl, ground arith, ground arith, ground arith)

snapshot-eq_ok :
    (s : String) (v : Document) (snap : Snapshot) (after : File)
    → snapshot s (document v) ≡ (ok snap, after)
    → snapshot_scope s (migrated v) (lookup s v.scopes) ≡ ok snap
unfolding snapshot snapshot_in read migrated
snapshot-eq_ok s v snap after h = ground arith

was_rejected-migrated :
    (s r : String) (v : Document) {d : Decision}
    → decision_in s r v ≡ some d
    → d.state ≡ rejected
    → was_rejected (decision_in s r (migrated v)) ≡ true
was_rejected-migrated s r v e h =
    rw (decision_in-migrated s r v, e) (unfold migrated_decision in rw h refl)

decision_in-reject :
    (s r code now : String) (scope : Scope) (value : Document)
    → decision_in s r (reject_in s r code now scope value).1
      ≡ some (rejection scope.revision (decision_in s r value) r code now)
unfolding reject_in append_audit
decision_in-reject s r code now scope value =
    decision_in-put s r (rejection scope.revision (decision_in s r value) r code now) value

decision_in-restore :
    (s r now : String) (scope : Scope) (value : Document)
    → decision_in s r (restore_in s r now scope value).1
      ≡ some (restoration scope.revision (decision_in s r value) r now)
unfolding restore_in append_audit
decision_in-restore s r now scope value =
    decision_in-put s r (restoration scope.revision (decision_in s r value) r now) value

-- After a successful rejection, the relation is among the rejections of every later successful
-- snapshot of the file, and no validated relation with its id is allowed, whenever validated.
pub reject_blocks :
    (s r code now : String) (file file' after : File) (reply : Reply) (snap : Snapshot)
    (relation : Validated)
    → reject s r code now file ≡ (ok reply, file')
    → snapshot s file' ≡ (ok snap, after)
    → relation.relation_id ≡ r
    → (one_of r (ids snap.rejections) ≡ true) × (policy_allows relation (synced snap) ≡ false)
unfolding synced
reject_blocks s r code now file file' after reply snap relation h k e =
    let (value, scope, ran, found, answered, wrote) =
      reject-eq_ok s r code now file file' reply h in
    let v : Document = (reject_in s r code now scope value).1 in
    let (scope', found', same, lists, restores) =
      snapshot_scope-eq_ok s (migrated v) (lookup s v.scopes) snap
        (snapshot-eq_ok s v snap after (rw wrote at k)) in
    let there : one_of r (ids snap.rejections) ≡ true =
      rw (lists, listed-sorted_items r (decisions_of s (migrated v)))
        (listed_of_rejected r (decisions_of s (migrated v)) (
          was_rejected-migrated s r v (decision_in-reject s r code now scope value)
            (unfold rejection in refl))) in
    (there, allows-rejected relation (synced snap) (rw e there))

was_rejected-cases :
    (o : Option Decision)
    → was_rejected o ≡ true
    → (d : Decision) × (o ≡ some d) × (d.state ≡ rejected)
was_rejected-cases none h = cc
was_rejected-cases (some d) h = (d, refl, ground arith)

-- The restored decision as a later snapshot sees it.
restore_revision-migrated :
    (now_at revision n : ℕ) (d : Decision)
    → d.last_restore_revision ≡ some n
    → restore_revision now_at (some (migrated_decision revision d)) ≡ n
unfolding migrated_decision
restore_revision-migrated now_at revision n d h = ground arith

has_restore-migrated :
    (revision n : ℕ) (d : Decision)
    → d.last_restore_revision ≡ some (n + 1)
    → has_restore (migrated_decision revision d) ≡ true
unfolding migrated_decision
has_restore-migrated revision n d h = ground arith

restoration-last :
    (revision : ℕ) (o : Option Decision) (r now : String)
    → was_rejected o ≡ true
    → (restoration revision o r now).last_restore_revision ≡ some (revision + 1)
unfolding restoration
restoration-last revision o r now h = rw h refl

revision_of-restore :
    (s r now : String) (scope : Scope) (value : Document)
    → lookup s (restore_in s r now scope value).1.scopes
      ≡ some (record scope { revision = (restore_in s r now scope value).0.revision })
unfolding restore_in append_audit
revision_of-restore s r now scope value = lookup-insert_self s _ value.scopes

restore-reply :
    (s r now : String) (scope : Scope) (value : Document)
    → (restore_in s r now scope value).0.flag ≡ true
    → (was_rejected (decision_in s r value) ≡ true)
      × ((restore_in s r now scope value).0.revision ≡ scope.revision + 1)
unfolding restore_in
restore-reply s r now scope value h = (h, rw h refl)

-- After a restoration that changed a decision, no relation that was validated at an earlier revision
-- and depends on the restored one is allowed by a later successful snapshot.
pub restore_invalidates :
    (s r now : String) (file file' after : File) (reply : Reply) (snap : Snapshot)
    (relation : Validated) (rev : ℕ)
    → restore s r now file ≡ (ok reply, file')
    → reply.flag ≡ true
    → snapshot s file' ≡ (ok snap, after)
    → relation.policy_revision_at_validation ≡ some (pos rev)
    → rev < reply.revision
    → one_of r (dependencies relation) ≡ true
    → policy_allows relation (synced snap) ≡ false
unfolding synced
restore_invalidates s r now file file' after reply snap relation rev h flag k at_rev late dep =
    let (value, scope, ran, found, answered, wrote) = restore-eq_ok s r now file file' reply h in
    let v : Document = (restore_in s r now scope value).1 in
    let (was, moved) = restore-reply s r now scope value (rw answered at flag) in
    let (scope', found', same, lists, restores) =
      snapshot_scope-eq_ok s (migrated v) (lookup s v.scopes) snap
        (snapshot-eq_ok s v snap after (rw wrote at k)) in
    let d : Decision = restoration scope.revision (decision_in s r value) r now in
    let last = restoration-last scope.revision (decision_in s r value) r now was in
    let m : Decision = migrated_decision (revision_of (lookup s v.scopes)) d in
    let here : decision_in s r (migrated v) ≡ some m =
      decision_in-migrated s r v ∙ rw (decision_in-restore s r now scope value) refl in
    let at_snap : lookup r snap.restore_revisions
        ≡ some (restore_revision scope'.revision (some m)) =
      rw restores (
        lookup-restores_of r scope'.revision (decisions_of s (migrated v)) m here
          (has_restore-migrated (revision_of (lookup s v.scopes)) scope.revision d last)) in
    allows-restored relation (synced snap) r rev (scope.revision + 1) refl at_rev dep
      (at_snap
        ∙ ap some (
            restore_revision-migrated scope'.revision (revision_of (lookup s v.scopes))
              (scope.revision + 1) d last))
      (omega (arith, late, moved, ap (λ (p : Reply). p.revision) answered))
