-- ===== src/Policy/Consistent.antt =====
-- The store's invariant, kept by every operation on the file (mcp/gxp_core/relation_policy.py).
use look_lowcode.Prelude.{
  ℕ, ◌+◌, ◌≤◌, String, Option, none, some, List, [], ◌∷◌, ◌++◌, ◌==◌, Bool-cases, inl, inr, ◌≡◌,
  refl, sym, ◌∙◌, ap, arith, if◌then◌else◌,
}
use look_lowcode.Dict.{lookup, insert, lookup-insert}
use look_lowcode.Policy.Document.{
  Scope, Decision, AuditEntry, Document, migrated, migrated_decision, revision_of, empty_document,
}
use look_lowcode.Policy.Store.{
  decisions_of, was_rejected, put_decision, reject_in, restore_in, rejection, restoration,
  append_audit,
}
use look_lowcode.Policy.Lookup.{decision_in, decision_in-migrated, map_option}

-- Audit ids ascend strictly, from `lo` to below `hi`.
abbrev pub Ascends : ℕ → List AuditEntry → ℕ → Type 0
Ascends lo [] hi = lo ≤ hi
Ascends lo (e ∷ es) hi = (lo ≤ e.audit_id) × Ascends (e.audit_id + 1) es hi

-- No restore revision is ahead of the revision `bound`.
abbrev pub Within : ℕ → Option Decision → Type 0
Within bound o = (d : Decision) (n : ℕ) → o ≡ some d → d.last_restore_revision ≡ some n → n ≤ bound

pub record IsConsistent (value : Document) : Type 0 where
  pub next : ℕ
  pub counted : value.next_audit_id ≡ some next
  pub audit : Ascends 1 value.audit next
  pub revisions :
      (s r : String) → Within (revision_of (lookup s value.scopes)) (decision_in s r value)

Ascends-append :
    (lo hi : ℕ) (es : List AuditEntry) (e : AuditEntry)
    → e.audit_id ≡ hi
    → Ascends lo es hi
    → Ascends lo (es ++ e ∷ []) (hi + 1)
Ascends-append lo hi [] e h a = (omega arith, omega arith)
Ascends-append lo hi (x ∷ es) e h a = (a.0, Ascends-append (x.audit_id + 1) hi es e h a.1)

pub decision_in-put_if :
    (s r s' r' : String) (d : Decision) (value : Document)
    → decision_in s' r' (put_decision s r d value) ≡ (
        if s == s'
        then (if r == r' then some d else decision_in s r' value)
        else decision_in s' r' value)
decision_in-put_if s r s' r' d value =
    rw (lookup-insert s s' (insert r d (decisions_of s value)) value.decisions)
      (elim (Bool-cases (s == s')) [
        | inl same ↦ rw same (lookup-insert r r' d (decisions_of s value))
        | inr other ↦ rw other refl
      ])

-- `reject` and `restore` write one decision, one audit entry and one revision.
module _ (s r : String) (scope : Scope) (value : Document)
    (found : lookup s value.scopes ≡ some scope) (d : Decision) (revision : ℕ)
    (up : scope.revision ≤ revision) (fits : Within revision (some d)) where
  abbrev after_write : Document
  after_write = record value {
    scopes = insert s (record scope { revision = revision }) value.scopes;
    decisions = (put_decision s r d value).decisions;
  }

  revision-after :
      (s' : String)
      → revision_of (lookup s' after_write.scopes)
        ≡ (if s == s' then revision else revision_of (lookup s' value.scopes))
  revision-after s' =
      rw (lookup-insert s s' (record scope { revision = revision }) value.scopes) (ground arith)

  old-Within : IsConsistent value → (r' : String) → Within scope.revision (decision_in s r' value)
  old-Within c r' e n h k = omega (arith, c.revisions s r' e n h k, ap revision_of found)

  revisions-after :
      IsConsistent value
      → (s' r' : String)
      → Within (revision_of (lookup s' after_write.scopes)) (decision_in s' r' after_write)
  revisions-after c s' r' e n h k = ground (
    arith,
    revision-after s',
    decision_in-put_if s r s' r' d value,
    old-Within c r' e n,
    fits e n,
    c.revisions s' r' e n,
  )

rejection-Within :
    (revision : ℕ) (o : Option Decision) (r code now : String)
    → Within revision o
    → Within revision (some (rejection revision o r code now))
unfolding rejection
rejection-Within revision none r code now w e n h k = ground arith
rejection-Within revision (some d) r code now w e n h k = ground (arith, w d n refl)

restoration-Within :
    (revision : ℕ) (o : Option Decision) (r now : String)
    → Within revision o
    → Within
        (if was_rejected o then revision + 1 else revision)
        (some (restoration revision o r now))
unfolding restoration
restoration-Within revision none r now w e n h k = ground arith
restoration-Within revision (some d) r now w e n h k = ground (arith, w d n refl)

module _ (s r now : String) (scope : Scope) (value : Document)
    (found : lookup s value.scopes ≡ some scope) (c : IsConsistent value) where
  current-Within : Within scope.revision (decision_in s r value)
  current-Within e n h k = omega (arith, c.revisions s r e n h k, ap revision_of found)

  pub reject_in-IsConsistent : (code : String) → IsConsistent (reject_in s r code now scope value).1
  unfolding reject_in append_audit
  reject_in-IsConsistent code = record {
    next = c.next + 1;
    counted = rw c.counted refl;
    audit = rw c.counted (Ascends-append 1 c.next value.audit _ refl c.audit);
    revisions =
        revisions-after s r scope value found
          (rejection scope.revision (decision_in s r value) r code now) _ (ground arith)
          (λ e n h k. ground (
            arith,
            rejection-Within scope.revision (decision_in s r value) r code now current-Within e n h
                k,
          ))
          c;
  }

  pub restore_in-IsConsistent : IsConsistent (restore_in s r now scope value).1
  unfolding restore_in append_audit
  restore_in-IsConsistent = record {
    next = c.next + 1;
    counted = rw c.counted refl;
    audit = rw c.counted (Ascends-append 1 c.next value.audit _ refl c.audit);
    revisions =
        revisions-after s r scope value found
          (restoration scope.revision (decision_in s r value) r now) _ (ground arith)
          (restoration-Within scope.revision (decision_in s r value) r now current-Within) c;
  }

migrated-Within :
    (bound : ℕ) (o : Option Decision)
    → Within bound o
    → Within bound (map_option (migrated_decision bound) o)
unfolding migrated_decision
migrated-Within bound none w e n h k = ground arith
migrated-Within bound (some d) w e n h k = ground (arith, w d n refl)

-- A migration keeps a consistent document consistent.
pub migrated-IsConsistent : (value : Document) → IsConsistent value → IsConsistent (migrated value)
migrated-IsConsistent value c = record {
  next = c.next;
  counted = unfold migrated in rw c.counted refl;
  audit = unfold migrated in c.audit;
  revisions = λ s r e n h k.
      unfold migrated in
      migrated-Within (revision_of (lookup s value.scopes)) (decision_in s r value)
        (c.revisions s r) e n (sym (decision_in-migrated s r value) ∙ h) k;
}

pub empty-IsConsistent : IsConsistent empty_document
empty-IsConsistent = record {
  next = 1;
  counted = refl;
  audit = omega arith;
  revisions = λ s r e n h k. unfold lookup in ground arith;
}
