-- ===== src/Policy/Files.antt =====
-- Every operation on the policy file keeps the invariant, also where it raises
-- (mcp/gxp_core/relation_policy.py).
use look_lowcode.Prelude.{
  ℕ, ◌≤◌, ℤ, pos, negsuc, pos_part, String, Bool, true, false, not, Option, none, some, List, [],
  ◌∷◌, all, any, ◌==◌, Bool-cases, inl, inr, ◌≡◌, refl, ap, arith, if◌then◌else◌,
}
use look_lowcode.Dict.{
  Dict, lookup, insert, set_default, value_or, lookup-insert, lookup-set_default,
}
use look_lowcode.Policy.Document.{
  PolicyError, invalid_relation_id, invalid_restore_revision, Result, ok, err, ◌>>=◌, ◌>>◌,
  is_relation_id, guard, Scope, Decision, Document, File, absent, unreadable, document, read,
  migrated, revision_of, mutate, written, needs_migration,
}
use look_lowcode.Policy.Store.{
  decisions_of, reject_in, restore_in, reject, restore, reject_relation, restore_relation, in_scope,
  checked, InitialPolicy, bad_restore, imported_decision, import_all, imported_scope,
  imported_relations, imported_document, new_scope, import_policy, create_new, create_from,
  create_scope,
}
use look_lowcode.Policy.Lookup.{decision_in}
use mathlib.Core.Path.{subst}
use look_lowcode.Policy.Consistent.{
  Within, IsConsistent, migrated-IsConsistent, reject_in-IsConsistent, restore_in-IsConsistent,
}

-- What is read from the file is consistent.
abbrev pub FileConsistent : File → Type 0
FileConsistent file = (value : Document) → (read file).0 ≡ ok value → IsConsistent value

pub ok-injective : {A : Type 0} (a b : A) → ok a ≡ ok b → a ≡ b
ok-injective a b h = cc

document-consistent : (value : Document) → IsConsistent value → FileConsistent (document value)
unfolding read
document-consistent value c v h =
    subst IsConsistent (ok-injective (migrated value) v h) (migrated-IsConsistent value c)

-- `op` keeps the invariant where it succeeds.
abbrev Keeps : (A : Type 0) → (Document → Result (A × Document)) → Type 0
Keeps A op =
    (value : Document)
    → IsConsistent value
    → (a : A) (value' : Document) → op value ≡ ok (a, value')
    → IsConsistent value'

reread_document :
    (b : Bool) (value : Document)
    → IsConsistent (migrated value)
    → FileConsistent (if b then document (migrated value) else document value)
unfolding read
reread_document true value c = document-consistent (migrated value) c
reread_document false value c = λ v h. subst IsConsistent (ok-injective (migrated value) v h) c

reread : (file : File) → FileConsistent file → FileConsistent (read file).1
unfolding read
reread absent c = c
reread unreadable c = c
reread (document value) c =
    reread_document (needs_migration value.decisions) value (c (migrated value) refl)

written-consistent :
    {A : Type 0} (o : Result (A × Document)) (before : File)
    → FileConsistent before
    → ((a : A) (value' : Document) → o ≡ ok (a, value') → IsConsistent value')
    → FileConsistent (written before o).1
written-consistent (err e) before c k = c
written-consistent (ok (a, value')) before c k = document-consistent value' (k a value' refl)

bound-consistent :
    {A : Type 0} (r : Result Document) (op : Document → Result (A × Document)) (before : File)
    → Keeps A op
    → FileConsistent before
    → ((value : Document) → r ≡ ok value → IsConsistent value)
    → FileConsistent (written before (r >>= op)).1
bound-consistent (err e) op before keeps c k = c
bound-consistent (ok value) op before keeps c k =
    written-consistent (op value) before c (keeps value (k value refl))

mutate-consistent :
    {A : Type 0} (op : Document → Result (A × Document)) (file : File)
    → Keeps A op
    → FileConsistent file
    → FileConsistent (mutate op file).1
unfolding mutate
mutate-consistent op file keeps c =
    bound-consistent (read file).0 op (read file).1 keeps (reread file c) c

checked-consistent :
    {A : Type 0} (g : Result (Unit {0})) (operation : File → Result A × File) (file : File)
    → FileConsistent file
    → FileConsistent (operation file).1
    → FileConsistent (checked g operation file).1
checked-consistent (ok _) operation file before after = after
checked-consistent (err e) operation file before after = before

in_scope-IsConsistent :
    {A : Type 0} (operation : Scope → Document → A × Document) (value : Document) (o : Option Scope)
    → ((scope : Scope) → o ≡ some scope → IsConsistent (operation scope value).1)
    → (a : A) (value' : Document) → in_scope operation value o ≡ ok (a, value')
    → IsConsistent value'
in_scope-IsConsistent operation value none keeps a value' h = absurd (ground arith)
in_scope-IsConsistent operation value (some scope) keeps a value' h =
    subst IsConsistent (ap (λ p. p.1) (ok-injective (operation scope value) (a, value') h))
      (keeps scope refl)

-- On a file whose document is consistent, if it can be read, `reject` leaves such a file, whether it
-- succeeds or raises.
pub reject-consistent :
    (s r code now : String) (file : File)
    → FileConsistent file
    → FileConsistent (reject s r code now file).1
unfolding reject
reject-consistent s r code now file c =
    checked-consistent _ (mutate (reject_relation s r code now)) file c (
      mutate-consistent (reject_relation s r code now) file
        (λ value k a value' h.
          in_scope-IsConsistent (reject_in s r code now) value (lookup s value.scopes)
            (λ scope found. reject_in-IsConsistent s r now scope value found k code) a value'
            (unfold reject_relation in h))
        c)

-- On a file whose document is consistent, if it can be read, `restore` leaves such a file, whether it
-- succeeds or raises.
pub restore-consistent :
    (s r now : String) (file : File) → FileConsistent file → FileConsistent (restore s r now file).1
unfolding restore
restore-consistent s r now file c =
    checked-consistent _ (mutate (restore_relation s r now)) file c (
      mutate-consistent (restore_relation s r now) file
        (λ value k a value' h.
          in_scope-IsConsistent (restore_in s r now) value (lookup s value.scopes)
            (λ scope found. restore_in-IsConsistent s r now scope value found k) a value'
            (unfold restore_relation in h))
        c)

restore_bound :
    (b : ℕ) (r : String) (items : List (String × ℤ))
    → any (bad_restore b) items ≡ false
    → pos_part (value_or (pos 0) (lookup r items)) ≤ b
unfolding lookup
restore_bound b r [] good = omega arith
restore_bound b r ((k, pos m) ∷ items) good = ground (arith, restore_bound b r items)
restore_bound b r ((k, negsuc m) ∷ items) good = ground (arith, restore_bound b r items)

module _ (policy : InitialPolicy) (now : String)
    (good : any (bad_restore (pos_part policy.revision)) policy.restore_revisions ≡ false) where
  abbrev bound : ℕ
  bound = pos_part policy.revision

  imported-Within : (r : String) → Within bound (some (imported_decision policy now r))
  unfolding imported_decision
  imported-Within r e n h k = ground (arith, restore_bound bound r policy.restore_revisions good)

  insert-Within :
      (ds : Dict Decision) (r j : String)
      → Within bound (lookup j ds)
      → Within bound (lookup j (insert r (imported_decision policy now r) ds))
  insert-Within ds r j w =
      rw (lookup-insert r j (imported_decision policy now r) ds) (elim (Bool-cases (r == j)) [
        | inl same ↦ rw same (imported-Within r)
        | inr other ↦ rw other w
      ])

  import_all-Within :
      (rs : List String) (ds : Dict Decision)
      → ((j : String) → Within bound (lookup j ds))
      → (j : String) → Within bound (lookup j (import_all policy now rs ds))
  unfolding import_all
  import_all-Within [] ds w j = w j
  import_all-Within (r ∷ rs) ds w j =
      import_all-Within rs (insert r (imported_decision policy now r) ds)
        (λ i. insert-Within ds r i (w i)) j

-- A new scope with decisions within its revision.
module _ (s : String) (scope : Scope) (ds : Dict Decision) (value : Document)
    (c : IsConsistent value) (new : lookup s value.scopes ≡ none)
    (w : (j : String) → Within scope.revision (lookup j ds)) where
  scoped-IsConsistent : IsConsistent (record value {
    scopes = insert s scope value.scopes;
    decisions = insert s ds value.decisions;
  })
  scoped-IsConsistent = record {
    next = c.next;
    counted = c.counted;
    audit = c.audit;
    revisions = λ s' r.
        rw (lookup-insert s s' scope value.scopes, lookup-insert s s' ds value.decisions)
          (elim (Bool-cases (s == s')) [
            | inl same ↦ rw same (w r)
            | inr other ↦ rw other (c.revisions s' r)
          ]);
  }

old-Within :
    (s : String) (value : Document) (bound : ℕ)
    → IsConsistent value
    → lookup s value.scopes ≡ none
    → (j : String) → Within bound (decision_in s j value)
old-Within s value bound c new j e n h k =
    omega (arith, c.revisions s j e n h k, ap revision_of new)

blank_scope-IsConsistent :
    (s now : String) (value : Document)
    → IsConsistent value
    → lookup s value.scopes ≡ none
    → IsConsistent (record value {
      scopes = insert s (new_scope s now) value.scopes;
      decisions = set_default s [] value.decisions;
    })
blank_scope-IsConsistent s now value c new = record {
  next = c.next;
  counted = c.counted;
  audit = c.audit;
  revisions = λ s' r.
      rw
        (
          lookup-insert s s' (new_scope s now) value.scopes,
          lookup-set_default s s' [] value.decisions,
        )
        (elim (Bool-cases (s == s')) [
          | inl same ↦ rw same (old-Within s value (new_scope s now).revision c new r)
          | inr other ↦ rw other (c.revisions s' r)
        ]);
}

guards-eq_ok :
    {A : Type 0} (b c d : Bool) (e f g : PolicyError) (x : A) {y : A}
    → (do guard b e; guard c f; guard d g; ok x) ≡ ok y
    → (d ≡ true) × (x ≡ y)
guards-eq_ok true true true e f g x h = (refl, cc)
guards-eq_ok true true false e f g x h = absurd (ground arith)
guards-eq_ok true false _ e f g x h = absurd (ground arith)
guards-eq_ok false _ _ e f g x h = absurd (ground arith)

not-true : (b : Bool) → not b ≡ true → b ≡ false
not-true true h = cc
not-true false h = refl

import_policy-IsConsistent :
    (s now : String) (policy : InitialPolicy) (value : Document)
    → IsConsistent value
    → lookup s value.scopes ≡ none
    → (scope : Scope) (value' : Document) → import_policy s now policy value ≡ ok (scope, value')
    → IsConsistent value'
unfolding import_policy
import_policy-IsConsistent s now policy value c new scope value' h =
    let (good, same) =
      guards-eq_ok (all is_relation_id policy.rejections)
        (all (λ p. is_relation_id p.0) policy.restore_revisions)
        (not (any (bad_restore (pos_part policy.revision)) policy.restore_revisions))
        invalid_relation_id invalid_relation_id invalid_restore_revision
        (imported_scope s now policy, imported_document s now policy value) h in
    subst IsConsistent (ap (λ p. p.1) same) (
      scoped-IsConsistent s (imported_scope s now policy)
        (import_all policy now (imported_relations policy) (decisions_of s value)) value c new
        (import_all-Within policy now
          (not-true (any (bad_restore (pos_part policy.revision)) policy.restore_revisions) good)
          (imported_relations policy) (decisions_of s value)
          (old-Within s value (pos_part policy.revision) c new)))

create_new-IsConsistent :
    (s now : String) (initial : Option InitialPolicy) (value : Document)
    → IsConsistent value
    → lookup s value.scopes ≡ none
    → (scope : Scope) (value' : Document) → create_new s now initial value ≡ ok (scope, value')
    → IsConsistent value'
unfolding create_new
create_new-IsConsistent s now none value c new scope value' h =
    subst IsConsistent (ap (λ p. p.1) (ok-injective _ (scope, value') h))
      (blank_scope-IsConsistent s now value c new)
create_new-IsConsistent s now (some policy) value c new scope value' h =
    import_policy-IsConsistent s now policy value c new scope value' h

create_from-IsConsistent :
    (s now : String) (initial : Option InitialPolicy) (value : Document) (o : Option Scope)
    → IsConsistent value
    → lookup s value.scopes ≡ o
    → (scope : Scope) (value' : Document) → create_from s now initial value o ≡ ok (scope, value')
    → IsConsistent value'
unfolding create_from
create_from-IsConsistent s now initial value none c e scope value' h =
    create_new-IsConsistent s now initial value c e scope value' h
create_from-IsConsistent s now initial value (some old) c e scope value' h =
    subst IsConsistent (ap (λ p. p.1) (ok-injective _ (scope, value') h)) c

-- On a file whose document is consistent, if it can be read, `create_scope` leaves such a file, with a
-- cache to import or without, whether it succeeds or raises.
pub create_scope-consistent :
    (s now : String) (initial : Option InitialPolicy) (file : File)
    → FileConsistent file
    → FileConsistent (create_scope s now initial file).1
unfolding create_scope
create_scope-consistent s now initial file c = checked-consistent _ (mutate operation) file c (
    mutate-consistent operation file
      (λ value k a value' h.
        create_from-IsConsistent s now initial value (lookup s value.scopes) k refl a value' h)
      c)
  where
    operation : Document → Result (Scope × Document)
    operation value = create_from s now initial value (lookup s value.scopes)
