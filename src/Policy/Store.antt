-- ===== src/Policy/Store.antt =====
-- The operations of `RelationPolicyStore` (mcp/gxp_core/relation_policy.py). `now` is the clock's text.

use look_lowcode.Prelude.{
  ℕ, ℤ, pos, pos_part, ltb_ℤ, ◌+◌, String, Bool, false, ◌||◌, not, Option, none, some, List, [],
  ◌∷◌, ◌++◌, one_of, any, all, map, if◌then◌else◌,
}
use look_lowcode.Dict.{Dict, lookup, insert, set_default, value_or}
use look_lowcode.Policy.Document.{
  Result, ok, err, ◌>>◌, guard, invalid_scope_id, invalid_relation_id, invalid_reason_code,
  scope_missing, invalid_restore_revision, is_identifier, is_relation_id, is_reason_code, State,
  rejected, restored, is_rejected, Action, reject_first, reject_repeat, restore_first,
  restore_repeat, Scope, Decision, Document, File, mutate,
}

-- The decisions of a scope; `setdefault` and `get` with `{}` agree on it.
abbrev pub decisions_of : String → Document → Dict Decision
decisions_of scope_id value = value_or [] (lookup scope_id value.decisions)

unfoldable pub append_audit :
    String → String → Action → String → String → String → Document → Document
append_audit scope_id relation_id action reason_code client_id now value =
    let audit_id = value_or 1 value.next_audit_id in
    record value {
      next_audit_id = some (audit_id + 1);
      audit =
          value.audit
          ++ record {
            audit_id = audit_id;
            scope_id = scope_id;
            relation_id = relation_id;
            action = action;
            reason_code = reason_code;
            client_id = client_id;
            created_at = now;
          }
            ∷ [];
    }

abbrev pub was_rejected : Option Decision → Bool
was_rejected none = false
was_rejected (some d) = is_rejected d.state

abbrev pub created : String → Option Decision → String
created now none = now
created now (some d) = d.created_at

-- (current or {}).get("last_restore_revision", revision if current is restored else 0)
abbrev pub restore_revision : ℕ → Option Decision → ℕ
restore_revision revision none = 0
restore_revision revision (some d) =
    value_or (if is_rejected d.state then 0 else revision) d.last_restore_revision

-- (current or {}).get("last_restore_revision", revision if current else 0)
abbrev pub kept_revision : ℕ → Option Decision → ℕ
kept_revision revision none = 0
kept_revision revision (some d) = value_or revision d.last_restore_revision

-- What `reject` and `restore` return: `flag` is `repeated` of the one and `changed` of the other.
pub record Reply : Type 0 where
  pub relation_id : String
  pub state : State
  pub revision : ℕ
  pub flag : Bool

abbrev pub put_decision : String → String → Decision → Document → Document
put_decision scope_id relation_id d value = record value {
  decisions = insert scope_id (insert relation_id d (decisions_of scope_id value)) value.decisions;
}

abbrev pub put_scope : String → Scope → Document → Document
put_scope scope_id scope value = record value { scopes = insert scope_id scope value.scopes }

abbrev pub next_revision : Bool → ℕ → ℕ
next_revision moved revision = if moved then revision + 1 else revision

unfoldable pub rejection : ℕ → Option Decision → String → String → String → Decision
rejection revision current relation_id reason_code now = record {
  relation_id = relation_id;
  state = rejected;
  last_restore_revision = some (restore_revision revision current);
  reason_code = reason_code;
  client_id = "local";
  created_at = created now current;
  updated_at = now;
}

unfoldable pub reject_in : String → String → String → String → Scope → Document → Reply × Document
unfolding rejection append_audit
reject_in scope_id relation_id reason_code now scope value =
    let current = lookup relation_id (decisions_of scope_id value) in
    let repeated = was_rejected current in
    let revision = next_revision (not repeated) scope.revision in
    (
      record { relation_id = relation_id; state = rejected; revision = revision; flag = repeated },
      put_scope scope_id (record scope { revision = revision })
          (append_audit scope_id relation_id (if repeated then reject_repeat else reject_first)
            reason_code "local" now
            (put_decision scope_id relation_id
              (rejection scope.revision current relation_id reason_code now) value)),
    )

abbrev pub in_scope {ℓ} :
    {A : Type ℓ}
    → (Scope → Document → A × Document)
    → Document
    → Option Scope
    → Result (A × Document)
in_scope operation value none = err scope_missing
in_scope operation value (some scope) = ok (operation scope value)

unfoldable pub reject_relation :
    String → String → String → String → Document → Result (Reply × Document)
reject_relation scope_id relation_id reason_code now value =
    in_scope (reject_in scope_id relation_id reason_code now) value (lookup scope_id value.scopes)

unfoldable pub restoration : ℕ → Option Decision → String → String → Decision
restoration revision current relation_id now = record {
  relation_id = relation_id;
  state = restored;
  last_restore_revision =
      some (if was_rejected current then revision + 1 else kept_revision revision current);
  reason_code = "admin_restore";
  client_id = "local";
  created_at = created now current;
  updated_at = now;
}

unfoldable pub restore_in : String → String → String → Scope → Document → Reply × Document
unfolding restoration append_audit
restore_in scope_id relation_id now scope value =
    let current = lookup relation_id (decisions_of scope_id value) in
    let changed = was_rejected current in
    let revision = next_revision changed scope.revision in
    (
      record { relation_id = relation_id; state = restored; revision = revision; flag = changed },
      put_scope scope_id (record scope { revision = revision })
          (append_audit scope_id relation_id (if changed then restore_first else restore_repeat)
            "admin_restore" "local" now
            (put_decision scope_id relation_id (restoration scope.revision current relation_id now)
              value)),
    )

unfoldable pub restore_relation : String → String → String → Document → Result (Reply × Document)
restore_relation scope_id relation_id now value =
    in_scope (restore_in scope_id relation_id now) value (lookup scope_id value.scopes)

abbrev pub checked {ℓ} :
    {A : Type ℓ} → Result (Unit {0}) → (File → Result A × File) → File → Result A × File
checked (ok _) operation file = operation file
checked (err e) operation file = (err e, file)

unfoldable pub reject : String → String → String → String → File → Result Reply × File
reject scope_id relation_id reason_code now =
    checked
      (do
        guard (is_identifier scope_id) invalid_scope_id
        guard (is_relation_id relation_id) invalid_relation_id
        guard (is_reason_code reason_code) invalid_reason_code)
      (mutate (reject_relation scope_id relation_id reason_code now))

unfoldable pub restore : String → String → String → File → Result Reply × File
restore scope_id relation_id now =
    checked
      (do
        guard (is_identifier scope_id) invalid_scope_id
        guard (is_relation_id relation_id) invalid_relation_id)
      (mutate (restore_relation scope_id relation_id now))

-- The cache of an earlier release that `create_scope` may start from.
pub record InitialPolicy : Type 0 where
  pub revision : ℤ
  pub rejections : List String
  pub restore_revisions : List (String × ℤ)

abbrev pub bad_restore : ℕ → String × ℤ → Bool
bad_restore revision (_, item) = ltb_ℤ item (pos 0) || ltb_ℤ (pos revision) item

unfoldable pub imported_decision : InitialPolicy → String → String → Decision
imported_decision policy now relation = record {
  relation_id = relation;
  state = if one_of relation policy.rejections then rejected else restored;
  last_restore_revision =
      some (pos_part (value_or (pos 0) (lookup relation policy.restore_revisions)));
  reason_code = "imported_local_cache";
  client_id = "local_cache_migration";
  created_at = now;
  updated_at = now;
}

unfoldable pub import_all : InitialPolicy → String → List String → Dict Decision → Dict Decision
unfolding imported_decision
import_all policy now [] ds = ds
import_all policy now (relation ∷ rest) ds =
    import_all policy now rest (insert relation (imported_decision policy now relation) ds)

unfoldable pub new_scope : String → String → Scope
new_scope scope_id now = record {
  scope_id = scope_id;
  revision = 0;
  created_at = now;
  imported_from = none;
}

abbrev pub imported_scope : String → String → InitialPolicy → Scope
imported_scope scope_id now policy = record (new_scope scope_id now) {
  revision = pos_part policy.revision;
  imported_from = some "existing_local_cache";
}

-- Every relation of `rejected | restores.keys()`; the order has no effect on the dictionary.
abbrev pub imported_relations : InitialPolicy → List String
imported_relations policy = policy.rejections ++ map (λ p. p.0) policy.restore_revisions

abbrev pub imported_document : String → String → InitialPolicy → Document → Document
imported_document scope_id now policy value =
    put_scope scope_id (imported_scope scope_id now policy) (record value {
      decisions =
          insert scope_id
            (import_all policy now (imported_relations policy) (decisions_of scope_id value))
            value.decisions;
    })

unfoldable pub import_policy :
    String → String → InitialPolicy → Document → Result (Scope × Document)
unfolding import_all new_scope
import_policy scope_id now policy value = do
  guard (all is_relation_id policy.rejections) invalid_relation_id
  guard (all (λ p. is_relation_id p.0) policy.restore_revisions) invalid_relation_id
  guard (not (any (bad_restore (pos_part policy.revision)) policy.restore_revisions))
      invalid_restore_revision
  ok (imported_scope scope_id now policy, imported_document scope_id now policy value)

unfoldable pub create_new :
    String → String → Option InitialPolicy → Document → Result (Scope × Document)
unfolding import_policy new_scope
create_new scope_id now none value = ok (
  new_scope scope_id now,
  put_scope scope_id (new_scope scope_id now)
      (record value { decisions = set_default scope_id [] value.decisions }),
)
create_new scope_id now (some policy) value = import_policy scope_id now policy value

unfoldable pub create_from :
    String → String → Option InitialPolicy → Document → Option Scope → Result (Scope × Document)
unfolding create_new
create_from scope_id now initial value (some scope) = ok (scope, value)
create_from scope_id now initial value none = create_new scope_id now initial value

unfoldable pub create_scope : String → String → Option InitialPolicy → File → Result Scope × File
unfolding mutate create_from
create_scope scope_id now initial =
    checked (guard (is_identifier scope_id) invalid_scope_id)
      (mutate (λ value. create_from scope_id now initial value (lookup scope_id value.scopes)))
