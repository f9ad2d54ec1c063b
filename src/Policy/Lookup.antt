-- ===== src/Policy/Lookup.antt =====
-- Looking a decision up after an operation and after a migration
-- (mcp/gxp_core/relation_policy.py).
use look_lowcode.Prelude.{
  ℕ, String, Option, none, some, [], ◌∷◌, ◌==◌, Bool-cases, inl, inr, eq_refl, eq_iff, ◌≡◌, refl,
  ◌∙◌, ap, arith,
}
use look_lowcode.Dict.{Dict, lookup, insert, value_or, lookup-insert}
use look_lowcode.Policy.Document.{
  Result, ok, err, ◌>>=◌, Scope, Decision, Document, File, document, read, mutate, migrated,
  migrated_scopes, migrated_decisions, migrated_decision, revision_of, written,
}
use look_lowcode.Policy.Store.{
  decisions_of, put_decision, Reply, reject_in, reject_relation, restore_in, restore_relation,
  in_scope, reject, restore, checked,
}

pub lookup-insert_self {ℓ} :
    {V : Type ℓ} (k : String) (v : V) (d : Dict V) → lookup k (insert k v d) ≡ some v
lookup-insert_self k v d = lookup-insert k k v d ∙ rw (eq_refl k) refl

-- The decision on `relation` in `scope_id`.
abbrev pub decision_in : String → String → Document → Option Decision
decision_in scope_id relation value = lookup relation (decisions_of scope_id value)

abbrev pub map_option : (Decision → Decision) → Option Decision → Option Decision
map_option f none = none
map_option f (some d) = some (f d)

lookup-migrated_decisions :
    (revision : ℕ) (r : String) (ds : Dict Decision)
    → lookup r (migrated_decisions revision ds)
      ≡ map_option (migrated_decision revision) (lookup r ds)
unfolding lookup migrated_decisions
lookup-migrated_decisions revision r [] = refl
lookup-migrated_decisions revision r ((k, d) ∷ rest) =
    ground (arith, lookup-migrated_decisions revision r rest)

lookup-migrated_scopes :
    (scopes : Dict Scope) (s r : String) (ds : Dict (Dict Decision))
    → lookup r (value_or [] (lookup s (migrated_scopes scopes ds)))
      ≡ map_option
          (migrated_decision (revision_of (lookup s scopes)))
          (lookup r (value_or [] (lookup s ds)))
unfolding migrated_scopes lookup
lookup-migrated_scopes scopes s r [] = refl
lookup-migrated_scopes scopes s r ((k, d) ∷ rest) = elim (Bool-cases (k == s)) [
  | inl same ↦
      rw same
        (rw ((eq_iff k s).0 same) (lookup-migrated_decisions (revision_of (lookup s scopes)) r d))
  | inr other ↦ rw other (lookup-migrated_scopes scopes s r rest)
]

-- A migration fills in the restore revision of a decision and leaves the rest.
pub decision_in-migrated :
    (s r : String) (value : Document)
    → decision_in s r (migrated value)
      ≡ map_option (migrated_decision (revision_of (lookup s value.scopes))) (decision_in s r value)
unfolding migrated
decision_in-migrated s r value = lookup-migrated_scopes value.scopes s r value.decisions

pub decision_in-put :
    (s r : String) (d : Decision) (value : Document)
    → decision_in s r (put_decision s r d value) ≡ some d
decision_in-put s r d value =
    rw (lookup-insert_self s (insert r d (decisions_of s value)) value.decisions)
      (lookup-insert_self r d (decisions_of s value))

written-eq_ok :
    {A : Type 0} (o : Result (A × Document)) (before after : File) {a : A}
    → written before o ≡ (ok a, after)
    → (value' : Document) × (o ≡ ok (a, value')) × (after ≡ document value')
written-eq_ok (ok (b, value')) before after h = (value', ground arith, ground arith)
written-eq_ok (err e) before after h = ground arith

bound-eq_ok :
    {A : Type 0} (r : Result Document) (operation : Document → Result (A × Document))
    (before after : File) {a : A}
    → written before (r >>= operation) ≡ (ok a, after)
    → (value : Document) × (value' : Document) × (r ≡ ok value)
      × (operation value ≡ ok (a, value'))
      × (after ≡ document value')
bound-eq_ok (ok value) operation before after h =
    let (value', e, f) = written-eq_ok (operation value) before after h in
    (value, value', refl, e, f)
bound-eq_ok (err e) operation before after h = ground arith

-- What a successful `_mutate` has done.
pub mutate-eq_ok :
    {A : Type 0} (operation : Document → Result (A × Document)) (file file' : File) {a : A}
    → mutate operation file ≡ (ok a, file')
    → (value : Document) × (value' : Document) × ((read file).0 ≡ ok value)
      × (operation value ≡ ok (a, value'))
      × (file' ≡ document value')
unfolding mutate
mutate-eq_ok operation file file' h = bound-eq_ok (read file).0 operation (read file).1 file' h

in_scope-eq_ok :
    {A : Type 0} (operation : Scope → Document → A × Document) (value : Document) (o : Option Scope)
    {p : A × Document}
    → in_scope operation value o ≡ ok p
    → (scope : Scope) × (o ≡ some scope) × (p ≡ operation scope value)
in_scope-eq_ok operation value none h = ground arith
in_scope-eq_ok operation value (some scope) h = (scope, refl, ground arith)

checked-eq_ok :
    {A : Type 0} (c : Result (Unit {0})) (operation : File → Result A × File) (file file' : File)
    {a : A}
    → checked c operation file ≡ (ok a, file')
    → operation file ≡ (ok a, file')
checked-eq_ok (ok _) operation file file' h = h
checked-eq_ok (err e) operation file file' h = ground arith

-- What a successful rejection has read and written.
pub reject-eq_ok :
    (s r code now : String) (file file' : File) (reply : Reply)
    → reject s r code now file ≡ (ok reply, file')
    → (value : Document) × (scope : Scope) × ((read file).0 ≡ ok value)
      × (lookup s value.scopes ≡ some scope)
      × (reply ≡ (reject_in s r code now scope value).0)
      × (file' ≡ document (reject_in s r code now scope value).1)
unfolding reject reject_relation
reject-eq_ok s r code now file file' reply h =
    let (value, value', ran, done, wrote) =
      mutate-eq_ok (reject_relation s r code now) file file'
        (checked-eq_ok _ (mutate (reject_relation s r code now)) file file' h) in
    let (scope, found, e) =
      in_scope-eq_ok (reject_in s r code now) value (lookup s value.scopes) done in
    (value, scope, ran, found, ap (λ p. p.0) e, wrote ∙ ap (λ p. document p.1) e)

-- What a successful restoration has read and written.
pub restore-eq_ok :
    (s r now : String) (file file' : File) (reply : Reply)
    → restore s r now file ≡ (ok reply, file')
    → (value : Document) × (scope : Scope) × ((read file).0 ≡ ok value)
      × (lookup s value.scopes ≡ some scope)
      × (reply ≡ (restore_in s r now scope value).0)
      × (file' ≡ document (restore_in s r now scope value).1)
unfolding restore restore_relation
restore-eq_ok s r now file file' reply h =
    let (value, value', ran, done, wrote) =
      mutate-eq_ok (restore_relation s r now) file file'
        (checked-eq_ok _ (mutate (restore_relation s r now)) file file' h) in
    let (scope, found, e) =
      in_scope-eq_ok (restore_in s r now) value (lookup s value.scopes) done in
    (value, scope, ran, found, ap (λ p. p.0) e, wrote ∙ ap (λ p. document p.1) e)
