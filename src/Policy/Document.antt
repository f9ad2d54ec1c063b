-- ===== src/Policy/Document.antt =====
-- The policy document, the checks on identifiers, and reading the file
-- (mcp/gxp_core/relation_policy.py).
use Prim.Native.Char.{code}
use look_lowcode.Prelude.{
  ℕ, ◌+◌, String, Bool, true, false, ◌&&◌, ◌||◌, Option, none, some, List, [], ◌∷◌, leb, nat_beq,
  length, all, one_of, if◌then◌else◌,
}
use look_lowcode.Dict.{Dict, lookup, value_or}

pub data PolicyError : Type 0 where
  invalid_scope_id invalid_relation_id invalid_reason_code : PolicyError
  scope_missing invalid_restore_revision policy_unreadable : PolicyError

pub data Result {ℓ} (A : Type ℓ) : Type ℓ where
  ok : A → Result A
  err : PolicyError → Result A

infixl 10 ◌>>=◌ ◌>>◌
abbrev pub ◌>>=◌ {ℓ κ} : {A : Type ℓ} {B : Type κ} → Result A → (A → Result B) → Result B
ok a >>= f = f a
err e >>= f = err e

abbrev pub guard : Bool → PolicyError → Result (Unit {0})
guard true e = ok tt
guard false e = err e

abbrev pub ◌>>◌ {ℓ} : {B : Type ℓ} → Result (Unit {0}) → Result B → Result B
m >> k = m >>= λ _. k

abbrev codes : String → List ℕ
codes String.[] = []
codes (String.◌∷◌ c s) = code c ∷ codes s

abbrev between : ℕ → ℕ → ℕ → Bool
between lo hi c = leb lo c && leb c hi

-- [A-Za-z0-9_.-]
identifier_char : ℕ → Bool
identifier_char c =
    between b'A' b'Z' c
    || between b'a' b'z' c
    || between b'0' b'9' c
    || nat_beq c b'_'
    || nat_beq c b'.'
    || nat_beq c b'-'

-- [a-f0-9]
relation_char : ℕ → Bool
relation_char c = between b'a' b'f' c || between b'0' b'9' c

-- IDENTIFIER_RE.fullmatch
unfoldable pub is_identifier : String → Bool
unfolding identifier_char
is_identifier s =
    let cs = codes s in leb 1 (length cs) && leb (length cs) 128 && all identifier_char cs

-- RELATION_ID_RE.fullmatch
unfoldable pub is_relation_id : String → Bool
unfolding relation_char
is_relation_id s = let cs = codes s in nat_beq (length cs) 64 && all relation_char cs

unfoldable pub is_reason_code : String → Bool
is_reason_code s = one_of s (
    "user_confirmed_incorrect" ∷ "wrong_direction" ∷ "wrong_columns" ∷ "not_business_relation" ∷ [])

pub data State : Type 0 where
  rejected restored : State

abbrev pub is_rejected : State → Bool
is_rejected rejected = true
is_rejected restored = false

pub data Action : Type 0 where
  reject_first reject_repeat restore_first restore_repeat : Action

pub record Scope : Type 0 where
  pub scope_id : String
  pub revision : ℕ
  pub created_at : String
  pub imported_from : Option String

-- `last_restore_revision` may be absent in a document of an earlier release.
pub record Decision : Type 0 where
  pub relation_id : String
  pub state : State
  pub last_restore_revision : Option ℕ
  pub reason_code : String
  pub client_id : String
  pub created_at : String
  pub updated_at : String

pub record AuditEntry : Type 0 where
  pub audit_id : ℕ
  pub scope_id : String
  pub relation_id : String
  pub action : Action
  pub reason_code : String
  pub client_id : String
  pub created_at : String

pub record Document : Type 0 where
  pub next_audit_id : Option ℕ
  pub scopes : Dict Scope
  pub decisions : Dict (Dict Decision)
  pub audit : List AuditEntry

abbrev pub empty_document : Document
empty_document = record { next_audit_id = some 1; scopes = []; decisions = []; audit = [] }

-- The file on disk: `unreadable` stands for a file that is too large, no JSON, or of another shape.
pub data File : Type 0 where
  absent unreadable : File
  document : Document → File

abbrev pub revision_of : Option Scope → ℕ
revision_of none = 0
revision_of (some s) = s.revision

unfoldable pub migrated_decision : ℕ → Decision → Decision
migrated_decision revision d = record d {
  last_restore_revision = elim d.last_restore_revision [
    | none ↦ some (if is_rejected d.state then 0 else revision)
    | some r ↦ some r
  ];
}

unfoldable pub migrated_decisions : ℕ → Dict Decision → Dict Decision
unfolding migrated_decision
migrated_decisions revision [] = []
migrated_decisions revision ((k, d) ∷ rest) =
    (k, migrated_decision revision d) ∷ migrated_decisions revision rest

unfoldable pub migrated_scopes : Dict Scope → Dict (Dict Decision) → Dict (Dict Decision)
unfolding migrated_decisions
migrated_scopes scopes [] = []
migrated_scopes scopes ((scope_id, ds) ∷ rest) =
    (scope_id, migrated_decisions (revision_of (lookup scope_id scopes)) ds)
    ∷ migrated_scopes scopes rest

unfoldable pub lacks_restore_revision : Dict Decision → Bool
lacks_restore_revision [] = false
lacks_restore_revision ((k, d) ∷ rest) = elim d.last_restore_revision [
  | none ↦ true
  | some r ↦ lacks_restore_revision rest
]

unfoldable pub needs_migration : Dict (Dict Decision) → Bool
unfolding lacks_restore_revision
needs_migration [] = false
needs_migration ((k, ds) ∷ rest) = lacks_restore_revision ds || needs_migration rest

unfoldable pub migrated : Document → Document
unfolding migrated_scopes
migrated value = record value {
  next_audit_id = some (value_or (length value.audit + 1) value.next_audit_id);
  decisions = migrated_scopes value.scopes value.decisions;
}

-- `_read_unlocked`: the document, and the file afterwards, which a migration rewrites.
unfoldable pub read : File → Result Document × File
unfolding migrated needs_migration
read absent = (ok empty_document, absent)
read unreadable = (err policy_unreadable, unreadable)
read (document value) = (
  ok (migrated value),
  if needs_migration value.decisions then document (migrated value) else document value,
)

abbrev pub written {ℓ} : {A : Type ℓ} → File → Result (A × Document) → Result A × File
written file (err e) = (err e, file)
written file (ok (a, value)) = (ok a, document value)

-- `_mutate`: an operation that raises writes nothing.
unfoldable pub mutate {ℓ} :
    {A : Type ℓ} → (Document → Result (A × Document)) → File → Result A × File
unfolding read
mutate operation file = let (r, after_read) = read file in written after_read (r >>= operation)
