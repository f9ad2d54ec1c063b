-- ===== src/Handoff/ChangeSpec.antt =====
-- `validate_change_spec` of mcp/gxp_core/handoff_store.py.
use Prim.Native.String.{len}
use look_lowcode.Prelude.{ℕ, ◌*◌, String, Bool, true, false, none, some, List, [], ◌∷◌, leb}
use look_lowcode.Json.{Runtime, Value, null, str, arr, obj, Fields, field_at}
use look_lowcode.Condition.Build.{get}
use look_lowcode.Outcome.{raised, done, ◌>>=◌, ◌>>◌, require, each}
use look_lowcode.Handoff.Host.{
  limit, change_spec, unicode_error, Attempt, text_encodes, Host, elements, size, within, is_text,
  has_text,
}
use look_lowcode.Handoff.Finite.{finite, canonical_bytes}
use look_lowcode.Handoff.Diagnosis.{plain_text, validate_diagnosis}

abbrev spec_fields : List String
spec_fields = "user_request" ∷ "summary" ∷ "changes" ∷ "preserve" ∷ "scenarios" ∷ "diagnosis" ∷ []

abbrev change_fields : List String
change_fields =
    "group_key" ∷ "node_key" ∷ "description" ∷ "parameter_path" ∷ "before" ∷ "after" ∷ []

abbrev bytes_within : ℕ → Value → Bool
bytes_within n (str s) = leb (len s) n
bytes_within n _ = false

-- A field that, where it is present, is a list of at most 50 items.
abbrev list_field : Fields → String → Attempt (Unit {0})
list_field fs key = elim (field_at key fs) [
  | none ↦ done tt
  | some (arr xs) ↦ require (leb (size xs) 50) change_spec
  | some _ ↦ raised change_spec
]

-- spec.get(key, []), after `list_field`
abbrev pub list_of : String → Fields → List Value
list_of key fs = elim (field_at key fs) [ some (arr xs) ↦ elements xs | _ ↦ [] ]

abbrev is_change : Value → Bool
is_change (obj fs) = within change_fields fs
is_change _ = false

abbrev is_scenario : Value → Bool
is_scenario (str _) = true
is_scenario (obj fs) = within ("name" ∷ "description" ∷ "expected" ∷ []) fs
is_scenario _ = false

abbrev described_change : Runtime → Value → Attempt (Unit {0})
described_change py (obj fs) =
    plain_text py (get "group_key" null fs)
    >> plain_text py (get "node_key" null fs)
    >> plain_text py (get "description" null fs)
described_change py _ = raised change_spec

abbrev diagnosed : Runtime → Fields → Attempt (Unit {0})
diagnosed py fs = elim (field_at "diagnosis" fs) [
  | none ↦ done tt
  | some v ↦ validate_diagnosis py v >> each (described_change py) (list_of "changes" fs)
]

abbrev spec_size : Host → Value → Attempt (Unit {0})
spec_size host v = do
  payload ← canonical_bytes host v
  require (leb (len payload) (32 * 1024)) limit

unfoldable pub validate_change_spec : Host → Value → Attempt (Unit {0})
unfolding validate_diagnosis
validate_change_spec host (obj fs) =
    require (within spec_fields fs) change_spec
    >> require (has_text host.runtime (get "user_request" null fs)) change_spec
    >> require (has_text host.runtime (get "summary" null fs)) change_spec
    >> require (text_encodes host.runtime (get "summary" null fs)) unicode_error
    >> require (bytes_within 2048 (get "summary" null fs)) limit
    >> require (text_encodes host.runtime (get "user_request" null fs)) unicode_error
    >> require (bytes_within 8192 (get "user_request" null fs)) limit
    >> each (list_field fs) ("changes" ∷ "preserve" ∷ "scenarios" ∷ [])
    >> each (λ v. require (is_change v) change_spec) (list_of "changes" fs)
    >> each (λ v. require (is_text v) change_spec) (list_of "preserve" fs)
    >> each (λ v. require (is_scenario v) change_spec) (list_of "scenarios" fs)
    >> diagnosed host.runtime fs
    >> finite host.runtime 0 (obj fs)
    >> spec_size host (obj fs)
validate_change_spec host _ = raised change_spec
