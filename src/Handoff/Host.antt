-- ===== src/Handoff/Host.antt =====
-- What the hand-off store (mcp/gxp_core/handoff_store.py) raises, what it takes from Python's library, and
-- its tests on JSON values.
use Prim.Native.Char.{code}
use Prim.Native.String.{count}
use look_lowcode.Prelude.{
  ℕ, ◌+◌, String, Bool, true, false, not, ◌&&◌, ◌||◌, none, some, List, [], ◌∷◌, leb, nat_beq, all,
  one_of, ◌==◌,
}
use look_lowcode.Json.{
  Runtime, Value, str, arr, obj, Items, nil, cons, Fields, end, field, field_at,
}
use look_lowcode.Condition.Text.{strip}
use look_lowcode.Outcome.{Outcome, raised, done}

-- The codes of `HandoffError`, and Python's own exceptions: `unicode_error` is a UnicodeEncodeError.
pub data Failure : Type 0 where
  limit format private_data design environment targets ambiguous_target : Failure
  target_not_found change_spec version identifier checksum not_found cursor : Failure
  response_limit type_error key_error value_error unicode_error : Failure

abbrev pub Attempt : Type 0 → Type 0
Attempt = Outcome Failure

-- What `json.loads` comes to: a value, a JSONDecodeError or RecursionError, or the plain ValueError for an
-- integer of more than 4300 digits.
pub data Decoded : Type 0 where
  bad_json long_integer : Decoded
  parsed_as : Value → Decoded

-- `encode` is `json.dumps` with sorted keys and no spaces, `printable` tells the values without an integer of
-- more than 4300 digits, for which it raises a ValueError, `decode` is `json.loads`, and `sha256` the
-- hexadecimal digest of a text's UTF-8.
pub record Host : Type 0 where
  pub runtime : Runtime
  pub encode : Value → String
  pub printable : Value → Bool
  pub decode : String → Decoded
  pub sha256 : String → String

abbrev pub field_names : Fields → List String
field_names end = []
field_names (field k v fs) = k ∷ field_names fs

abbrev pub elements : Items → List Value
elements nil = []
elements (cons v vs) = v ∷ elements vs

abbrev pub size : Items → ℕ
size nil = 0
size (cons v vs) = size vs + 1

abbrev pub field_count : Fields → ℕ
field_count end = 0
field_count (field k v fs) = field_count fs + 1

-- set(fields) <= names
abbrev pub within : List String → Fields → Bool
within names fs = all (λ k. one_of k names) (field_names fs)

abbrev pub has_field : String → Fields → Bool
has_field k fs = elim (field_at k fs) [ none ↦ false | some _ ↦ true ]

-- names <= set(fields)
abbrev pub has_fields : List String → Fields → Bool
has_fields names fs = all (λ k. has_field k fs) names

-- set(fields) == names
abbrev pub exactly : List String → Fields → Bool
exactly names fs = within names fs && has_fields names fs

-- fields[key]
abbrev pub item_at : String → Fields → Attempt Value
item_at k fs = elim (field_at k fs) [ none ↦ raised key_error | some v ↦ done v ]

-- value in {names}, where a value that cannot be hashed raises
abbrev pub in_names : Value → List String → Attempt Bool
in_names (str s) names = done (one_of s names)
in_names (arr _) names = raised type_error
in_names (obj _) names = raised type_error
in_names _ names = done false

abbrev pub is_text : Value → Bool
is_text (str s) = true
is_text _ = false

-- isinstance(value, str) and value.strip()
abbrev pub has_text : Runtime → Value → Bool
has_text py (str s) = not (strip py.is_space s == "")
has_text py _ = false

-- A text that `value.encode("utf-8")` does not raise for.
abbrev pub text_encodes : Runtime → Value → Bool
text_encodes py (str s) = py.encodable s
text_encodes py _ = false

abbrev is_hex_char : ℕ → Bool
is_hex_char c = leb b'0' c && leb c b'9' || leb b'a' c && leb c b'f'

unfoldable pub all_hex : String → Bool
all_hex String.[] = true
all_hex (String.◌∷◌ c s) = is_hex_char (code c) && all_hex s

-- _ID.fullmatch(text)
unfoldable pub is_id : String → Bool
unfolding all_hex
is_id s = nat_beq (count s) 32 && all_hex s

-- _HASH.fullmatch(text)
unfoldable pub is_hash : String → Bool
unfolding all_hex
is_hash s = nat_beq (count s) 64 && all_hex s
