-- ===== src/Handoff/Tests/Codec.antt =====
-- A JSON encoder with sorted keys and a decoder for the examples on the hand-off store
-- (mcp/gxp_core/handoff_store.py): for values without floating-point numbers, and texts without escapes.
use Prim.Native.Nat.{◌/◌, ◌%◌}
use Prim.Native.Char.{code}
use Prim.Native.String.{count, len, slice, ◌++◌}
use look_lowcode.Prelude.{
  ℕ, zero, suc, ◌+◌, ◌-◌, ◌*◌, String, true, false, ◌&&◌, ◌||◌, pos, negsuc, leb, ltb, nat_beq,
  ◌==◌, if◌then◌else◌, ◌≡◌, refl,
}
use look_lowcode.Json.{
  Value, null, bool, int, float, str, arr, obj, Items, nil, cons, Fields, end, field,
}
use look_lowcode.Outcome.{Outcome, raised, done, ◌>>=◌}
use look_lowcode.Handoff.Host.{Decoded, bad_json, parsed_as}
use look_lowcode.Handoff.Ordered.{insert_field, in_order}

unfoldable pub print_nat : ℕ → ℕ → String
print_nat zero n = ""
print_nat (suc fuel) n =
    let front = print_nat fuel (n / 10) in
    (if ltb n 10 then "" else front) ++ slice "0123456789" (n % 10) (n % 10 + 1)

abbrev quoted : String → String
quoted s = "\"" ++ s ++ "\""

unfoldable mutual
  pub print : Value → String
  print null = "null"
  print (bool b) = if b then "true" else "false"
  print (int (pos n)) = print_nat 20 n
  print (int (negsuc n)) = "-" ++ print_nat 20 (n + 1)
  print (float x) = "0.0"
  print (str s) = quoted s
  print (arr xs) = "[" ++ print_items xs ++ "]"
  print (obj fs) = "{" ++ print_fields fs ++ "}"

  pub print_items : Items → String
  print_items nil = ""
  print_items (cons v nil) = print v
  print_items (cons v (cons w xs)) = print v ++ "," ++ print_items (cons w xs)

  pub print_fields : Fields → String
  print_fields end = ""
  print_fields (field k v end) = quoted k ++ ":" ++ print v
  print_fields (field k v (field j w fs)) =
      quoted k ++ ":" ++ print v ++ "," ++ print_fields (field j w fs)

abbrev pub encode : Value → String
encode v = print (in_order v)

-- What a character begins.
pub data Lead : Type 0 where
  brace bracket quote closing comma letter digit other : Lead

abbrev lead_of : ℕ → Lead
lead_of c =
    if nat_beq c b'{'
    then brace
    else if nat_beq c b'['
    then bracket
    else if nat_beq c b'"'
    then quote
    else if nat_beq c b'}' || nat_beq c b']'
    then closing
    else if nat_beq c b','
    then comma
    else if leb b'a' c && leb c b'z'
    then letter
    else if leb b'0' c && leb c b'9'
    then digit
    else other

unfoldable pub lead : String → Lead
lead String.[] = other
lead (String.◌∷◌ c s) = lead_of (code c)

unfoldable pub rest_of : String → String
rest_of String.[] = ""
rest_of (String.◌∷◌ c s) = s

abbrev after_comma : String → String
after_comma s = elim (lead s) [ comma ↦ rest_of s | _ ↦ s ]

abbrev pub Parse : Type 0 → Type 0
Parse A = Outcome (Unit {0}) (A × String)

unfoldable pub take_text : String → Parse String
take_text String.[] = raised tt
take_text (String.◌∷◌ c s) = elim (nat_beq (code c) b'"') [
  | true ↦ done ("", s)
  | false ↦ take_text s >>= λ r. done (String.◌∷◌ c r.0, r.1)
]

unfoldable pub take_digits : ℕ → String → ℕ × String
take_digits n String.[] = (n, "")
take_digits n (String.◌∷◌ c s) = elim (leb b'0' (code c) && leb (code c) b'9') [
  | true ↦ take_digits (n * 10 + (code c - b'0')) s
  | false ↦ (n, String.◌∷◌ c s)
]

abbrev parse_number : String → Value × String
parse_number s = let (n, rest) = take_digits 0 s in (int (pos n), rest)

abbrev skip_four : String → String
skip_four s = rest_of (rest_of (rest_of (rest_of s)))

abbrev parse_word : String → Value × String
parse_word s =
    if slice s 0 4 == "null"
    then (null, skip_four s)
    else if slice s 0 4 == "true"
    then (bool true, skip_four s)
    else (bool false, rest_of (skip_four s))

unfoldable mutual
  pub parse_value : ℕ → Lead → String → Parse Value
  parse_value zero l s = raised tt
  parse_value (suc n) brace s =
      parse_fields n (lead (rest_of s)) (rest_of s) >>= λ r. done (obj r.0, r.1)
  parse_value (suc n) bracket s =
      parse_items n (lead (rest_of s)) (rest_of s) >>= λ r. done (arr r.0, r.1)
  parse_value (suc n) quote s = take_text (rest_of s) >>= λ r. done (str r.0, r.1)
  parse_value (suc n) letter s = done (parse_word s)
  parse_value (suc n) digit s = done (parse_number s)
  parse_value (suc n) _ s = raised tt

  pub parse_items : ℕ → Lead → String → Parse Items
  parse_items n closing s = done (nil, rest_of s)
  parse_items zero l s = raised tt
  parse_items (suc n) l s = parse_value n l s >>= λ r.
      parse_items n (lead (after_comma r.1)) (after_comma r.1) >>= λ more.
      done (cons r.0 more.0, more.1)

  pub parse_fields : ℕ → Lead → String → Parse Fields
  parse_fields n closing s = done (end, rest_of s)
  parse_fields (suc n) quote s = take_text (rest_of s) >>= λ k.
      parse_value n (lead (rest_of k.1)) (rest_of k.1) >>= λ r.
      parse_fields n (lead (after_comma r.1)) (after_comma r.1) >>= λ more.
      done (field k.0 r.0 more.0, more.1)
  parse_fields n l s = raised tt

unfoldable pub decode : String → Decoded
unfolding parse_value lead
decode s = elim (parse_value (count s + 1) (lead s) s) [
  | raised _ ↦ bad_json
  | done (v, rest) ↦ if nat_beq (len rest) 0 then parsed_as v else bad_json
]

decode-encode :
    decode (
      encode
        (obj (field "b" (arr (cons (int (pos 12)) (cons (str "x") nil))) (field "a" null end))))
    ≡ parsed_as
        (obj (field "a" null (field "b" (arr (cons (int (pos 12)) (cons (str "x") nil))) end)))
unfolding decode in_order insert_field print print_nat parse_value lead rest_of take_text
    take_digits
decode-encode = refl
