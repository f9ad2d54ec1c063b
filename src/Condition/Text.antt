-- ===== src/Condition/Text.antt =====
-- The text work of canvas conditions (mcp/gxp_core/canvas.py): `_compact`, stripping, and the name at
-- the end of an expression.
use Prim.Native.Nat.{◌^◌}
use Prim.Native.Char.{code}
use Prim.Native.String.{[], ◌∷◌, ◌++◌}
use text.Mathlib.Text.{starts_with}
use mathlib.Core.Option
use look_lowcode.Prelude.{
  ℕ, ◌+◌, ◌*◌, String, Bool, true, false, not, ◌&&◌, ◌||◌, Option, none, some, leb, nat_beq,
  int_beq, ◌==◌, ends_with, pos, negsuc, ◌-◌, if◌then◌else◌,
}
use look_lowcode.Json.{Runtime, Value, null, bool, int, float, str, arr, obj, nil, cons, end, field}

abbrev negative_zero : ℕ
negative_zero = 2 ^ 63

-- The characters of a text in reverse order, in front of `tail`.
reverse_onto : String → String → String
reverse_onto tail [] = tail
reverse_onto tail (c ∷ s) = reverse_onto (c ∷ tail) s

unfoldable pub reversed : String → String
unfolding reverse_onto
reversed s = reverse_onto "" s

drop_while : (ℕ → Bool) → String → String
drop_while p [] = ""
drop_while p (c ∷ s) = if p (code c) then drop_while p s else c ∷ s

-- s.strip(), for a class of characters
unfoldable pub strip : (ℕ → Bool) → String → String
unfolding reversed drop_while
strip p s = reversed (drop_while p (reversed (drop_while p s)))

abbrev flush_tag : String → String
flush_tag seen = "<" ++ reversed seen

-- re.sub(r"<[^>]+>", "", s): `some seen` is the reverse of what stands behind an open `<`.
strip_tags : Option String → String → String
strip_tags none [] = ""
strip_tags (some seen) [] = flush_tag seen
strip_tags none (c ∷ s) =
    let inside = strip_tags (some "") s in
    let outside = strip_tags none s in if nat_beq (code c) b'<' then inside else c ∷ outside
strip_tags (some seen) (c ∷ s) =
    let inside = strip_tags (some (c ∷ seen)) s in
    let outside = strip_tags none s in
    if nat_beq (code c) b'>' then (if seen == "" then "<>" ++ outside else outside) else inside

-- re.sub(r"\s+", " ", s): `after` says that the last character was a space.
collapse : (ℕ → Bool) → Bool → String → String
collapse space after [] = ""
collapse space after (c ∷ s) =
    let blank = collapse space true s in
    let solid = collapse space false s in
    if space (code c) then (if after then blank else " " ++ blank) else c ∷ solid

unfoldable pub compact_text : Runtime → String → String
unfolding strip_tags collapse strip
compact_text py s = strip py.is_space (collapse py.is_space false (strip_tags none s))

-- Whether `value or ""` is the value.
unfoldable pub truthy : Value → Bool
truthy null = false
truthy (bool b) = b
truthy (int n) = not (int_beq n (pos 0))
truthy (float x) = not (nat_beq x 0 || nat_beq x negative_zero)
truthy (str s) = not (s == "")
truthy (arr nil) = false
truthy (arr (cons _ _)) = true
truthy (obj end) = false
truthy (obj (field _ _ _)) = true

-- str(value)
unfoldable pub text_of : Runtime → Value → String
text_of py (str s) = s
text_of py v = py.str_of v

-- `_compact`
unfoldable pub compact : Runtime → Value → String
unfolding compact_text truthy text_of
compact py v = compact_text py (if truthy v then text_of py v else "")

is_letter : ℕ → Bool
is_letter c = (leb b'a' c && leb c b'z') || (leb b'A' c && leb c b'Z') || nat_beq c b'_'

is_quote : ℕ → Bool
is_quote c = nat_beq c b'"' || nat_beq c 39

-- The characters up to the first that fails `p`, reversed, and the rest.
span_onto : (ℕ → Bool) → String → String → String × String
span_onto p seen [] = (seen, "")
span_onto p seen (c ∷ s) =
    let more = span_onto p (c ∷ seen) s in if p (code c) then more else (seen, c ∷ s)

opened : String → String → Option String
unfolding is_quote
opened name (q ∷ b ∷ _) =
    if not (name == "") && is_quote (code q) && nat_beq (code b) b'[' then some name else none
opened name _ = none

-- `['name']` or `["name"]` at the end, read from behind.
bracketed : String → Option String
unfolding is_quote span_onto opened
bracketed (b ∷ q ∷ s) =
    if nat_beq (code b) b']' && is_quote (code q)
    then (let (name, rest) = span_onto (λ c. not (is_quote c)) "" s in opened name rest)
    else none
bracketed _ = none

dot_before : String → String → Option String
unfolding is_letter
dot_before (c ∷ name) (d ∷ _) =
    if is_letter (code c) && nat_beq (code d) b'.' then some (c ∷ name) else none
dot_before _ _ = none

-- `.name` at the end, read from behind.
dotted : Runtime → String → Option String
unfolding span_onto dot_before
dotted py s =
    let (name, rest) = span_onto (λ c. py.is_alnum c || nat_beq c b'_') "" s in dot_before name rest

abbrev first_some : Option String → Option String → Option String
first_some none o = o
first_some (some s) o = some s

-- `$` also matches before a newline at the end.
drop_newline : String → String
drop_newline [] = ""
drop_newline (c ∷ s) = if nat_beq (code c) 10 then s else c ∷ s

-- The name that the search for `['name']` or `.name` at the end finds.
unfoldable pub tail_name : Runtime → String → Option String
unfolding bracketed dotted drop_newline reversed
tail_name py s =
    let back = drop_newline (reversed s) in first_some (bracketed back) (dotted py back)

abbrev digit_step : Option ℕ → Option ℕ → Option ℕ
digit_step (some n) (some d) = some (10 * n + d)
digit_step _ _ = none

-- The digits of a text as a number; `none` if it has another character.
decimal : Runtime → Option ℕ → String → Option ℕ
decimal py n [] = n
decimal py n (c ∷ s) = decimal py (digit_step n (py.digit (code c))) s

nonempty_decimal : Runtime → String → Option ℕ
unfolding decimal
nonempty_decimal py s = if s == "" then none else decimal py (some 0) s

-- What stands before the first point, and what behind it.
split_point : String → String × Option String
split_point [] = ("", none)
split_point (c ∷ s) =
    let (whole_part, fraction) = split_point s in
    if nat_beq (code c) b'.' then ("", some s) else (c ∷ whole_part, fraction)

abbrev signed : Bool → ℕ → Value
signed negative n = if negative && not (nat_beq n 0) then int (negsuc (n - 1)) else int (pos n)

unsigned_literal : Runtime → Bool → String → String × Option String → Option Value
unfolding nonempty_decimal
unsigned_literal py negative value (digits, none) =
    Option.map (signed negative) (nonempty_decimal py digits)
unsigned_literal py negative value (digits, some fraction) = elim (nonempty_decimal py digits) [
  | none ↦ none
  | some _ ↦ Option.map (λ _. float (py.float_of value)) (nonempty_decimal py fraction)
]

-- re.fullmatch(r"-?\d+(?:\.\d+)?", value), and the number
number_literal : Runtime → String → Option Value
unfolding unsigned_literal split_point
number_literal py [] = none
number_literal py (c ∷ s) =
    if nat_beq (code c) b'-'
    then unsigned_literal py true (c ∷ s) (split_point s)
    else unsigned_literal py false (c ∷ s) (split_point (c ∷ s))

-- value[1:-1]
inner : String → String
inner [] = ""
inner (c ∷ s) = reversed (tail_of (reversed s))
  where
    tail_of : String → String
    tail_of [] = ""
    tail_of (d ∷ t) = t

quoted_by : String → String → Bool
quoted_by q value = starts_with value q && ends_with value q

-- `_literal` of a text: `none` where it answers (False, None)
unfoldable pub literal : Runtime → String → Option Value
unfolding strip quoted_by inner number_literal
literal py source =
    let value = strip py.is_space source in
    if value == ""
    then none
    else if quoted_by "\"" value || quoted_by "'" value
    then some (str (inner value))
    else if py.lower value == "null"
    then some null
    else if py.lower value == "true"
    then some (bool true)
    else if py.lower value == "false"
    then some (bool false)
    else number_literal py value
