-- ===== src/Lexer/Pairs.antt =====
-- Brackets and what they enclose: `LexedSource.pairs`, `string_value`, `expression_end` and `split_arguments` of
-- mcp/gxp_core/source_lex.py, on the tokens of a source.
use look_lowcode.Prelude.{
  ℕ, zero, suc, ◌-◌, Bool, true, false, not, ◌&&◌, ◌||◌, Option, none, some, List, [], ◌∷◌, ltb,
  nat_beq, any, if◌then◌else◌,
}
use look_lowcode.Outcome.{Outcome, raised, done, ◌>>=◌}
use look_lowcode.Lexer.Chars.{Chars, skip_chars, starts}
use look_lowcode.Lexer.Source.{Token}

abbrev same_chars : Chars → Chars → Bool
same_chars [] [] = true
same_chars (c ∷ s) (d ∷ t) = nat_beq c d && same_chars s t
same_chars _ _ = false

-- token.value == c
abbrev pub is_char : ℕ → Token → Bool
is_char c t = same_chars t.value (c ∷ [])

abbrev pub is_opener : Token → Bool
is_opener t = is_char b'(' t || is_char b'[' t || is_char b'{' t

abbrev pub is_closer : Token → Bool
is_closer t = is_char b')' t || is_char b']' t || is_char b'}' t

-- tokens[top].value == closers[token.value]
abbrev pub closes : Token → Token → Bool
closes opener closer =
    is_char b')' closer && is_char b'(' opener
    || is_char b']' closer && is_char b'[' opener
    || is_char b'}' closer && is_char b'{' opener

-- A bracket's index and that of its partner, the opening one first.
abbrev pub Pair : Type 0
Pair = ℕ × ℕ

-- The loop's variables; an open bracket is on the stack with its token, and `unbalanced` has the offsets of
-- the errors, the last one first.
pub record Brackets : Type 0 where
  pub pairs : List Pair
  pub stack : List (ℕ × Token)
  pub unbalanced : List ℕ

abbrev pub close_bracket : ℕ → Token → Brackets → Brackets
close_bracket index t b = elim b.stack [
  | [] ↦ record b { unbalanced = t.at ∷ b.unbalanced }
  | (start, opener) ∷ rest ↦
      if closes opener t
      then record { pairs = (start, index) ∷ b.pairs; stack = rest; unbalanced = b.unbalanced }
      else record b { unbalanced = t.at ∷ b.unbalanced }
]

abbrev pub on_token : ℕ → Token → Brackets → Brackets
on_token index t b =
    if not t.is_code
    then b
    else if is_opener t
    then record b { stack = (index, t) ∷ b.stack }
    else if is_closer t
    then close_bracket index t b
    else b

unfoldable pub brackets_from : ℕ → List Token → Brackets → Brackets
brackets_from index [] b = b
brackets_from index (t ∷ ts) b = brackets_from (suc index) ts (on_token index t b)

-- `pairs`, with the offsets of its errors; whether a bracket is left open is whether the stack is empty.
unfoldable pub brackets : List Token → Brackets
unfolding brackets_from
brackets ts = brackets_from 0 ts (record { pairs = []; stack = []; unbalanced = [] })

-- pairs.get(index)
abbrev pub partner : List Pair → ℕ → Option ℕ
partner [] index = none
partner ((first, last) ∷ rest) index =
    let others = partner rest index in
    if nat_beq first index then some last else if nat_beq last index then some first else others

abbrev pub token_at : List Token → ℕ → Option Token
token_at [] index = none
token_at (t ∷ ts) zero = some t
token_at (t ∷ ts) (suc index) = token_at ts index

-- value[1:-1], and a doubled quote stands for one in an `@` string
abbrev undouble : Chars → Chars
undouble [] = []
undouble (c ∷ []) = c ∷ []
undouble (c ∷ d ∷ s) = elim (nat_beq c b'"' && nat_beq d b'"') [
  | true ↦ b'"' ∷ undouble s
  | false ↦ c ∷ undouble (d ∷ s)
]

abbrev drop_last : Chars → Chars
drop_last [] = []
drop_last (c ∷ []) = []
drop_last (c ∷ d ∷ s) = c ∷ drop_last (d ∷ s)

unfoldable pub string_value : Token → Chars
string_value t =
    if starts (b'@' ∷ b'"' ∷ []) t.value
    then undouble (drop_last (skip_chars 2 t.value))
    else drop_last (skip_chars 1 t.value)

abbrev stop_words : List Chars
stop_words =
    (b',' ∷ [])
    ∷ (b';' ∷ [])
    ∷ (b'}' ∷ [])
    ∷ (b')' ∷ [])
    ∷ (b']' ∷ [])
    ∷ (b'e' ∷ b'x' ∷ b'p' ∷ b'o' ∷ b'r' ∷ b't' ∷ [])
    ∷ (b'c' ∷ b'o' ∷ b'n' ∷ b's' ∷ b't' ∷ [])
    ∷ (b'l' ∷ b'e' ∷ b't' ∷ [])
    ∷ (b'v' ∷ b'a' ∷ b'r' ∷ [])
    ∷ []

abbrev pub stops : Token → Bool
stops t = t.is_code && any (same_chars t.value) stop_words

abbrev pub past_partner : Option ℕ → Option ℕ
past_partner none = none
past_partner (some other) = some (suc other)

-- Where an expression's cursor goes from a token; `none` is a break.
abbrev pub past : List Pair → ℕ → Token → Option ℕ
past pairs cursor t =
    if stops t
    then none
    else if t.is_code && is_opener t
    then past_partner (partner pairs cursor)
    else some (suc cursor)

abbrev pub end_at : ℕ → (ℕ → Option ℕ) → Option ℕ → Option ℕ
end_at cursor again none = some cursor
end_at cursor again (some next_cursor) = again next_cursor

abbrev pub past_token : List Pair → ℕ → Option Token → Option ℕ
past_token pairs cursor none = none
past_token pairs cursor (some t) = past pairs cursor t

-- `expression_end`; `none` means that the fuel ran out.
unfoldable pub expression_end : ℕ → List Token → List Pair → ℕ → Option ℕ
expression_end zero ts pairs cursor = none
expression_end (suc fuel) ts pairs cursor =
    end_at cursor (expression_end fuel ts pairs) (past_token pairs cursor (token_at ts cursor))

-- Why `split_arguments` gives no answer: a position behind the last token, or the fuel.
pub data Fault : Type 0 where
  index_error exhausted : Fault

abbrev pub angle : ℕ → Token → ℕ
angle depth t = if is_char b'<' t then suc depth else if is_char b'>' t then depth - 1 else depth

-- A comma that no angle brackets enclose.
abbrev pub is_comma : ℕ → Token → Bool
is_comma depth t = is_char b',' t && nat_beq (angle depth t) 0

abbrev pub over_partner : ℕ → Option ℕ → ℕ
over_partner cursor none = suc cursor
over_partner cursor (some other) = suc other

abbrev pub over : List Pair → ℕ → Token → ℕ
over pairs cursor t = if is_opener t then over_partner cursor (partner pairs cursor) else suc cursor

abbrev pub last_range : ℕ → ℕ → List (ℕ × ℕ)
last_range begin end = if ltb begin end then (begin, end) ∷ [] else []

abbrev pub range_if : Bool → ℕ → ℕ → Outcome Fault (List (ℕ × ℕ)) → Outcome Fault (List (ℕ × ℕ))
range_if true begin cursor rest = rest >>= λ ranges. done ((begin, cursor) ∷ ranges)
range_if false begin cursor rest = rest

abbrev pub split_at :
    (ℕ → ℕ → ℕ → Outcome Fault (List (ℕ × ℕ)))
    → List Pair
    → ℕ
    → ℕ
    → ℕ
    → Option Token
    → Outcome Fault (List (ℕ × ℕ))
split_at again pairs begin depth cursor none = raised index_error
split_at again pairs begin depth cursor (some t) =
    range_if (is_comma depth t) begin cursor
      (again (if is_comma depth t then suc cursor else begin) (angle depth t) (over pairs cursor t))

abbrev pub split_while :
    (ℕ → ℕ → ℕ → Outcome Fault (List (ℕ × ℕ)))
    → List Pair
    → ℕ
    → ℕ
    → ℕ
    → ℕ
    → Option Token
    → Bool
    → Outcome Fault (List (ℕ × ℕ))
split_while again pairs end begin depth cursor found true =
    split_at again pairs begin depth cursor found
split_while again pairs end begin depth cursor found false = done (last_range begin end)

-- The loop of `split_arguments` behind the cursor.
unfoldable pub split_from :
    ℕ → List Token → List Pair → ℕ → ℕ → ℕ → ℕ → Outcome Fault (List (ℕ × ℕ))
split_from zero ts pairs end begin depth cursor = raised exhausted
split_from (suc fuel) ts pairs end begin depth cursor =
    split_while (split_from fuel ts pairs end) pairs end begin depth cursor (token_at ts cursor)
      (ltb cursor end)

unfoldable pub split_arguments : List Token → List Pair → ℕ → ℕ → Outcome Fault (List (ℕ × ℕ))
unfolding split_from
split_arguments ts pairs start end = split_from (suc (end - start)) ts pairs end start 0 start
