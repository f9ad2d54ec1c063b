-- ===== src/Lexer/Source.antt =====
-- `LexedSource.__init__` of mcp/gxp_core/source_lex.py: the source's comments, strings and regular expressions.
use look_lowcode.Prelude.{
  ℕ, zero, suc, ◌+◌, Bool, true, false, not, ◌&&◌, ◌||◌, Option, none, some, List, [], ◌∷◌, ◌++◌,
  length, nat_beq, if◌then◌else◌,
}
use look_lowcode.Lexer.Chars.{
  Chars, Alphabet, newline, among, first_chars, skip_chars, starts, plus, find_in, strip_left,
  blank,
}
use look_lowcode.Lexer.Ends.{backtick, quoted, verbatim, regex_end}
use look_lowcode.Lexer.Template.{template_end}

pub data Kind : Type 0 where
  comment text opaque regex : Kind

pub data Error : Type 0 where
  unclosed : Kind → ℕ → Error
  unsupported_raw_string : ℕ → Error

pub record Token : Type 0 where
  pub value : Chars
  pub at : ℕ
  pub ending : ℕ
  pub is_code : Bool

pub record Lexed : Type 0 where
  pub clean : Chars
  pub code : Chars
  pub errors : List Error
  pub strings : List Token

-- What `SPECIAL` finds.
pub data Special : Type 0 where
  line_comment block_comment at_quote triple one_quote slash : Special
  tick : Special
  two_quotes : Special

abbrev pub triple_quote : Chars
triple_quote = b'"' ∷ b'"' ∷ b'"' ∷ []

-- SPECIAL.match at a position
abbrev pub marker_at : Chars → Option Special
marker_at s =
    if starts (b'/' ∷ b'/' ∷ []) s
    then some line_comment
    else if starts (b'/' ∷ b'*' ∷ []) s
    then some block_comment
    else if starts (b'@' ∷ b'"' ∷ []) s
    then some at_quote
    else if starts triple_quote s
    then some triple
    else if starts (b'"' ∷ []) s
    then some two_quotes
    else if starts (b'\'' ∷ []) s
    then some one_quote
    else if starts (backtick ∷ []) s
    then some tick
    else if starts (b'/' ∷ []) s
    then some slash
    else none

-- A text up to its first marker, that marker, and the text from it on.
pub record Split : Type 0 where
  pub gap : Chars
  pub marker : Special
  pub tail : Chars

abbrev behind_char : ℕ → Option Split → Option Split
behind_char c none = none
behind_char c (some s) = some (record { gap = c ∷ s.gap; marker = s.marker; tail = s.tail })

abbrev pub split_or : ℕ → Chars → Option Split → Option Special → Option Split
split_or c s later none = behind_char c later
split_or c s later (some m) = some (record { gap = []; marker = m; tail = c ∷ s })

-- SPECIAL.search
unfoldable pub search_special : Chars → Option Split
search_special [] = none
search_special (c ∷ s) = split_or c s (search_special s) (marker_at (c ∷ s))

-- The text is copied, or so many characters of it are a token; `none` where that is not closed.
pub data Piece : Type 0 where
  copied : Piece
  token : Kind → Option ℕ → Piece

abbrev pub or_length : Chars → Option ℕ → ℕ
or_length s none = length s
or_length s (some n) = n

-- A word that ends in `return`, read backwards.
abbrev pub after_return : Alphabet → Chars → Bool
after_return al s =
    starts (b'n' ∷ b'r' ∷ b'u' ∷ b't' ∷ b'e' ∷ b'r' ∷ []) s
    && elim (skip_chars 6 s) [ [] ↦ true | c ∷ _ ↦ not (al.is_word c) ]

-- A slash begins a regular expression at the start, behind an operator or an opening bracket, and behind
-- `return`; `before` is the text in front of it, backwards.
abbrev pub regex_may_begin : Alphabet → Chars → Bool
regex_may_begin al before =
    elim (strip_left al.is_space (first_chars 128 before)) [
      | [] ↦ true
      | c ∷ _ ↦
          among (b'=' ∷ b'(' ∷ b'[' ∷ b'{' ∷ b',' ∷ b':' ∷ b';' ∷ b'!' ∷ b'?' ∷ b'&' ∷ b'|' ∷ []) c
    ]
    || after_return al (strip_left al.is_space (first_chars 12 before))

abbrev pub regex_piece : Option ℕ → Piece
regex_piece none = copied
regex_piece (some n) = token regex (some (suc n))

abbrev pub is_interpolated : Chars → Bool
is_interpolated before = starts (b'$' ∷ []) before

-- What stands at a marker. `s` is the text behind the marker's first character.
unfoldable pub piece : Alphabet → Bool → Chars → Special → Chars → Piece
unfolding quoted verbatim regex_end template_end
piece al csharp before line_comment s =
    token comment (some (suc (or_length s (find_in (newline ∷ []) s))))
piece al csharp before block_comment s =
    token comment (plus 4 (find_in (b'*' ∷ b'/' ∷ []) (skip_chars 1 s)))
piece al csharp before at_quote s = token text (plus 2 (verbatim (skip_chars 1 s)))
piece al csharp before triple s =
    token (if csharp then opaque else text) (plus 6 (find_in triple_quote (skip_chars 2 s)))
piece al csharp before two_quotes s =
    if csharp && is_interpolated before
    then token text (plus 1 (template_end al b'"' 0 0 (b'"' ∷ []) s))
    else token text (plus 1 (quoted b'"' false s))
piece al csharp before one_quote s = token text (plus 1 (quoted b'\'' false s))
piece al csharp before tick s = token text (plus 1 (template_end al backtick 0 0 (backtick ∷ []) s))
piece al csharp before slash s =
    if not csharp && regex_may_begin al before
    then regex_piece (regex_end al false false s)
    else copied

-- How much of the text from the marker on a piece takes.
abbrev pub width : Chars → Piece → ℕ
width tail copied = 1
width tail (token kind end) = or_length tail end

-- A text in front of what was read, backwards.
abbrev pub read_on : Chars → Chars → Chars
read_on [] before = before
read_on (c ∷ s) before = read_on s (c ∷ before)

-- self.line(offset), for the text up to the offset
abbrev pub line_of : Chars → ℕ
line_of [] = 1
line_of (c ∷ before) = let above = line_of before in if nat_beq c newline then suc above else above

abbrev pub clean_part : Piece → Chars → Chars
clean_part copied s = s
clean_part (token text _) s = s
clean_part (token _ _) s = blank s

abbrev pub code_part : Piece → Chars → Chars
code_part copied s = s
code_part (token _ _) s = blank s

abbrev opaque_error : Kind → ℕ → List Error
opaque_error opaque line = unsupported_raw_string line ∷ []
opaque_error _ line = []

abbrev piece_errors : Piece → ℕ → List Error
piece_errors copied line = []
piece_errors (token kind none) line = unclosed kind line ∷ opaque_error kind line
piece_errors (token kind (some n)) line = opaque_error kind line

abbrev piece_strings : Piece → Chars → ℕ → ℕ → List Token
piece_strings (token text _) s at n =
    record { value = s; at = at; ending = at + n; is_code = false } ∷ []
piece_strings _ s at n = []

-- The loop's step at a marker; `before` is the text in front of it, `n` the piece's width.
abbrev pub with_piece : Chars → Chars → Chars → Piece → ℕ → Lexed → Lexed
with_piece gap before tail p n rest = record {
  clean = gap ++ clean_part p (first_chars n tail) ++ rest.clean;
  code = gap ++ code_part p (first_chars n tail) ++ rest.code;
  errors = piece_errors p (line_of before) ++ rest.errors;
  strings = piece_strings p (first_chars n tail) (length before) n ++ rest.strings;
}

abbrev pub plain : Chars → Lexed
plain s = record { clean = s; code = s; errors = []; strings = [] }

-- The loop's step behind `before`, where `again` is the loop on what is behind the piece.
abbrev pub after_search :
    Alphabet → Bool → Chars → Chars → (Chars → Chars → Lexed) → Option Split → Lexed
after_search al csharp before s again none = plain s
after_search al csharp before s again (some found) =
    let here = read_on found.gap before in
    let p = piece al csharp here found.marker (skip_chars 1 found.tail) in
    let n = width found.tail p in
    with_piece found.gap here found.tail p n
      (again (read_on (first_chars n found.tail) here) (skip_chars n found.tail))

-- The loop, on the text behind the cursor.
unfoldable pub lex_from : ℕ → Alphabet → Bool → Chars → Chars → Lexed
unfolding search_special piece
lex_from zero al csharp before s = plain []
lex_from (suc fuel) al csharp before s =
    after_search al csharp before s (lex_from fuel al csharp) (search_special s)

unfoldable pub lexed : Alphabet → Bool → Chars → Lexed
unfolding lex_from
lexed al csharp s = lex_from (suc (length s)) al csharp [] s
