-- ===== src/Lexer/Template.antt =====
-- Where a template string ends: `_template_end` of mcp/gxp_core/source_lex.py, for a template in backticks and
-- for an interpolated C# string.
use look_lowcode.Prelude.{
  ℕ, zero, suc, ◌-◌, Bool, true, false, ◌&&◌, ◌||◌, Option, none, some, [], ◌∷◌, nat_beq, all,
  if◌then◌else◌,
}
use look_lowcode.Lexer.Chars.{Chars, Alphabet, among, skip_chars, starts, plus, find_in}
use look_lowcode.Lexer.Ends.{backtick, quoted, regex_end}

-- What stands at the cursor, in the order of the tests.
pub data Sight : Type 0 where
  escape closing doubled opening nested : Sight
  in_quotes : ℕ → Sight
  line_comment block_comment slash open_brace close_brace plain : Sight

abbrev is_opening : ℕ → Chars → Bool
is_opening quote s = starts (b'$' ∷ b'{' ∷ []) s || nat_beq quote b'"' && starts (b'{' ∷ []) s

-- Outside of all braces.
abbrev sight_outside : ℕ → Chars → ℕ → Sight
sight_outside quote s c =
    if nat_beq c quote
    then closing
    else if is_opening quote s
    then (if nat_beq quote b'"' && starts (b'{' ∷ b'{' ∷ []) s then doubled else opening)
    else plain

-- A slash begins a regular expression behind one of these characters.
abbrev regex_may_stand : Alphabet → Chars → Bool
regex_may_stand al [] = true
regex_may_stand al (c ∷ before) =
    among (b'(' ∷ b'=' ∷ b',' ∷ b'[' ∷ []) c || al.is_space c && all al.is_space before

abbrev sight_inside : Alphabet → Chars → Chars → ℕ → Sight
sight_inside al before s c =
    if nat_beq c backtick
    then nested
    else if among (b'\'' ∷ b'"' ∷ []) c
    then in_quotes c
    else if starts (b'/' ∷ b'/' ∷ []) s
    then line_comment
    else if starts (b'/' ∷ b'*' ∷ []) s
    then block_comment
    else if nat_beq c b'/' && regex_may_stand al before
    then slash
    else if nat_beq c b'{'
    then open_brace
    else if nat_beq c b'}'
    then close_brace
    else plain

abbrev sight : Alphabet → ℕ → ℕ → Chars → ℕ → Chars → Sight
sight al quote zero before c s = if nat_beq c b'\\' then escape else sight_outside quote (c ∷ s) c
sight al quote (suc depth) before c s =
    if nat_beq c b'\\' then escape else sight_inside al before (c ∷ s) c

-- `return None`, the template's end, or how far the cursor goes on, at which depth.
pub data Move : Type 0 where
  fail : Move
  answer : Move
  go : ℕ → ℕ → Move

abbrev go_to : ℕ → Option ℕ → Move
go_to depth none = fail
go_to depth (some n) = go n depth

abbrev over_regex : ℕ → Option ℕ → Move
over_regex depth none = go 1 depth
over_regex depth (some n) = go (suc n) depth

-- `inner` is the end of a template that begins behind the cursor.
abbrev move : Alphabet → ℕ → ℕ → (Unit {0} → Option ℕ) → Chars → Sight → Move
move al quote depth inner s escape = go 2 depth
move al quote depth inner s closing = answer
move al quote depth inner s doubled = go 2 depth
move al quote depth inner s opening = go (if nat_beq quote backtick then 2 else 1) 1
move al quote depth inner s nested = go_to depth (plus 1 (inner tt))
move al quote depth inner s (in_quotes q) = go_to depth (plus 1 (quoted q false s))
move al quote depth inner s line_comment = go_to depth (plus 1 (find_in (10 ∷ []) s))
move al quote depth inner s block_comment =
    go_to depth (plus 4 (find_in (b'*' ∷ b'/' ∷ []) (skip_chars 1 s)))
move al quote depth inner s slash = over_regex depth (regex_end al false false s)
move al quote depth inner s open_brace = go 1 (suc depth)
move al quote depth inner s close_brace = go 1 (depth - 1)
move al quote depth inner s plain = go 1 depth

-- The rest of a template: `waits` characters are behind the cursor, and `before` is what was read, backwards.
unfoldable pub template_end : Alphabet → ℕ → ℕ → ℕ → Chars → Chars → Option ℕ
unfolding quoted regex_end
template_end al quote depth waits before [] = none
template_end al quote depth (suc waits) before (c ∷ s) =
    plus 1 (template_end al quote depth waits (c ∷ before) s)
template_end al quote depth zero before (c ∷ s) =
    elim (move al quote depth (λ _. template_end al backtick 0 0 (c ∷ []) s) s
      (sight al quote depth before c s)) [
        | fail ↦ none
        | answer ↦ some 1
        | go n next_depth ↦ plus 1 (template_end al quote next_depth (n - 1) (c ∷ before) s)
      ]
