-- ===== src/Lexer/Chars.antt =====
-- Texts as lists of characters, by their codes, and the searches that mcp/gxp_core/source_lex.py makes.
use look_lowcode.Prelude.{
  ℕ, zero, suc, ◌+◌, Bool, true, false, ◌&&◌, ◌||◌, Option, none, some, List, [], ◌∷◌, nat_beq, any,
  if◌then◌else◌,
}

abbrev pub Chars : Type 0
Chars = List ℕ

-- `str.isspace`, `str.isalpha` and the regular expressions' `\w`, on a character.
pub record Alphabet : Type 0 where
  pub is_space : ℕ → Bool
  pub is_alpha : ℕ → Bool
  pub is_word : ℕ → Bool

abbrev pub newline : ℕ
newline = 10

abbrev pub is_line_end : ℕ → Bool
is_line_end c = nat_beq c 10 || nat_beq c 13

abbrev pub among : Chars → ℕ → Bool
among chars c = any (nat_beq c) chars

-- text[:n] and text[n:]
abbrev pub first_chars : ℕ → Chars → Chars
first_chars zero s = []
first_chars (suc n) [] = []
first_chars (suc n) (c ∷ s) = c ∷ first_chars n s

abbrev pub skip_chars : ℕ → Chars → Chars
skip_chars zero s = s
skip_chars (suc n) [] = []
skip_chars (suc n) (c ∷ s) = skip_chars n s

-- text.startswith(prefix)
abbrev pub starts : Chars → Chars → Bool
starts [] s = true
starts (p ∷ ps) [] = false
starts (p ∷ ps) (c ∷ s) = nat_beq p c && starts ps s

abbrev pub plus : ℕ → Option ℕ → Option ℕ
plus n none = none
plus n (some m) = some (n + m)

-- text.find(part), for a part that is not empty
abbrev pub find_in : Chars → Chars → Option ℕ
find_in part [] = none
find_in part (c ∷ s) =
    let later = find_in part s in if starts part (c ∷ s) then some 0 else plus 1 later

-- text.lstrip(), of a text that is read backwards: text.rstrip()
abbrev pub strip_left : (ℕ → Bool) → Chars → Chars
strip_left p [] = []
strip_left p (c ∷ s) = let rest = strip_left p s in if p c then rest else c ∷ s

-- re.sub(r"[^\r\n]+", lambda match: " " * len(match.group()), text)
abbrev pub blank : Chars → Chars
blank [] = []
blank (c ∷ s) = (if is_line_end c then c else 32) ∷ blank s
