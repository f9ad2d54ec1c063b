-- ===== src/Lexer/Ends.antt =====
-- Where a string, a template or a regular expression of a source ends (mcp/gxp_core/source_lex.py). An end is
-- how many characters there are up to it.
use look_lowcode.Prelude.{
  ℕ, suc, Bool, true, false, not, ◌&&◌, Option, none, some, [], ◌∷◌, nat_beq, if◌then◌else◌,
}
use look_lowcode.Lexer.Chars.{Chars, Alphabet, is_line_end, plus}

abbrev pub backtick : ℕ
backtick = 96

-- The rest of a string of single or double quotes, behind its first one; `escaped` behind a backslash.
unfoldable pub quoted : ℕ → Bool → Chars → Option ℕ
quoted quote escaped [] = none
quoted quote true (c ∷ s) = plus 1 (quoted quote false s)
quoted quote false (c ∷ s) =
    let rest = quoted quote (nat_beq c b'\\') s in
    if nat_beq c quote then some 1 else if is_line_end c then none else plus 1 rest

abbrev or_one : Option ℕ → Option ℕ
or_one none = some 1
or_one (some n) = some n

-- The rest of a C# string `@"..."`, where two quotes stand for one. The last pair of quotes ends a string
-- that nothing else ends.
unfoldable pub verbatim : Chars → Option ℕ
verbatim [] = none
verbatim (c ∷ []) = if nat_beq c b'"' then some 1 else none
verbatim (c ∷ d ∷ s) = elim (nat_beq c b'"') [
  | true ↦ elim (nat_beq d b'"') [ true ↦ or_one (plus 2 (verbatim s)) | false ↦ some 1 ]
  | false ↦ plus 1 (verbatim (d ∷ s))
]

abbrev alpha_run : Alphabet → Chars → ℕ
alpha_run al [] = 0
alpha_run al (c ∷ s) = let rest = alpha_run al s in if al.is_alpha c then suc rest else 0

-- The rest of a regular expression behind its first slash: within brackets or not, and behind a backslash
-- or not.
unfoldable pub regex_end : Alphabet → Bool → Bool → Chars → Option ℕ
regex_end al bracket escaped [] = none
regex_end al bracket true (c ∷ s) = plus 1 (regex_end al bracket false s)
regex_end al bracket false (c ∷ s) =
    let inside = if nat_beq c b'[' then true else if nat_beq c b']' then false else bracket in
    let rest = regex_end al inside (nat_beq c b'\\') s in
    if is_line_end c
    then none
    else if nat_beq c b'/' && not bracket
    then some (suc (alpha_run al s))
    else plus 1 rest
