-- ===== src/Lexer/Tests.antt =====
-- Examples on the lexer (mcp/gxp_core/source_lex.py).
use look_lowcode.Prelude.{
  ℕ, ◌+◌, ◌≤◌, true, false, ◌&&◌, ◌||◌, some, List, [], ◌∷◌, leb, nat_beq, arith, ◌≡◌, refl,
}
use look_lowcode.Outcome.{done}
use look_lowcode.Lexer.Chars.{Chars, Alphabet}
use look_lowcode.Lexer.Ends.{quoted, verbatim, regex_end}
use look_lowcode.Lexer.Template.{template_end}
use look_lowcode.Lexer.Source.{text, unclosed, Token, search_special, piece, lex_from, lexed}
use look_lowcode.Lexer.Blank.{is_blanked, lexed-Both}
use look_lowcode.Lexer.Pairs.{brackets, brackets_from, expression_end, split_arguments, split_from}
use look_lowcode.Lexer.Arguments.{Ranges, expression_end_ends, split_arguments-Ranges}

abbrev latin : Alphabet
latin = record {
  is_space = λ c. nat_beq c 32 || nat_beq c 10;
  is_alpha = λ c. leb 97 c && leb c 122;
  is_word = λ c. leb 97 c && leb c 122 || nat_beq c 95;
}

-- a="/"//b, a line end, c/d
abbrev source : Chars
source = b'a' ∷ b'=' ∷ b'"' ∷ b'/' ∷ b'"' ∷ b'/' ∷ b'/' ∷ b'b' ∷ 10 ∷ b'c' ∷ b'/' ∷ b'd' ∷ []

source_code :
    (lexed latin false source).code
    ≡ b'a' ∷ b'=' ∷ 32 ∷ 32 ∷ 32 ∷ 32 ∷ 32 ∷ 32 ∷ 10 ∷ b'c' ∷ b'/' ∷ b'd' ∷ []
unfolding lexed lex_from search_special piece quoted verbatim regex_end template_end
source_code = refl

lexed-Both_example :
    (is_blanked source (lexed latin false source).clean ≡ true)
    × (is_blanked source (lexed latin false source).code ≡ true)
lexed-Both_example = lexed-Both latin false source

-- An interpolated C# string with a dollar sign in front of a brace, $"${x}", is taken for one that is not
-- closed.
dollar_before_brace :
    (lexed latin true (b'$' ∷ b'"' ∷ b'$' ∷ b'{' ∷ b'x' ∷ b'}' ∷ b'"' ∷ [])).errors
    ≡ unclosed text 1 ∷ []
unfolding lexed lex_from search_special piece quoted verbatim regex_end template_end
dollar_before_brace = refl

abbrev letter : ℕ → ℕ → Token
letter at c = record { value = c ∷ []; at = at; ending = at + 1; is_code = true }

-- f(a,b)
abbrev call : List Token
call =
    letter 0 b'f'
    ∷ letter 1 b'('
    ∷ letter 2 b'a'
    ∷ letter 3 b','
    ∷ letter 4 b'b'
    ∷ letter 5 b')'
    ∷ []

call_pairs : (brackets call).pairs ≡ (1, 5) ∷ []
unfolding brackets brackets_from
call_pairs = refl

call_arguments : split_arguments call (brackets call).pairs 2 5 ≡ done ((2, 3) ∷ (4, 5) ∷ [])
unfolding split_arguments split_from brackets brackets_from
call_arguments = refl

call_ends : expression_end 7 call (brackets call).pairs 0 ≡ some 6
unfolding expression_end brackets brackets_from
call_ends = refl

expression_end_ends_example :
    (e : ℕ) × (expression_end 7 call (brackets call).pairs 0 ≡ some e) × (0 ≤ e)
expression_end_ends_example = expression_end_ends call 7 0 (omega arith)

split_arguments-Ranges_example :
    (rs : List (ℕ × ℕ)) × (split_arguments call (brackets call).pairs 2 5 ≡ done rs)
    × Ranges call 2 5 rs
split_arguments-Ranges_example = split_arguments-Ranges call 2 5 (omega arith)
