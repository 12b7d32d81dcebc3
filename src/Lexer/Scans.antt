-- ===== src/Lexer/Scans.antt =====
-- What the loops of getNextWord find in a name that was quoted before.
use fep3_base_utilities.Prelude.{
  ℕ, Bool, true, false, ◌&&◌, ◌||◌, Text, [], ◌∷◌, ◌++◌, ◌≡◌, refl, arith, ◌==◌, starts_with,
}
use fep3_base_utilities.Quoting.{backslash, double_quote, is_space, escape}
use fep3_base_utilities.Lexer.{outer, stepped, is_quote, scan_quoted, scan_word}

-- A backslash stands directly before a double quote.
abbrev pub clashes : Text → Bool
clashes [] = false
clashes (c ∷ name) = (c == backslash && starts_with (double_quote ∷ []) name) || clashes name

-- The next word cannot run on: the text is over, or a white space follows.
abbrev pub at_break : Text → Bool
at_break [] = true
at_break (c ∷ rest) = is_space c

pub scan_quoted-escape :
    (last : ℕ) (name rest : Text)
    → clashes (last ∷ name) ≡ false
    → scan_quoted true double_quote false last (escape name ++ double_quote ∷ rest)
      ≡ (escape name, double_quote ∷ rest)
unfolding scan_quoted escape
scan_quoted-escape last [] rest h = refl
scan_quoted-escape last (c ∷ name) rest h = ground (arith, scan_quoted-escape c name rest)

pub scan_word-outer :
    (c : ℕ) (s : Text)
    → is_quote c ≡ false
    → scan_word true outer 0 (c ∷ s) ≡ scan_word true stepped 0 (c ∷ s)
unfolding scan_word is_quote
scan_word-outer c s h = ground arith
