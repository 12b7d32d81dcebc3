-- ===== src/Lexer/Names.antt =====
-- The first word of a line that begins with a quoted name, for every name.
use fep3_base_utilities.Prelude.{
  ℕ, Bool, true, false, ◌&&◌, ◌||◌, Option, none, some, [], ◌∷◌, ◌++◌, ◌≡◌, ◌≢◌, refl, Text, arith,
  ◌==◌, any, if◌then◌else◌,
}
use fep3_base_utilities.Quoting.{
  backslash, double_quote, single_quote, is_space, needs_escape, escape, un_escape, un_escape_from,
}
use fep3_base_utilities.Lexer.{Place, stepped, inner, is_quote, escapes, scan_quoted, scan_word}
use fep3_base_utilities.Lexer.Scans.{clashes, at_break}

-- The quotation that is open behind a name that is not put in quotes itself. The name opens one with each
-- kind of quote; the next single quote ends one of single quotes, and a double quote directly behind a
-- backslash one of double quotes. `previous` is the character before.
abbrev pub open_quote : Option ℕ → ℕ → Text → Option ℕ
open_quote quote previous [] = quote
open_quote none previous (c ∷ name) =
    let opened = open_quote (some c) c name in
    let closed = open_quote none c name in if is_quote c then opened else closed
open_quote (some quote) previous (c ∷ name) =
    let kept = open_quote (some quote) c name in
    let closed = open_quote none c name in
    if c == quote && (c == single_quote || previous == backslash) then closed else kept

-- Where the loops over a word stand with such a quotation.
abbrev place_of : Option ℕ → Place
place_of none = stepped
place_of (some quote) = inner quote false

-- Only quotes open a quotation.
abbrev opens : Option ℕ → Bool
opens none = true
opens (some quote) = is_quote quote

-- In a name in quotes, a backslash directly before a double quote ends the word at a backslash.
pub scan_quoted-clashes :
    (last : ℕ) (name rest : Text)
    → clashes (last ∷ name) ≡ true
    → un_escape (scan_quoted true double_quote false last (escape name ++ double_quote ∷ rest)).0
      ≢ name
unfolding scan_quoted escape escapes un_escape un_escape_from needs_escape
scan_quoted-clashes last [] rest h = ground arith
scan_quoted-clashes last (c ∷ name) rest h = ground (arith, scan_quoted-clashes c name rest)

-- A word that starts in single quotes does not start with a single quote itself.
pub scan_quoted_single :
    (name rest : Text)
    → at_break rest ≡ true
    → un_escape (scan_quoted true single_quote false 0 (escape name ++ rest)).0
      ≢ single_quote ∷ name
unfolding scan_quoted escape escapes un_escape un_escape_from needs_escape is_space
scan_quoted_single [] [] h = ground arith
scan_quoted_single [] (r ∷ rest) h = ground arith
scan_quoted_single (c ∷ name) rest h = ground arith

-- Outside of a quotation the character before does not count.
scan_word_previous : (k l : ℕ) (s : Text) → scan_word true stepped k s ≡ scan_word true stepped l s
unfolding scan_word is_quote
scan_word_previous k l [] = refl
scan_word_previous k l (c ∷ s) = ground (arith, scan_word_previous k l s)

-- Behind a name with no white space, and at a break, the word is over where no quotation is open.
pub scan_word_closed :
    (quote : Option ℕ) (previous : ℕ) (name rest : Text)
    → opens quote ≡ true
    → any is_space name ≡ false
    → open_quote quote previous name ≡ none
    → at_break rest ≡ true
    → scan_word true (place_of quote) previous (escape name ++ rest) ≡ (escape name, rest)
unfolding scan_word escape is_quote is_space needs_escape
scan_word_closed none previous [] [] hq hs ho hb = refl
scan_word_closed none previous [] (r ∷ rest) hq hs ho hb = ground arith
scan_word_closed (some quote) previous [] rest hq hs ho hb = cc
scan_word_closed none previous (c ∷ name) rest hq hs ho hb = ground (
  arith,
  scan_word_previous previous c (escape name ++ rest),
  scan_word_closed none c name rest,
  scan_word_closed (some c) c name rest,
)
scan_word_closed (some quote) previous (c ∷ name) rest hq hs ho hb = ground (
  arith,
  scan_word_previous previous c (escape name ++ rest),
  scan_word_previous backslash c (escape name ++ rest),
  scan_word_closed none c name rest,
  scan_word_closed (some quote) c name rest,
)

-- At the end of the line the word is over in any case.
pub scan_word_end :
    (quote : Option ℕ) (previous : ℕ) (name : Text)
    → opens quote ≡ true
    → any is_space name ≡ false
    → scan_word true (place_of quote) previous (escape name) ≡ (escape name, [])
unfolding scan_word escape is_quote is_space needs_escape
scan_word_end quote previous [] hq hs = refl
scan_word_end none previous (c ∷ name) hq hs = ground (
  arith,
  scan_word_previous previous c (escape name),
  scan_word_end none c name,
  scan_word_end (some c) c name,
)
scan_word_end (some quote) previous (c ∷ name) hq hs = ground (
  arith,
  scan_word_previous previous c (escape name),
  scan_word_previous backslash c (escape name),
  scan_word_end none c name,
  scan_word_end (some quote) c name,
)

-- Where a quotation is open, the word goes on behind the blank, and so is longer than the name.
pub scan_word_open :
    (quote : Option ℕ) (previous q : ℕ) (name rest : Text)
    → opens quote ≡ true
    → any is_space name ≡ false
    → open_quote quote previous name ≡ some q
    → un_escape (scan_word true (place_of quote) previous (escape name ++ b' ' ∷ rest)).0 ≢ name
unfolding scan_word escape is_quote is_space needs_escape un_escape un_escape_from
scan_word_open none previous q [] rest hq hs ho = cc
scan_word_open (some quote) previous q [] rest hq hs ho = ground arith
scan_word_open none previous q (c ∷ name) rest hq hs ho = ground (
  arith,
  scan_word_previous previous c (escape name ++ b' ' ∷ rest),
  scan_word_open none c q name rest,
  scan_word_open (some c) c q name rest,
)
scan_word_open (some quote) previous q (c ∷ name) rest hq hs ho = ground (
  arith,
  scan_word_previous previous c (escape name ++ b' ' ∷ rest),
  scan_word_previous backslash c (escape name ++ b' ' ∷ rest),
  scan_word_open none c q name rest,
  scan_word_open (some quote) c q name rest,
)
