-- ===== src/Lexer/SingleQuote.antt =====
-- A name that starts with a single quote does not survive its quoting.
use fep3_base_utilities.Prelude.{
  ℕ, Bool, true, false, not, ◌&&◌, [], ◌∷◌, ◌≡◌, refl, Text, arith, ◌==◌, any,
}
use fep3_base_utilities.Quoting.{
  is_space, needs_escape, single_quote, quote_name_if_necessary, un_escape, un_escape_from,
}
use fep3_base_utilities.Lexer.{
  is_quote, c_str, escapes, scan_quoted, get_next_word, parse_words, parse_line,
}

-- The characters of a word that nothing in the syntax is about: no zero byte, no white space, no quote
-- and no backslash.
abbrev is_plain : ℕ → Bool
is_plain c = not (c == 0) && not (is_space c) && not (is_quote c) && not (needs_escape c)

abbrev pub all_plain : Text → Bool
all_plain [] = true
all_plain (c ∷ s) = is_plain c && all_plain s

scan_quoted-plain :
    (e : Bool) (l : ℕ) (s : Text)
    → all_plain s ≡ true
    → scan_quoted e single_quote false l s ≡ (s, [])
unfolding scan_quoted is_quote needs_escape escapes
scan_quoted-plain e l [] h = refl
scan_quoted-plain e l (c ∷ s) h =
    let free : (c == single_quote) ≡ false = ground arith in
    let passive : escapes e c l ≡ false = ground arith in
    let plain : all_plain s ≡ true = ground arith in
    rw (free, passive, scan_quoted-plain e c s plain) refl

un_escape-plain : (s : Text) → all_plain s ≡ true → un_escape_from false s ≡ s
unfolding un_escape_from needs_escape
un_escape-plain [] h = refl
un_escape-plain (c ∷ s) h = ground (arith, un_escape-plain s)

c_str-plain : (s : Text) → all_plain s ≡ true → c_str s ≡ s
unfolding c_str
c_str-plain [] h = refl
c_str-plain (c ∷ s) h = ground (arith, c_str-plain s)

any-plain :
    (s : Text) → all_plain s ≡ true → (any is_space s ≡ false) × (any needs_escape s ≡ false)
any-plain [] h = (refl, refl)
any-plain (c ∷ s) h = ground (arith, any-plain s)

quote_name-plain :
    (word : Text)
    → all_plain word ≡ true
    → quote_name_if_necessary (single_quote ∷ word) ≡ single_quote ∷ word
unfolding quote_name_if_necessary is_space needs_escape
quote_name-plain word h = let (spaces, escapes) = any-plain word h in rw (spaces, escapes) refl

-- A plain word behind a single quote is not put in quotation, and is read back without the single quote.
pub parse_line-single_quote :
    (word : Text)
    → all_plain word ≡ true
    → parse_line (quote_name_if_necessary (single_quote ∷ word)) false ≡ word ∷ []
unfolding parse_line c_str parse_words get_next_word un_escape
parse_line-single_quote word h =
    rw
      (
        quote_name-plain word h,
        c_str-plain word h,
        scan_quoted-plain true 0 word h,
        un_escape-plain word h,
      )
      refl
