-- ===== src/Lexer/RoundTrip.antt =====
-- A class of names whose lines are parsed to the names.
use fep3_base_utilities.Prelude.{
  ℕ, Bool, true, false, none, List, [], ◌∷◌, map, ◌≡◌, refl, Text, arith, ◌==◌, any, if◌then◌else◌,
  All,
}
use fep3_base_utilities.Quoting.{need_quotes, quote_name_if_necessary}
use fep3_base_utilities.Lexer.{is_quote, parse_line}
use fep3_base_utilities.Lexer.Scans.{clashes}
use fep3_base_utilities.Lexer.Names.{open_quote}
use fep3_base_utilities.Lexer.Readings.{is_kept, are_kept, is_nil}
use fep3_base_utilities.Lexer.Exact.{parse_line-are_kept}
use fep3_base_utilities.Lexer.Spaced.{ZeroFree, spaced}

-- The names whose quoting the parser understands: no zero byte; in a name that is put in quotes, no
-- backslash directly before a double quote; in any other name, no quote.
abbrev pub IsSafe : Text → Type 0
IsSafe name =
    (any (λ c. c == 0) name ≡ false)
    × ((if need_quotes name then clashes name else any is_quote name) ≡ false)

open_quote-none :
    (previous : ℕ) (name : Text) → any is_quote name ≡ false → open_quote none previous name ≡ none
unfolding is_quote
open_quote-none previous [] h = refl
open_quote-none previous (c ∷ name) h = ground (arith, open_quote-none c name)

is_kept-IsSafe : (last : Bool) (n : Text) → IsSafe n → is_kept last n ≡ true
unfolding is_quote
is_kept-IsSafe last [] (z, h) = refl
is_kept-IsSafe last (c ∷ n) (z, h) = ground (arith, open_quote-none 0 (c ∷ n))

are_kept-IsSafe : (ns : List Text) → All IsSafe ns → are_kept ns ≡ true
are_kept-IsSafe [] hs = refl
are_kept-IsSafe (n ∷ ns) (h, hs) = rw (is_kept-IsSafe (is_nil ns) n h) (are_kept-IsSafe ns hs)

ZeroFree-IsSafe : (ns : List Text) → All IsSafe ns → ZeroFree ns
ZeroFree-IsSafe [] hs = tt
ZeroFree-IsSafe (n ∷ ns) (h, hs) = (h.0, ZeroFree-IsSafe ns hs)

-- Names that are quoted and joined by blanks are read back by the parser as they were, if each of
-- them is safe: it holds no zero byte, and no quote if it needs no quotation, and no backslash
-- directly before a double quote if it does.
pub parse_line-quote_name_if_necessary :
    (ns : List Text)
    → All IsSafe ns
    → parse_line (spaced (map quote_name_if_necessary ns)) false ≡ ns
parse_line-quote_name_if_necessary ns hs =
    (parse_line-are_kept ns (ZeroFree-IsSafe ns hs)).1 (are_kept-IsSafe ns hs)
