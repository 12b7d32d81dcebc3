-- ===== src/Tests/Lines.antt =====
-- The lexer, the map and the paths on concrete inputs.
use fep3_base_utilities.Prelude.{
  map, ◌↔◌, true, false, List, [], ◌∷◌, ◌≡◌, refl, Text, codes, arith,
}
use fep3_base_utilities.Quoting.{quote_name_if_necessary, is_space}
use fep3_base_utilities.Lexer.{is_quote, parse_line, parse_words}
use fep3_base_utilities.Lexer.Rounds.{parse_words_rounds}
use fep3_base_utilities.Lexer.Spaced.{spaced}
use fep3_base_utilities.Lexer.Readings.{are_kept}
use fep3_base_utilities.Lexer.Exact.{parse_line-are_kept}

-- A name with a blank, one whose single quotes are closed, and one that leaves a single quote open.
abbrev names : List Text
names = codes "my system" ∷ codes "b'c'" ∷ codes "driver's" ∷ []

parse_line-are_kept_example :
    (parse_line (spaced (map quote_name_if_necessary names)) false ≡ names)
    ↔ (are_kept names ≡ true)
unfolding codes
parse_line-are_kept_example = parse_line-are_kept names (refl, (refl, (refl, tt)))

-- They are kept in this order, and not in the other, since `driver's` opens a quotation.
kept_in_order : are_kept names ≡ true
unfolding codes is_space is_quote
kept_in_order = refl

lost_in_reverse : are_kept (codes "driver's" ∷ codes "b'c'" ∷ []) ≡ false
unfolding codes is_space is_quote
lost_in_reverse = refl

parse_words_rounds_example :
    parse_words 10 [] (codes "help \"a b") ≡ parse_words 12 [] (codes "help \"a b")
unfolding codes
parse_words_rounds_example =
    parse_words_rounds 10 12 [] (codes "help \"a b") (omega arith) (omega arith)
