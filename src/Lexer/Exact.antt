-- ===== src/Lexer/Exact.antt =====
-- Which lines of quoted names are parsed to the names.
use fep3_base_utilities.Prelude.{
  ℕ, zero, suc, ◌<◌, true, false, none, List, [], ◌∷◌, ◌++◌, map, ◌≡◌, ◌↔◌, refl, ap, ◌∙◌, Text,
  arith, length, length-append, Bool-cases, inl, inr,
}
use fep3_base_utilities.Quoting.{escape, un_escape, quote_name_if_necessary}
use fep3_base_utilities.Quoting.Escaping.{un_escape-escape}
use fep3_base_utilities.Lexer.{c_str, get_next_word, parse_words, parse_line}
use fep3_base_utilities.Lexer.Readings.{
  is_kept, are_kept, is_nil, is_kept-Wellread, is_kept-Misread,
}
use fep3_base_utilities.Lexer.Rounds.{parse_words-some}
use fep3_base_utilities.Lexer.Spaced.{
  ZeroFree, spaced, behind_blanks, get_next_word-blank, spaced-quoted, c_str-eq_self,
  zero_free-append, zero_free-quote, ZeroFree-behind_blanks, length-quote,
}

-- One round of the loop, on the line of a quoted name and those behind it.
parse_words_round :
    (rounds : ℕ) (last line : Text) (n : Text) (ns : List Text)
    → get_next_word none true line
      ≡ get_next_word none true (quote_name_if_necessary n ++ behind_blanks ns)
    → ((parse_words rounds (behind_blanks ns) (behind_blanks ns)).0 ≡ ns) ↔ (are_kept ns ≡ true)
    → ((parse_words (suc rounds) last line).0 ≡ n ∷ ns) ↔ (are_kept (n ∷ ns) ≡ true)
parse_words_round rounds last line n ns same (kept, parsed) =
    elim (Bool-cases (is_kept (is_nil ns) n)) [
      | inl e ↦
          let first = same ∙ is_kept-Wellread n ns e in
          rw
            (
              parse_words-some rounds last line (escape n) (behind_blanks ns) first,
              un_escape-escape n,
              e,
            )
            (
              λ p.
                  let tails : (parse_words rounds (behind_blanks ns) (behind_blanks ns)).0 ≡ ns =
                    cc in
                  kept tails,
              λ h. ap (λ (ws : List Text). n ∷ ws) (parsed h),
            )
      | inr e ↦
          let (word, next, read, other) = is_kept-Misread n ns e in
          rw (parse_words-some rounds last line word next (same ∙ read), e)
            (λ p. let heads : un_escape word ≡ n = cc in absurd (other heads), λ h. cc)
    ]

-- The loop over quoted names with a blank before each.
parse_words-behind_blanks :
    (rounds : ℕ) (last : Text) (ns : List Text)
    → length (behind_blanks ns) < rounds
    → ((parse_words rounds last (behind_blanks ns)).0 ≡ ns) ↔ (are_kept ns ≡ true)
parse_words-behind_blanks zero last ns h = absurd (omega arith)
parse_words-behind_blanks (suc rounds) last [] h =
    unfold parse_words get_next_word in (λ p. refl, λ p. refl)
parse_words-behind_blanks (suc rounds) last (n ∷ ns) h =
    parse_words_round rounds last _ n ns
      (get_next_word-blank (quote_name_if_necessary n ++ behind_blanks ns))
      (parse_words-behind_blanks rounds (behind_blanks ns) ns
        (omega (arith, length-append (quote_name_if_necessary n) (behind_blanks ns))))

-- Names with no zero byte that are quoted and joined by blanks are read back by the parser as they were
-- exactly if each of them is kept: in a name that needs quotation no backslash stands directly before a
-- double quote; any other name starts with no single quote, and, unless it is the last, leaves no quotation
-- open, where a single quote is closed by the next one, and a double quote by the next one directly behind
-- a backslash.
pub parse_line-are_kept :
    (ns : List Text)
    → ZeroFree ns
    → (parse_line (spaced (map quote_name_if_necessary ns)) false ≡ ns) ↔ (are_kept ns ≡ true)
unfolding parse_line
parse_line-are_kept [] h = unfold c_str parse_words get_next_word in (λ p. refl, λ p. refl)
parse_line-are_kept (n ∷ ns) (h, hs) =
    let line = quote_name_if_necessary n ++ behind_blanks ns in
    let clean =
      zero_free-append (quote_name_if_necessary n) (behind_blanks ns) (zero_free-quote n h)
        (ZeroFree-behind_blanks ns hs) in
    let rest = parse_words-behind_blanks (length line) (behind_blanks ns) ns (
      omega
        (arith, length-append (quote_name_if_necessary n) (behind_blanks ns), length-quote n)) in
    rw (spaced-quoted n ns, c_str-eq_self line clean)
      (parse_words_round (length line) line line n ns refl rest)
