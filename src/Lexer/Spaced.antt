-- ===== src/Lexer/Spaced.antt =====
-- Lines of quoted names with blanks between them.
use fep3_base_utilities.Prelude.{
  ℕ, ◌<◌, true, false, none, some, List, [], ◌∷◌, ◌++◌, map, ◌≡◌, refl, Text, arith, length, ◌==◌,
  any, All, if◌then◌else◌, Bool-cases, inl, inr, append-nil, sym, ap,
}
use fep3_base_utilities.Quoting.{
  double_quote, is_space, escape, need_quotes, quote_name_if_necessary,
}
use fep3_base_utilities.Quoting.Escaping.{escape-eq_self}
use fep3_base_utilities.Lexer.{c_str, skip_whitespaces, get_next_word}
use fep3_base_utilities.Lexer.Scans.{clashes, at_break, scan_quoted-escape}

-- Words with one blank between them.
abbrev pub spaced : List Text → Text
spaced [] = []
spaced (w ∷ []) = w
spaced (w ∷ v ∷ ws) = w ++ b' ' ∷ spaced (v ∷ ws)

-- Every quoted name behind a blank.
abbrev pub behind_blanks : List Text → Text
behind_blanks [] = []
behind_blanks (n ∷ ns) = b' ' ∷ (quote_name_if_necessary n ++ behind_blanks ns)

pub quote_cases :
    (name : Text)
    → quote_name_if_necessary name ≡ (
        if need_quotes name then double_quote ∷ (escape name ++ double_quote ∷ []) else escape name)
unfolding quote_name_if_necessary
quote_cases name = ground (arith, escape-eq_self name)

pub get_next_word-quoted :
    (name rest : Text)
    → clashes name ≡ false
    → get_next_word none true (double_quote ∷ (escape name ++ double_quote ∷ rest))
      ≡ (some (escape name), rest)
unfolding get_next_word
get_next_word-quoted name rest h = rw (scan_quoted-escape 0 name rest h)

pub skip_whitespaces-escape :
    (c : ℕ) (name rest : Text)
    → any is_space (c ∷ name) ≡ false
    → skip_whitespaces none (escape (c ∷ name) ++ rest) ≡ escape (c ∷ name) ++ rest
unfolding skip_whitespaces escape
skip_whitespaces-escape c name rest h = ground arith

pub behind_blanks_break : (ns : List Text) → at_break (behind_blanks ns) ≡ true
unfolding is_space
behind_blanks_break [] = refl
behind_blanks_break (n ∷ ns) = refl

pub get_next_word-blank :
    (s : Text) → get_next_word none true (b' ' ∷ s) ≡ get_next_word none true s
unfolding get_next_word skip_whitespaces is_space
get_next_word-blank s = refl

pub spaced-quoted :
    (n : Text) (ns : List Text)
    → spaced (map quote_name_if_necessary (n ∷ ns)) ≡ quote_name_if_necessary n ++ behind_blanks ns
spaced-quoted n [] = sym (append-nil _)
spaced-quoted n (m ∷ ns) =
    ap (λ (s : Text). quote_name_if_necessary n ++ b' ' ∷ s) (spaced-quoted m ns)

-- `c_str` loses nothing of a text with no zero byte.
pub c_str-eq_self : (s : Text) → any (λ c. c == 0) s ≡ false → c_str s ≡ s
unfolding c_str
c_str-eq_self [] h = refl
c_str-eq_self (c ∷ s) h = ground (arith, c_str-eq_self s)

pub zero_free-append :
    (s t : Text)
    → any (λ c. c == 0) s ≡ false
    → any (λ c. c == 0) t ≡ false
    → any (λ c. c == 0) (s ++ t) ≡ false
zero_free-append [] t hs ht = ht
zero_free-append (c ∷ s) t hs ht = ground (arith, zero_free-append s t)

pub zero_free-escape :
    (s : Text) → any (λ c. c == 0) s ≡ false → any (λ c. c == 0) (escape s) ≡ false
unfolding escape
zero_free-escape [] h = refl
zero_free-escape (c ∷ s) h = ground (arith, zero_free-escape s)

pub length-quote : (n : Text) → 0 < length (quote_name_if_necessary n)
unfolding quote_name_if_necessary escape
length-quote [] = omega arith
length-quote (c ∷ n) = ground arith

pub zero_free-quote :
    (n : Text) → any (λ c. c == 0) n ≡ false → any (λ c. c == 0) (quote_name_if_necessary n) ≡ false
zero_free-quote n h = rw quote_cases (elim (Bool-cases (need_quotes n)) [
  | inl q ↦ rw q (zero_free-append (escape n) (double_quote ∷ []) (zero_free-escape n h) refl)
  | inr q ↦ rw q (zero_free-escape n h)
])

-- The names hold no zero byte.
abbrev pub ZeroFree : List Text → Type 0
ZeroFree = All (λ n. any (λ c. c == 0) n ≡ false)

pub ZeroFree-behind_blanks :
    (ns : List Text) → ZeroFree ns → any (λ c. c == 0) (behind_blanks ns) ≡ false
ZeroFree-behind_blanks [] h = refl
ZeroFree-behind_blanks (n ∷ ns) (h, hs) =
    zero_free-append (quote_name_if_necessary n) (behind_blanks ns) (zero_free-quote n h)
      (ZeroFree-behind_blanks ns hs)
