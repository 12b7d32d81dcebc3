-- ===== src/Lexer/Tokens.antt =====
-- With `add_empty`, parseLine finds a token in every line that is not empty.
use fep3_base_utilities.Prelude.{
  ℕ, suc, true, false, not, Option, none, some, [], ◌∷◌, ◌++◌, ◌≡◌, ◌≢◌, refl, List, false, sym,
  ◌∙◌, Text, arith, length, ◌==◌, if◌then◌else◌, Bool-cases, inl, inr,
}
use fep3_base_utilities.Lexer.{
  is_quote, c_str, skip_whitespaces, after_whitespaces, get_next_word, parse_words, parse_line,
}
use fep3_base_utilities.Quoting.{un_escape}
use fep3_base_utilities.Lexer.Rounds.{parse_words-some}

after_whitespaces-end :
    (s : Text) → (after_whitespaces none true s).0 ≡ none → (after_whitespaces none true s).1 ≡ []
after_whitespaces-end [] h = refl
after_whitespaces-end (c ∷ s) h = elim (Bool-cases (is_quote c)) [
  | inl e ↦ ground arith
  | inr e ↦ ground arith
]

get_next_word-end :
    (s : Text) → (get_next_word none true s).0 ≡ none → (get_next_word none true s).1 ≡ []
unfolding get_next_word
get_next_word-end s h = after_whitespaces-end (skip_whitespaces none s) h

-- What parseLine returns when an empty token may be added.
abbrev added : List Text × Text × Text → List Text
added (words, last_p, p) = if not (length last_p == length p) then words ++ [] ∷ [] else words

parse_words-none :
    (rounds : ℕ) (last_p p : Text)
    → get_next_word none true p ≡ (none, [])
    → parse_words (suc rounds) last_p p ≡ ([], last_p, [])
unfolding parse_words
parse_words-none rounds last_p p e = rw (e, parse_words, e)

added-word : (word : Text) (r : List Text × Text × Text) → added (word ∷ r.0, r.1, r.2) ≢ []
added-word word (words, last_p, p) = elim (Bool-cases (length last_p == length p)) [
  | inl e ↦ rw e (λ h. cc)
  | inr e ↦ rw e (λ h. cc)
]

first_round :
    (rounds c : ℕ) (s : Text) (r : Option Text × Text)
    → get_next_word none true (c ∷ s) ≡ r
    → added (parse_words (suc rounds) (c ∷ s) (c ∷ s)) ≢ []
first_round rounds c s (none, rest) e =
    let ended = get_next_word-end (c ∷ s) (λ i. (e i).0) in
    let at_end : get_next_word none true (c ∷ s) ≡ (none, []) =
      e ∙ (λ i. (none, (sym (λ j. (e j).1) ∙ ended) i)) in
    let longer : (length (c ∷ s) == 0) ≡ false = ground arith in
    rw (parse_words-none rounds (c ∷ s) (c ∷ s) at_end, longer) (λ h. cc)
first_round rounds c s (some word, rest) e =
    rw (parse_words-some rounds (c ∷ s) (c ∷ s) word rest e)
      (added-word (un_escape word) (parse_words rounds rest rest))

-- A line that starts with a byte other than zero has a token, if an empty one may be added.
pub parse_line-token : (c : ℕ) (s : Text) → c ≢ 0 → parse_line (c ∷ s) true ≢ []
unfolding parse_line c_str
parse_line-token c s h =
    let no : (c == 0) ≡ false = ground arith in
    rw no
      (first_round (length (c ∷ c_str s)) c (c_str s) (get_next_word none true (c ∷ c_str s)) refl)
