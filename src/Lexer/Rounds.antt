-- ===== src/Lexer/Rounds.antt =====
-- The loop of parseLine ends: each round shortens what is left of the line, so that the rounds that
-- `parse_line` allows are enough.
use fep3_base_utilities.Prelude.{
  ℕ, zero, suc, ◌≤◌, ◌<◌, Bool, true, false, Option, none, some, [], ◌∷◌, ◌≡◌, refl, Text, arith,
  length, Option-cases, inl, inr,
}
use fep3_base_utilities.Quoting.{is_space, un_escape}
use fep3_base_utilities.Lexer.{
  Place, skip_whitespaces, scan_quoted, skip_quote, scan_word, after_whitespaces, get_next_word,
  parse_words,
}

length-skip_whitespaces :
    (extra : Option Text) (s : Text) → length (skip_whitespaces extra s) ≤ length s
unfolding skip_whitespaces
length-skip_whitespaces extra [] = omega arith
length-skip_whitespaces extra (c ∷ s) = ground (arith, length-skip_whitespaces extra s)

length-scan_quoted :
    (e : Bool) (q : ℕ) (a : Bool) (l : ℕ) (s : Text) → length (scan_quoted e q a l s).1 ≤ length s
unfolding scan_quoted
length-scan_quoted e q a l [] = omega arith
length-scan_quoted e q a l (c ∷ s) = grind (arith, λ (b : Bool). length-scan_quoted e q b c s)

length-skip_quote : (q : ℕ) (s : Text) → length (skip_quote q s) ≤ length s
unfolding skip_quote
length-skip_quote q [] = omega arith
length-skip_quote q (c ∷ s) = ground arith

length-scan_word :
    (e : Bool) (m : Place) (l : ℕ) (s : Text) → length (scan_word e m l s).1 ≤ length s
unfolding scan_word
length-scan_word e m l [] = omega arith
length-scan_word e m l (c ∷ s) = grind (arith, λ (p : Place) (k : ℕ). length-scan_word e p k s)

skip_whitespaces_head :
    (s : Text) (c : ℕ) (r : Text) → skip_whitespaces none s ≡ c ∷ r → is_space c ≡ false
unfolding skip_whitespaces
skip_whitespaces_head [] c r h = cc
skip_whitespaces_head (d ∷ s) c r h = ground (arith, skip_whitespaces_head s c r)

length-scan_word_outer :
    (c : ℕ) (s : Text)
    → is_space c ≡ false
    → length (scan_word true Place.outer 0 (c ∷ s)).1 < length (c ∷ s)
unfolding scan_word
length-scan_word_outer c s h = ground (arith, length-scan_word true Place.stepped 0 s)

length-after_whitespaces :
    (s word rest : Text)
    → ((c : ℕ) (r : Text) → s ≡ c ∷ r → is_space c ≡ false)
    → after_whitespaces none true s ≡ (some word, rest)
    → length rest < length s
length-after_whitespaces [] word rest hs h = cc
length-after_whitespaces (c ∷ s) word rest hs h = ground (
  arith,
  length-skip_quote c (scan_quoted true c false 0 s).1,
  length-scan_quoted true c false 0 s,
  length-scan_word_outer c s (hs c s refl),
)

-- A round that finds a word consumes at least one character.
pub length-get_next_word :
    (s word rest : Text) → get_next_word none true s ≡ (some word, rest) → length rest < length s
unfolding get_next_word
length-get_next_word s word rest h = omega (
  arith,
  length-after_whitespaces (skip_whitespaces none s) word rest (skip_whitespaces_head s) h,
  length-skip_whitespaces none s,
)

-- Any two numbers of rounds above the length of the line give the same words, so that no line needs
-- more rounds than that.
pub parse_words_rounds :
    (f g : ℕ) (last p : Text)
    → length p < f
    → length p < g
    → parse_words f last p ≡ parse_words g last p
unfolding parse_words
parse_words_rounds zero g last p hf hg = absurd (omega arith)
parse_words_rounds (suc f) zero last p hf hg = absurd (omega arith)
parse_words_rounds (suc f) (suc g) last p hf hg =
    elim (Option-cases (get_next_word none true p).0) [
      | inl e ↦ rw (e, parse_words)
      | inr (w, e) ↦
          rw (e, parse_words)
            (let r = (get_next_word none true p).1 in
              let shorter = length-get_next_word p w r (λ i. (e i, r)) in
              rw (parse_words_rounds f g r r (omega arith) (omega arith)))
    ]

-- One round that finds a word.
pub parse_words-some :
    (rounds : ℕ) (last p word rest : Text)
    → get_next_word none true p ≡ (some word, rest)
    → parse_words (suc rounds) last p ≡ (
        let (words, last', end) = parse_words rounds rest rest in
        (un_escape word ∷ words, last', end))
unfolding parse_words
parse_words-some rounds last p word rest e = rw (e, parse_words, e)
