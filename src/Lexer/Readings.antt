-- ===== src/Lexer/Readings.antt =====
-- What the parser makes of the word that a quoted name begins, for every name.
use fep3_base_utilities.Prelude.{
  ℕ, Bool, true, false, not, ◌&&◌, ◌||◌, Option, none, some, List, [], ◌∷◌, ◌++◌, ◌≡◌, ◌≢◌, refl,
  Text, arith, ◌==◌, any, starts_with, if◌then◌else◌, append_assoc, append-nil, Bool-cases,
  Option-cases, inl, inr,
}
use fep3_base_utilities.Quoting.{
  backslash, double_quote, single_quote, is_space, escape, un_escape, need_quotes,
  quote_name_if_necessary,
}
use fep3_base_utilities.Lexer.{stepped, is_quote, scan_word, skip_whitespaces, get_next_word}
use fep3_base_utilities.Lexer.Scans.{clashes, at_break, scan_word-outer}
use fep3_base_utilities.Lexer.Names.{
  open_quote, scan_quoted-clashes, scan_quoted_single, scan_word_closed, scan_word_end,
  scan_word_open,
}
use fep3_base_utilities.Lexer.Spaced.{
  behind_blanks, quote_cases, get_next_word-quoted, skip_whitespaces-escape, behind_blanks_break,
}

abbrev is_closed : Option ℕ → Bool
is_closed none = true
is_closed (some quote) = false

-- Whether a name is read back as it was; the first argument tells whether it is the last of the line. In
-- a name that is put in quotes, no backslash may stand directly before a double quote. Any other name may
-- not start with a single quote, and, unless it is the last, may leave no quotation open.
abbrev pub is_kept : Bool → Text → Bool
is_kept last name =
    if need_quotes name
    then not (clashes name)
    else not (starts_with (single_quote ∷ []) name) && (last || is_closed (open_quote none 0 name))

abbrev pub is_nil : List Text → Bool
is_nil [] = true
is_nil (n ∷ ns) = false

abbrev pub are_kept : List Text → Bool
are_kept [] = true
are_kept (n ∷ ns) = is_kept (is_nil ns) n && are_kept ns

-- The word that a quoted name begins is not the name.
abbrev Misread : Text → Text → Type 0
Misread name rest =
    (word : Text) × (next : Text) × (get_next_word none true (quote_name_if_necessary name ++ rest)
      ≡ (some word, next))
    × (un_escape word ≢ name)

-- The word that it begins is the name, with its backslashes.
abbrev Wellread : Text → Text → Type 0
Wellread name rest =
    get_next_word none true (quote_name_if_necessary name ++ rest) ≡ (some (escape name), rest)

Wellread-quoted :
    (name rest : Text) → need_quotes name ≡ true → clashes name ≡ false → Wellread name rest
Wellread-quoted name rest h e =
    rw (quote_cases name, h, append_assoc (escape name) (double_quote ∷ []) rest)
      (get_next_word-quoted name rest e)

Misread-quoted :
    (name rest : Text) → need_quotes name ≡ true → clashes name ≡ true → Misread name rest
unfolding get_next_word
Misread-quoted name rest h e =
    rw (quote_cases name, h, append_assoc (escape name) (double_quote ∷ []) rest)
      (_, _, refl, scan_quoted-clashes 0 name rest e)

-- A name that is not put in quotes and starts with no single quote.
get_next_word-unquoted :
    (c : ℕ) (name rest : Text)
    → any is_space (c ∷ name) ≡ false
    → (c == single_quote) ≡ false
    → get_next_word none true (escape (c ∷ name) ++ rest) ≡ (
      some (scan_word true stepped 0 (escape (c ∷ name) ++ rest)).0,
      (scan_word true stepped 0 (escape (c ∷ name) ++ rest)).1,
    )
unfolding get_next_word escape is_quote
get_next_word-unquoted c name rest hs hq = rw (skip_whitespaces-escape c name rest hs) (
    ground (
      arith,
      scan_word-outer c (escape name ++ rest),
      scan_word-outer backslash (c ∷ (escape name ++ rest)),
    ))

module _ (c : ℕ) (name : Text) (hs : any is_space (c ∷ name) ≡ false) where
  bare : (rest : Text) → quote_name_if_necessary (c ∷ name) ++ rest ≡ escape (c ∷ name) ++ rest
  bare rest = rw (quote_cases (c ∷ name), hs) refl

  Wellread-bare :
      (rest : Text)
      → (c == single_quote) ≡ false
      → scan_word true stepped 0 (escape (c ∷ name) ++ rest) ≡ (escape (c ∷ name), rest)
      → Wellread (c ∷ name) rest
  Wellread-bare rest hq e = rw (bare rest, get_next_word-unquoted c name rest hs hq, e) refl

  Misread-bare :
      (rest : Text)
      → (c == single_quote) ≡ false
      → un_escape (scan_word true stepped 0 (escape (c ∷ name) ++ rest)).0 ≢ c ∷ name
      → Misread (c ∷ name) rest
  Misread-bare rest hq e = rw (bare rest) (_, _, get_next_word-unquoted c name rest hs hq, e)

Misread-single :
    (name rest : Text)
    → any is_space (single_quote ∷ name) ≡ false
    → at_break rest ≡ true
    → Misread (single_quote ∷ name) rest
unfolding get_next_word skip_whitespaces is_quote escape
Misread-single name rest hs hb =
    rw (bare single_quote name hs rest) (_, _, refl, scan_quoted_single name rest hb)

pub is_kept-Wellread :
    (n : Text) (ns : List Text) → is_kept (is_nil ns) n ≡ true → Wellread n (behind_blanks ns)
is_kept-Wellread [] ns h = Wellread-quoted [] (behind_blanks ns) refl refl
is_kept-Wellread (c ∷ n) ns h = elim (Bool-cases (any is_space (c ∷ n))) [
  | inl q ↦ Wellread-quoted (c ∷ n) (behind_blanks ns) q (ground arith)
  | inr q ↦ Wellread-bare c n q (behind_blanks ns) (ground arith) (at_end ns h q)
]
  where
    at_end :
        (ns : List Text)
        → is_kept (is_nil ns) (c ∷ n) ≡ true
        → any is_space (c ∷ n) ≡ false
        → scan_word true stepped 0 (escape (c ∷ n) ++ behind_blanks ns)
          ≡ (escape (c ∷ n), behind_blanks ns)
    at_end [] h q = rw (append-nil (escape (c ∷ n))) (scan_word_end none 0 (c ∷ n) refl q)
    at_end (m ∷ ns) h q = elim (Option-cases (open_quote none 0 (c ∷ n))) [
      | inl o ↦
          scan_word_closed none 0 (c ∷ n) (behind_blanks (m ∷ ns)) refl q o
            (behind_blanks_break (m ∷ ns))
      | inr (o, e) ↦ ground arith
    ]

pub is_kept-Misread :
    (n : Text) (ns : List Text) → is_kept (is_nil ns) n ≡ false → Misread n (behind_blanks ns)
is_kept-Misread [] ns h = cc
is_kept-Misread (c ∷ n) ns h = elim (Bool-cases (any is_space (c ∷ n))) [
  | inl q ↦ Misread-quoted (c ∷ n) (behind_blanks ns) q (ground arith)
  | inr q ↦ elim (Bool-cases (c == single_quote)) [
    | inl e ↦
        let is_single : c ≡ single_quote = ground arith in
        rw is_single
          (Misread-single n (behind_blanks ns) (rw is_single at q) (behind_blanks_break ns))
    | inr e ↦ Misread-bare c n q (behind_blanks ns) e (at_open ns h q e)
  ]
]
  where
    at_open :
        (ns : List Text)
        → is_kept (is_nil ns) (c ∷ n) ≡ false
        → any is_space (c ∷ n) ≡ false
        → (c == single_quote) ≡ false
        → un_escape (scan_word true stepped 0 (escape (c ∷ n) ++ behind_blanks ns)).0 ≢ c ∷ n
    at_open [] h q e = ground arith
    at_open (m ∷ ns) h q e = elim (Option-cases (open_quote none 0 (c ∷ n))) [
      | inl o ↦ ground arith
      | inr (o, o_is) ↦
          scan_word_open none 0 o (c ∷ n) (quote_name_if_necessary m ++ behind_blanks ns) refl q
            o_is
    ]
