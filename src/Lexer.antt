-- ===== src/Lexer.antt =====
-- src/fep_control_tool/helper.cpp: skipWhitespaces, getNextWord and parseLine. A position in the
-- line is the text from there on; the end of the text is the terminating zero of the C string.
pub mod Tokens
pub mod Scans
pub mod Rounds
pub mod RoundTrip
pub mod SingleQuote
pub mod Names
pub mod Spaced
pub mod Readings
pub mod Exact
use fep3_base_utilities.Prelude.{
  ℕ, zero, suc, Bool, true, false, not, ◌&&◌, ◌||◌, Option, none, some, List, [], ◌∷◌, ◌++◌, ◌≡◌,
  refl, Text, codes, ◌==◌, if◌then◌else◌, any, length,
}
use fep3_base_utilities.Quoting.{backslash, double_quote, single_quote, is_space, un_escape}

-- `line.c_str()`, as far as its first zero.
unfoldable pub c_str : Text → Text
c_str [] = []
c_str (c ∷ s) = if c == 0 then [] else c ∷ c_str s

-- `strchr(set, c) != nullptr` for an optional set; with no set nothing is found.
unfoldable pub is_one_of : Option Text → ℕ → Bool
is_one_of none c = false
is_one_of (some set) c = any (λ d. d == c) set

unfoldable pub skip_whitespaces : Option Text → Text → Text
unfolding is_one_of is_space
skip_whitespaces extra [] = []
skip_whitespaces extra (c ∷ s) =
    if is_space c || is_one_of extra c then skip_whitespaces extra s else c ∷ s

-- `escape_active = use_escape && (*src == '\\' && last_char != '\\')`
unfoldable pub escapes : Bool → ℕ → ℕ → Bool
escapes use_escape c last_char = use_escape && (c == backslash && not (last_char == backslash))

unfoldable pub is_quote : ℕ → Bool
is_quote c = c == double_quote || c == single_quote

-- The loop over a quoted word: its content, and the position of the closing quote or the end.
unfoldable pub scan_quoted : Bool → ℕ → Bool → ℕ → Text → Text × Text
unfolding escapes
scan_quoted use_escape quote escape_active last_char [] = ([], [])
scan_quoted use_escape quote escape_active last_char (c ∷ s) =
    let (word, rest) = scan_quoted use_escape quote (escapes use_escape c last_char) c s in
    if escape_active || not (c == quote) then (c ∷ word, rest) else ([], c ∷ s)

-- `if (*src == quote) src++;`
unfoldable pub skip_quote : ℕ → Text → Text
skip_quote quote [] = []
skip_quote quote (c ∷ s) = if c == quote then s else c ∷ s

-- Where the nested loops over a word with no leading quote stand: at the outer test, behind the
-- outer increment, or in the inner loop with its `quote` and `escape_active`.
pub data Place : Type 0 where
  outer : Place
  stepped : Place
  inner : ℕ → Bool → Place

pub data Move : Type 0 where
  stop : Move
  take : Place → ℕ → Move

-- What the loops do at the character `c`: leave it, or pass it and go on with a new `last_char`.
unfoldable pub decide : Bool → Place → ℕ → ℕ → Move
unfolding escapes is_quote is_space
decide use_escape outer last_char c = if is_space c then stop else take stepped last_char
decide use_escape stepped last_char c =
    if is_quote c
    then take (inner c (escapes use_escape c last_char)) c
    else if is_space c
    then stop
    else take stepped last_char
decide use_escape (inner quote escape_active) last_char c =
    if escape_active || not (c == quote)
    then take (inner quote (escapes use_escape c last_char)) c
    else if is_space c
    then stop
    else take stepped last_char

unfoldable pub scan_word : Bool → Place → ℕ → Text → Text × Text
unfolding decide
scan_word use_escape place last_char [] = ([], [])
scan_word use_escape place last_char (c ∷ s) = elim (decide use_escape place last_char c) [
  | stop ↦ ([], c ∷ s)
  | take place' last_char' ↦
      let (word, rest) = scan_word use_escape place' last_char' s in (c ∷ word, rest)
]

-- The loop of the branch with additional separators, in which quotes mean nothing.
unfoldable pub scan_plain : Option Text → Text → Text × Text
unfolding is_one_of is_space
scan_plain separators [] = ([], [])
scan_plain separators (c ∷ s) =
    let (word, rest) = scan_plain separators s in
    if is_space c || is_one_of separators c then ([], c ∷ s) else (c ∷ word, rest)

abbrev pub unquoted : Option Text → Bool → Text → Text × Text
unquoted none use_escape s = scan_word use_escape outer 0 s
unquoted (some separators) use_escape s = scan_plain (some separators) s

abbrev pub after_whitespaces : Option Text → Bool → Text → Option Text × Text
after_whitespaces separators use_escape [] = (none, [])
after_whitespaces separators use_escape (c ∷ s) =
    if is_quote c
    then (let (word, rest) = scan_quoted use_escape c false 0 s in (some word, skip_quote c rest))
    else (let (word, rest) = unquoted separators use_escape (c ∷ s) in (some word, rest))

-- `none` stands for the result false; the second part is the new value of `src`.
unfoldable pub get_next_word : Option Text → Bool → Text → Option Text × Text
unfolding skip_whitespaces scan_quoted skip_quote scan_word scan_plain is_quote
get_next_word separators use_escape src =
    after_whitespaces separators use_escape (skip_whitespaces none src)

-- The loop of `parseLine`: the words, the position behind the last of them, and the last position.
-- The first argument bounds the rounds.
unfoldable pub parse_words : ℕ → Text → Text → List Text × Text × Text
parse_words zero last_p p = ([], last_p, p)
parse_words (suc rounds) last_p p =
    let (next, p') = get_next_word none true p in
    elim next [
      | none ↦ ([], last_p, p')
      | some word ↦
          let (words, last, end) = parse_words rounds p' p' in (un_escape word ∷ words, last, end)
    ]

unfoldable pub parse_line : Text → Bool → List Text
parse_line line add_empty =
    let src = c_str line in
    let (words, last_p, p) = parse_words (suc (length src)) src src in
    if add_empty && not (length last_p == length p) then words ++ [] ∷ [] else words

three_words :
    parse_line (codes " load 'my system' a\\\"b ") false
    ≡ codes "load" ∷ codes "my system" ∷ codes "a\"b " ∷ []
unfolding parse_line parse_words get_next_word un_escape c_str codes
three_words = refl

with_empty : parse_line (codes "load  ") true ≡ codes "load" ∷ [] ∷ []
unfolding parse_line parse_words get_next_word un_escape c_str codes
with_empty = refl

no_words : parse_line [] true ≡ []
unfolding parse_line parse_words get_next_word c_str
no_words = refl
