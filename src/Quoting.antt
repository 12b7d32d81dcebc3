-- ===== src/Quoting.antt =====
-- src/fep_control_tool/control_tool_common_helper.h: quoting of a name for the command line, and
-- the removal of the backslashes again.
pub mod Escaping
use fep3_base_utilities.Prelude.{
  ℕ, Bool, true, false, not, ◌&&◌, ◌||◌, [], ◌∷◌, ◌++◌, ◌≡◌, refl, Text, codes, leb, ◌==◌, any,
  if◌then◌else◌,
}

abbrev pub backslash : ℕ
backslash = b'\\'

abbrev pub double_quote : ℕ
double_quote = b'"'

abbrev pub single_quote : ℕ
single_quote = b'\''

-- `isspace` in the "C" locale: tab, line feed, vertical tab, form feed, carriage return, blank.
unfoldable pub is_space : ℕ → Bool
is_space c = (leb 9 c && leb c 13) || c == 32

-- The test of `need_backslash`, which the loop makes again.
unfoldable pub needs_escape : ℕ → Bool
needs_escape c = c == double_quote || c == backslash

abbrev pub need_quotes : Text → Bool
need_quotes [] = true
need_quotes (c ∷ name) = any is_space (c ∷ name)

abbrev pub need_backslash : Text → Bool
need_backslash name = any needs_escape name

-- What the loop appends for each character of the name.
unfoldable pub escape : Text → Text
unfolding needs_escape
escape [] = []
escape (c ∷ name) = if needs_escape c then backslash ∷ c ∷ escape name else c ∷ escape name

unfoldable pub quote_name_if_necessary : Text → Text
unfolding escape is_space needs_escape
quote_name_if_necessary name =
    if not (need_quotes name) && not (need_backslash name)
    then name
    else if need_quotes name
    then double_quote ∷ (escape name ++ double_quote ∷ [])
    else escape name

-- The loop of `unEscape`; the first argument is `escape_active`.
unfoldable pub un_escape_from : Bool → Text → Text
un_escape_from true [] = backslash ∷ []
un_escape_from false [] = []
un_escape_from escape_active (c ∷ name) =
    if escape_active || not (c == backslash)
    then c ∷ un_escape_from false name
    else un_escape_from true name

unfoldable pub un_escape : Text → Text
unfolding un_escape_from
un_escape name = un_escape_from false name

quoted_blank : quote_name_if_necessary (codes "my system") ≡ codes "\"my system\""
unfolding quote_name_if_necessary codes
quoted_blank = refl

escaped_quote : quote_name_if_necessary (codes "a\"b\\") ≡ codes "a\\\"b\\\\"
unfolding quote_name_if_necessary codes
escaped_quote = refl

unescaped : un_escape (codes "a\\\"b\\\\c\\") ≡ codes "a\"b\\c\\"
unfolding un_escape codes
unescaped = refl
