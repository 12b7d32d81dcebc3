-- ===== src/Quoting/Escaping.antt =====
-- `unEscape` undoes the backslashes that `quoteNameIfNecessary` adds.
use fep3_base_utilities.Prelude.{false, [], ◌∷◌, ◌≡◌, refl, Text, arith}
use fep3_base_utilities.Quoting.{escape, un_escape, need_backslash}

-- Taking the backslashes out of an escaped name gives the name back, whatever bytes it holds.
pub un_escape-escape : (name : Text) → un_escape (escape name) ≡ name
unfolding escape un_escape
un_escape-escape [] = refl
un_escape-escape (c ∷ name) = ground (arith, un_escape-escape name)

-- A text with no backslash is its own.
pub escape-eq_self : (name : Text) → need_backslash name ≡ false → escape name ≡ name
unfolding escape
escape-eq_self [] h = refl
escape-eq_self (c ∷ name) h = ground (arith, escape-eq_self name)
