-- ===== src/PropertyPath.antt =====
-- src/fep_control_tool/fep_control.cpp: getNodeAndLeafNamefromProperty, which cuts a property path at
-- its last slash, and the path that traverseProperties builds for the properties below a property.
pub mod Laws
use fep3_base_utilities.Prelude.{
  ℕ, zero, suc, ◌+◌, Bool, true, false, not, ◌&&◌, Option, none, some, [], ◌∷◌, ◌++◌, ◌≡◌, refl,
  Text, codes, ◌==◌, if◌then◌else◌, drop,
}

abbrev pub slash : ℕ
slash = b'/'

-- `s.find_last_of(c)`, `none` for npos
unfoldable pub find_last_of : ℕ → Text → Option ℕ
find_last_of c [] = none
find_last_of c (d ∷ s) = elim (find_last_of c s) [
  | some i ↦ some (suc i)
  | none ↦ if d == c then some 0 else none
]

-- `s.substr(0, n)` and `s.substr(n)`
abbrev pub take : ℕ → Text → Text
take zero s = []
take (suc n) [] = []
take (suc n) (c ∷ s) = c ∷ take n s

unfoldable pub cut_at : Option ℕ → Text → Text × Text
cut_at none prop_path = (prop_path, [])
cut_at (some pos_name) prop_path = (take pos_name prop_path, drop (suc pos_name) prop_path)

unfoldable pub get_node_and_leaf_name_from_property : Text → Text × Text
unfolding find_last_of cut_at
get_node_and_leaf_name_from_property prop_path = cut_at (find_last_of slash prop_path) prop_path

-- `s.find_last_of("/") == s.length() - 1`: also for the empty text, where both are the largest size.
unfoldable pub ends_in_slash : Text → Bool
ends_in_slash [] = true
ends_in_slash (c ∷ []) = c == slash
ends_in_slash (c ∷ d ∷ s) = ends_in_slash (d ∷ s)

abbrev pub is_empty : Text → Bool
is_empty [] = true
is_empty (c ∷ s) = false

-- `next_node`, as it stands when the sub-properties are visited.
unfoldable pub next_node : Text → Text → Text
unfolding ends_in_slash
next_node node prop_name =
    (if not (ends_in_slash node) && not (is_empty prop_name) then node ++ slash ∷ [] else node)
    ++ prop_name

cuts :
    (get_node_and_leaf_name_from_property (codes "clock/main/x") ≡ (codes "clock/main", codes "x"))
    × (get_node_and_leaf_name_from_property (codes "clock") ≡ (codes "clock", []))
    × (next_node (codes "clock") (codes "main") ≡ codes "clock/main")
unfolding get_node_and_leaf_name_from_property next_node codes
cuts = (refl, refl, refl)
