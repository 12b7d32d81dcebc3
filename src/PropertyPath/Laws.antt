-- ===== src/PropertyPath/Laws.antt =====
-- The cut of a property path loses nothing.
use fep3_base_utilities.Prelude.{
  ℕ, suc, true, false, none, some, [], ◌∷◌, ◌++◌, ◌≡◌, refl, ap, Text, arith, ◌==◌, any, drop,
  Option-cases, inl, inr, ◌⊎◌,
}
use fep3_base_utilities.PropertyPath.{
  slash, find_last_of, cut_at, take, get_node_and_leaf_name_from_property,
}

not_found : (c : ℕ) (s : Text) → find_last_of c s ≡ none → any (λ d. d == c) s ≡ false
unfolding find_last_of
not_found c [] h = refl
not_found c (d ∷ s) h = ground (arith, not_found c s)

cut_found :
    (c : ℕ) (s : Text) (i : ℕ)
    → find_last_of c s ≡ some i
    → (s ≡ take i s ++ c ∷ drop (suc i) s) × (any (λ d. d == c) (drop (suc i) s) ≡ false)
unfolding find_last_of
cut_found c [] i h = cc
cut_found c (d ∷ s) i h = elim (Option-cases (find_last_of c s)) [
  | inl e ↦ ground (arith, not_found c s e)
  | inr (j, e) ↦
      let later : (suc j ≡ i) = ground arith in
      rw (← later) (let (whole, free) = cut_found c s j e in (ap (λ (t : Text). d ∷ t) whole, free))
]

found_any : (c : ℕ) (s : Text) (i : ℕ) → find_last_of c s ≡ some i → any (λ d. d == c) s ≡ true
unfolding find_last_of
found_any c [] i h = cc
found_any c (d ∷ s) i h = elim (Option-cases (find_last_of c s)) [
  | inl e ↦ ground arith
  | inr (j, e) ↦ ground (arith, found_any c s j e)
]

-- A path that holds a slash is its node, a slash and its leaf name, and no slash is in the leaf name.
-- A path with no slash is all node, and its leaf name is empty.
pub get_node_and_leaf_name_from_property_lem :
    (prop_path : Text)
    → ((any (λ d. d == slash) prop_path ≡ true)
        × (prop_path
            ≡ (get_node_and_leaf_name_from_property prop_path).0
              ++ slash ∷ (get_node_and_leaf_name_from_property prop_path).1)
        × (any (λ d. d == slash) (get_node_and_leaf_name_from_property prop_path).1 ≡ false))
      ⊎ ((any (λ d. d == slash) prop_path ≡ false)
          × (get_node_and_leaf_name_from_property prop_path ≡ (prop_path, [])))
unfolding get_node_and_leaf_name_from_property
get_node_and_leaf_name_from_property_lem prop_path =
    elim (Option-cases (find_last_of slash prop_path)) [
      | inl e ↦ inr (not_found slash prop_path e, rw (e, cut_at))
      | inr (i, e) ↦
          let (whole, free) = cut_found slash prop_path i e in
          inl (found_any slash prop_path i e, rw (e, cut_at) whole, rw (e, cut_at) free)
    ]
