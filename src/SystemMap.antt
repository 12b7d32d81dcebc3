-- ===== src/SystemMap.antt =====
-- `std::map<std::string, V>`, the container of `_connected_or_discovered_systems` in
-- src/fep_control_tool/fep_control.h: its entries in the order of their keys.
pub mod Laws
use fep3_base_utilities.Prelude.{
  ℕ, Bool, true, false, ◌&&◌, Option, none, some, List, [], ◌∷◌, ◌≡◌, refl, Text, codes, str_eq,
  str_lt, if◌then◌else◌,
}

abbrev pub SystemMap : Type 0 → Type 0
SystemMap V = List (Text × V)

module _ {V : Type 0} where
  -- m.find(k), with its entry
  unfoldable pub find : Text → SystemMap V → Option V
  find k [] = none
  find k ((j, v) ∷ m) = if str_eq j k then some v else find k m

  -- m[k] = v
  unfoldable pub assign : Text → V → SystemMap V → SystemMap V
  assign k v [] = (k, v) ∷ []
  assign k v ((j, w) ∷ m) =
      if str_eq j k
      then (k, v) ∷ m
      else if str_lt k j
      then (k, v) ∷ (j, w) ∷ m
      else (j, w) ∷ assign k v m

  -- m.emplace(k, v), which keeps an entry that is there
  unfoldable pub emplace : Text → V → SystemMap V → SystemMap V
  emplace k v [] = (k, v) ∷ []
  emplace k v ((j, w) ∷ m) =
      if str_eq j k
      then (j, w) ∷ m
      else if str_lt k j
      then (k, v) ∷ (j, w) ∷ m
      else (j, w) ∷ emplace k v m

  -- m.erase(k)
  unfoldable pub erase : Text → SystemMap V → SystemMap V
  erase k [] = []
  erase k ((j, v) ∷ m) = let rest = erase k m in if str_eq j k then rest else (j, v) ∷ rest

  -- The key is below all keys of the map.
  abbrev pub is_below : Text → SystemMap V → Bool
  is_below k [] = true
  is_below k ((j, v) ∷ m) = str_lt k j && is_below k m

  -- The keys ascend, so that none stands twice.
  abbrev pub is_sorted : SystemMap V → Bool
  is_sorted [] = true
  is_sorted ((j, v) ∷ m) = is_below j m && is_sorted m

in_order :
    assign {V = ℕ} (codes "b") 2 (assign (codes "c") 3 (assign (codes "a") 1 []))
    ≡ (codes "a", 1) ∷ (codes "b", 2) ∷ (codes "c", 3) ∷ []
unfolding assign codes
in_order = refl
