-- ===== src/Tests/Handlers.antt =====
-- Parts of handlers on the libraries of the tests.
use fep3_base_utilities.Prelude.{
  ℕ, ◌<◌, false, List, [], ◌∷◌, ◌≡◌, ◌≢◌, refl, Text, codes, str_eq, str_eq_iff, All, arith,
  if◌then◌else◌, Bool-cases, inl, inr,
}
use fep3_base_utilities.Effect.{returned, unfinished}
use fep3_base_utilities.Env.{Env}
use fep3_base_utilities.PropertyPath.{next_node, ends_in_slash, find_last_of}
use fep3_base_utilities.Session.{Session, new_session}
use fep3_base_utilities.Prelude.{◌⊎◌}
use fep3_base_utilities.Commands.Systems.{discover_all_systems}
use fep3_base_utilities.Commands.Systems.AllOrNothing.{
  AllKept, NoneKept, discover_all_systems-AllKept,
}
use fep3_base_utilities.Commands.Properties.{json_visitor, traverse_properties}
use fep3_base_utilities.Commands.Properties.Depth.{IsRanked, traverse_properties-finishes}
use fep3_base_utilities.Tests.Libraries.{demo, alpha, nameless}

abbrev one_known : Session ℕ Text
one_known = record (new_session ⦃env = demo⦄ false 0) { systems = (alpha, alpha) ∷ [] }

-- The names below a node: there is one below `c`.
abbrev names_below : Text → List Text
names_below node = if str_eq node (b'c' ∷ []) then (b'm' ∷ []) ∷ [] else []

abbrev nested : Env
nested = record demo { property_names = λ props w. (returned (names_below props), w) }

abbrev rank : Text → ℕ
rank node = if str_eq node (b'c' ∷ []) then 1 else 0

names_below-rank :
    (node : Text) → All (λ name. rank (next_node node name) < rank node) (names_below node)
unfolding next_node ends_in_slash
names_below-rank node = elim (Bool-cases (str_eq node (b'c' ∷ []))) [
  | inl e ↦ rw ((str_eq_iff node (b'c' ∷ [])).0 e) (omega arith, tt)
  | inr e ↦ rw e tt
]

nested-IsRanked : IsRanked ⦃env = nested⦄ rank
nested-IsRanked conf node w props names e e' =
    let same : node ≡ props = cc in
    let below : names_below props ≡ names = cc in rw (← below, ← same) (names_below-rank node)

traverse_properties-finishes_example :
    (traverse_properties ⦃env = nested⦄ 2
      (json_visitor ⦃env = nested⦄)
      (codes "driver")
      []
      (b'c' ∷ [])
      0
      []
      one_known).0
    ≢ unfinished
unfolding next_node ends_in_slash find_last_of
traverse_properties-finishes_example =
    traverse_properties-finishes ⦃env = nested⦄ rank nested-IsRanked 2 (json_visitor ⦃env = nested⦄)
      (codes "driver") [] (b'c' ∷ []) 0 [] one_known (omega arith)

discover_all_systems-AllKept_example :
    AllKept ⦃env = demo⦄
      (alpha ∷ nameless ∷ [])
      one_known
      (discover_all_systems ⦃env = demo⦄ (codes "discoverAllSystems" ∷ []) one_known)
    ⊎ NoneKept ⦃env = demo⦄ one_known
        (discover_all_systems ⦃env = demo⦄ (codes "discoverAllSystems" ∷ []) one_known)
discover_all_systems-AllKept_example =
    discover_all_systems-AllKept ⦃env = demo⦄ (codes "discoverAllSystems") []
      (alpha ∷ nameless ∷ []) one_known 0 refl refl
