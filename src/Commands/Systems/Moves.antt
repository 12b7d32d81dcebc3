-- ===== src/Commands/Systems/Moves.antt =====
-- The commands on systems keep to the changes of a session, and read only tokens that are there.
use fep3_base_utilities.Prelude.{◌<◌, List, [], ◌∷◌, String, Text, arith, length}
use fep3_base_utilities.Effect.Runs.{Runs, Runs-bind, Runs-modify}
use fep3_base_utilities.Env.{Env, Transition}
use fep3_base_utilities.Session.{State, Action}
use fep3_base_utilities.Session.Moves.{IsSessionFlow, Forgets}
use fep3_base_utilities.Lookup.Moves.{lookup_rules, Runs-remember}
use fep3_base_utilities.Commands.Systems.{
  shown_name, get_system_participants, get_systems, emplace_systems, discover_all_systems,
  discover_system, change_state_method, transit, shutdown_and_erase, shutdown_system,
  start_monitoring_system, stop_monitoring_system, get_participants,
}

module _ ⦃env : Env⦄ {R : State → State → Type 0} (moves : IsSessionFlow R) where
  open env use {System, system_name}

  pub Runs-get_system_participants : (system : System) → Runs R (get_system_participants system)
  unfolding get_system_participants
  Runs-get_system_participants system = let flow = moves.flow in search lookup_rules

  pub Runs-get_systems : (systems : List System) → Runs R (get_systems systems)
  unfolding get_systems
  Runs-get_systems [] = let flow = moves.flow in search lookup_rules
  Runs-get_systems (system ∷ systems) =
      Runs-bind moves.flow _ _ (Runs-get_system_participants system)
        λ attributes. let flow = moves.flow in search (lookup_rules, Runs-get_systems systems)

  pub Runs-emplace_systems : (systems : List System) → Runs R (emplace_systems systems)
  unfolding emplace_systems
  Runs-emplace_systems [] = let flow = moves.flow in search lookup_rules
  Runs-emplace_systems (system ∷ systems) =
      Runs-bind moves.flow _ _
        (Runs-modify moves.flow _ (λ s. moves.emplaced s (shown_name (system_name system)) system))
        λ _. Runs-bind moves.flow _ _ (Runs-remember moves _) (λ _. Runs-emplace_systems systems)

  Runs-change_state_method :
      (name : Text) (change : System → Action (Unit {0})) (action success failed : Text)
      → ((system : System) → Runs R (change system))
      → Runs R (change_state_method name change action success failed)
  unfolding change_state_method
  Runs-change_state_method name change action success failed h =
      let flow = moves.flow in search lookup_rules depth 9

  pub Runs-shutdown_and_erase : Forgets R → (system : System) → Runs R (shutdown_and_erase system)
  unfolding shutdown_and_erase
  Runs-shutdown_and_erase forgets system =
      let flow = moves.flow in
      let erased = λ (s : State). forgets.erased s (system_name system) in
      search lookup_rules depth 9

  module _ (tokens : List Text) (enough : 1 < length tokens) where
    first : 0 < length tokens
    first = omega arith

    pub Runs-transit :
        (t : Transition) (success failed : String) → Runs R (transit t success failed tokens)
    Runs-transit t success failed =
        let flow = moves.flow in
        search (lookup_rules, first, enough, Runs-change_state_method) depth 9

    pub Runs-shutdown_system : Forgets R → Runs R (shutdown_system tokens)
    unfolding shutdown_system
    Runs-shutdown_system forgets =
        let flow = moves.flow in
        search (lookup_rules, first, enough, Runs-change_state_method, Runs-shutdown_and_erase)
          depth 9

    pub Runs-discover_system : Runs R (discover_system tokens)
    unfolding discover_system
    Runs-discover_system =
        let flow = moves.flow in
        search (lookup_rules, first, enough, Runs-get_system_participants) depth 14

    pub Runs-start_monitoring_system : Runs R (start_monitoring_system tokens)
    unfolding start_monitoring_system
    Runs-start_monitoring_system =
        let flow = moves.flow in search (lookup_rules, first, enough) depth 14

    pub Runs-stop_monitoring_system : Runs R (stop_monitoring_system tokens)
    unfolding stop_monitoring_system
    Runs-stop_monitoring_system =
        let flow = moves.flow in search (lookup_rules, first, enough) depth 14

    pub Runs-get_participants : Runs R (get_participants tokens)
    unfolding get_participants
    Runs-get_participants =
        let flow = moves.flow in
        search (lookup_rules, first, enough, Runs-get_system_participants) depth 14

  pub Runs-discover_all_systems :
      (tokens : List Text) → 0 < length tokens → Runs R (discover_all_systems tokens)
  unfolding discover_all_systems
  Runs-discover_all_systems tokens enough =
      let flow = moves.flow in
      search (lookup_rules, enough, Runs-get_systems, Runs-emplace_systems) depth 14
