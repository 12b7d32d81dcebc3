-- ===== src/Commands/Systems/Reports.antt =====
-- A command on a system that fails has told so.
use fep3_base_utilities.Prelude.{not, ◌<◌, List, String, Text, arith, length}
use fep3_base_utilities.Effect.Runs.{Runs}
use fep3_base_utilities.Env.{Env, Transition}
use fep3_base_utilities.Session.{Action}
use fep3_base_utilities.Output.Reports.{Longer, Longer-moves, Longer-resets, Reports}
use fep3_base_utilities.Lookup.Reports.{command_report_rules}
use fep3_base_utilities.Commands.Systems.{
  discover_all_systems, discover_system, change_state_method, transit, shutdown_system,
  start_monitoring_system, stop_monitoring_system, get_participants,
}
use fep3_base_utilities.Commands.Systems.Moves.{
  Runs-get_system_participants, Runs-get_systems, Runs-emplace_systems, Runs-shutdown_and_erase,
}

module _ ⦃env : Env⦄ where
  open env use {System}

  Reports-change_state_method :
      (name : Text) (change : System → Action (Unit {0})) (action success failed : Text)
      → ((system : System) → Runs Longer (change system))
      → Reports not (change_state_method name change action success failed)
  unfolding change_state_method
  Reports-change_state_method name change action success failed h =
      let moves = Longer-moves in let flow = moves.flow in search command_report_rules depth 12

  module _ (tokens : List Text) (enough : 1 < length tokens) where
    first : 0 < length tokens
    first = omega arith

    pub Reports-transit :
        (t : Transition) (success failed : String) → Reports not (transit t success failed tokens)
    Reports-transit t success failed =
        let moves = Longer-moves in
        let flow = moves.flow in
        search (command_report_rules, first, enough, Reports-change_state_method) depth 12

    pub Reports-shutdown_system : Reports not (shutdown_system tokens)
    unfolding shutdown_system
    Reports-shutdown_system =
        let moves = Longer-moves in
        let forgets = Longer-resets.forgets in
        let flow = moves.flow in
        search
          (
            command_report_rules, first, enough, Reports-change_state_method,
            Runs-shutdown_and_erase,
          )
          depth 12

    pub Reports-discover_system : Reports not (discover_system tokens)
    unfolding discover_system
    Reports-discover_system =
        let moves = Longer-moves in
        let flow = moves.flow in
        search (command_report_rules, first, enough, Runs-get_system_participants) depth 16

    pub Reports-start_monitoring_system : Reports not (start_monitoring_system tokens)
    unfolding start_monitoring_system
    Reports-start_monitoring_system =
        let moves = Longer-moves in
        let flow = moves.flow in search (command_report_rules, first, enough) depth 16

    pub Reports-stop_monitoring_system : Reports not (stop_monitoring_system tokens)
    unfolding stop_monitoring_system
    Reports-stop_monitoring_system =
        let moves = Longer-moves in
        let flow = moves.flow in search (command_report_rules, first, enough) depth 16

    pub Reports-get_participants : Reports not (get_participants tokens)
    unfolding get_participants
    Reports-get_participants =
        let moves = Longer-moves in
        let flow = moves.flow in
        search (command_report_rules, first, enough, Runs-get_system_participants) depth 16

  pub Reports-discover_all_systems :
      (tokens : List Text) → 0 < length tokens → Reports not (discover_all_systems tokens)
  unfolding discover_all_systems
  Reports-discover_all_systems tokens enough =
      let moves = Longer-moves in
      let flow = moves.flow in
      search (command_report_rules, enough, Runs-get_systems, Runs-emplace_systems) depth 16
