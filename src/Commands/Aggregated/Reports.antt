-- ===== src/Commands/Aggregated/Reports.antt =====
-- A command on states that fails has told so.
use fep3_base_utilities.Prelude.{false, not, Option, none, some, ◌<◌, List, Text, arith, length}
use fep3_base_utilities.Env.{Env}
use fep3_base_utilities.Output.Reports.{Longer-moves, Longer-resets, Reports, is_none, Reports-bind}
use fep3_base_utilities.Lookup.Reports.{command_report_rules, Reports-connected_system}
use fep3_base_utilities.Effect.{token, ◌>>=◌}
use fep3_base_utilities.Effect.Runs.{Runs-token}
use fep3_base_utilities.Prelude.{◌≡◌}
use fep3_base_utilities.Output.Reports.{Reports-bind_early}
use fep3_base_utilities.Lookup.{on_entry}
use fep3_base_utilities.Lookup.Moves.{lookup_rules}
use fep3_base_utilities.Commands.Systems.Reports.{Reports-shutdown_system}
use fep3_base_utilities.Commands.Aggregated.Moves.{Runs-get_system_state, Runs-set_state_of}
use fep3_base_utilities.Commands.Aggregated.{
  get_system_state, set_state_failed, set_state_of, set_system_state, read_machine,
  get_participant_state, set_participant_state,
}

module _ ⦃env : Env⦄ where
  open env use {StateMachine, System}

  Reports-set_state_failed :
      (action state_string first what : Text)
      → Reports not (set_state_failed action state_string first what)
  unfolding set_state_failed
  Reports-set_state_failed action state_string first what =
      let moves = Longer-moves in let flow = moves.flow in search command_report_rules

  Reports-read_machine :
      (action system participant : Text) (machine : Option StateMachine)
      → Reports not (read_machine action system participant machine)
  unfolding read_machine
  Reports-read_machine action system participant none =
      let moves = Longer-moves in let flow = moves.flow in search command_report_rules
  Reports-read_machine action system participant (some machine) =
      let moves = Longer-moves in let flow = moves.flow in search command_report_rules

  module _ (tokens : List Text) where
    pub Reports-get_system_state : 1 < length tokens → Reports not (get_system_state tokens)
    unfolding get_system_state
    Reports-get_system_state enough =
        let moves = Longer-moves in
        let flow = moves.flow in
        let first : 0 < length tokens = omega arith in search (command_report_rules) depth 18

    Reports-set_state_of :
        (action name state_string : Text) (entry : Text × System)
        → 1 < length tokens
        → Reports not (set_state_of tokens action name state_string entry)
    unfolding set_state_of
    Reports-set_state_of action name state_string entry enough =
        let moves = Longer-moves in
        let flow = moves.flow in
        search
          (
            command_report_rules, Reports-set_state_failed, Reports-shutdown_system,
            Runs-get_system_state,
          )
          depth 14

    late_state :
        (action name : Text) (entry : Option (Text × System))
        → 2 < length tokens
        → is_none entry ≡ false
        → Reports not (
            token tokens 2 >>= λ state_string.
            on_entry (set_state_of tokens action name state_string) entry)
    unfolding on_entry
    late_state action name none enough e = cc
    late_state action name (some entry) enough e =
        let moves = Longer-moves in
        let flow = moves.flow in
        let second : 1 < length tokens = omega arith in
        search (command_report_rules, Reports-set_state_of)

    pub Reports-set_system_state : 2 < length tokens → Reports not (set_system_state tokens)
    unfolding set_system_state
    Reports-set_system_state enough =
        let forgets = Longer-resets.forgets in
        let moves = Longer-moves in
        let flow = moves.flow in
        let first : 0 < length tokens = omega arith in
        let second : 1 < length tokens = omega arith in
        Reports-bind not _ _ (Runs-token flow tokens 0 first) λ action.
          Reports-bind not _ _ (Runs-token flow tokens 1 second) λ name.
            Reports-bind_early is_none not _ _ (Reports-connected_system name action)
              (λ entry. search (lookup_rules, Runs-set_state_of))
              (λ entry. late_state action name entry enough)

    pub Reports-get_participant_state :
        2 < length tokens → Reports not (get_participant_state tokens)
    unfolding get_participant_state
    Reports-get_participant_state enough =
        let moves = Longer-moves in
        let flow = moves.flow in
        let first : 0 < length tokens = omega arith in
        let second : 1 < length tokens = omega arith in
        search (command_report_rules, Reports-read_machine) depth 18

    pub Reports-set_participant_state :
        3 < length tokens → Reports not (set_participant_state tokens)
    unfolding set_participant_state
    Reports-set_participant_state enough =
        let moves = Longer-moves in
        let flow = moves.flow in
        let first : 0 < length tokens = omega arith in
        let second : 1 < length tokens = omega arith in
        let third : 2 < length tokens = omega arith in search (command_report_rules) depth 18
