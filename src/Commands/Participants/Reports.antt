-- ===== src/Commands/Participants/Reports.antt =====
-- A command on a participant that fails has told so.
use fep3_base_utilities.Prelude.{not, Option, none, some, ◌<◌, List, String, Text, arith, length}
use fep3_base_utilities.Effect.Runs.{Runs}
use fep3_base_utilities.Env.{Env}
use fep3_base_utilities.Session.{Action}
use fep3_base_utilities.Output.Reports.{Longer, Longer-moves, Reports}
use fep3_base_utilities.Lookup.Reports.{command_report_rules}
use fep3_base_utilities.Env.{Transition}
use fep3_base_utilities.Numbers.{ℤ}
use fep3_base_utilities.Commands.Participants.{
  change_machine, try_change, do_participant_state_change, transit, set_priority, get_priority,
}
use fep3_base_utilities.Commands.Participants.Moves.{Runs-require}

module _ ⦃env : Env⦄ where
  open env use {StateMachine, Participant, System}

  module _ (change : StateMachine → Action (Unit {0}))
      (changes : (m : StateMachine) → Runs Longer (change m)) where
    Reports-change_machine :
        (action system participant : Text) (machine : Option StateMachine)
        → Reports not (change_machine change action system participant machine)
    unfolding change_machine
    Reports-change_machine action system participant none =
        let moves = Longer-moves in let flow = moves.flow in search command_report_rules
    Reports-change_machine action system participant (some machine) =
        let moves = Longer-moves in let flow = moves.flow in search (command_report_rules, changes)

    Reports-try_change :
        (action system participant : Text) (entry : Text × System)
        → Reports not (try_change change action system participant entry)
    unfolding try_change
    Reports-try_change action system participant (key, sys) =
        let moves = Longer-moves in
        let flow = moves.flow in search (command_report_rules, Reports-change_machine) depth 12

    Reports-do_participant_state_change :
        (tokens : List Text) (action message_1 message_2 : Text)
        → 2 < length tokens
        → Reports not (do_participant_state_change tokens change action message_1 message_2)
    unfolding do_participant_state_change
    Reports-do_participant_state_change tokens action message_1 message_2 enough =
        let moves = Longer-moves in
        let flow = moves.flow in
        let second : 1 < length tokens = omega arith in
        search (command_report_rules, Reports-try_change) depth 14

  module _ (tokens : List Text) where
    pub Reports-transit :
        (t : Transition) (message_1 message_2 : String)
        → 2 < length tokens
        → Reports not (transit t message_1 message_2 tokens)
    Reports-transit t message_1 message_2 enough =
        let moves = Longer-moves in
        let flow = moves.flow in
        let first : 0 < length tokens = omega arith in
        search (command_report_rules, Reports-do_participant_state_change) depth 12

    pub Reports-set_priority :
        (assign : Participant → ℤ → Action (Unit {0}))
        → ((p : Participant) (n : ℤ) → Runs Longer (assign p n))
        → 3 < length tokens
        → Reports not (set_priority assign tokens)
    unfolding set_priority
    Reports-set_priority assign assigns enough =
        let moves = Longer-moves in
        let flow = moves.flow in
        let first : 0 < length tokens = omega arith in
        let second : 1 < length tokens = omega arith in
        let third : 2 < length tokens = omega arith in
        search (command_report_rules, Runs-require, assigns) depth 18

    pub Reports-get_priority :
        (read : Participant → Action ℤ)
        → ((p : Participant) → Runs Longer (read p))
        → 2 < length tokens
        → Reports not (get_priority read tokens)
    unfolding get_priority
    Reports-get_priority read reads enough =
        let moves = Longer-moves in
        let flow = moves.flow in
        let first : 0 < length tokens = omega arith in
        let second : 1 < length tokens = omega arith in
        search (command_report_rules, reads) depth 18
