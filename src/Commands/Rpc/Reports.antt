-- ===== src/Commands/Rpc/Reports.antt =====
-- A command on RPC services that fails has told so.
use fep3_base_utilities.Prelude.{
  true, false, not, Bool, Option, none, some, ◌<◌, List, Text, arith, length,
}
use fep3_base_utilities.Env.{Env}
use fep3_base_utilities.Session.{Action}
use fep3_base_utilities.Output.Reports.{Longer-moves, Reports}
use fep3_base_utilities.Lookup.Reports.{command_report_rules}
use fep3_base_utilities.Commands.Rpc.{
  no_info, on_info, with_info, get_rpc_objects_participant, get_rpc_object_iids_participant,
  get_rpc_object_definition_participant, rpc_answered, call_rpc,
}
use fep3_base_utilities.Commands.Rpc.Moves.{
  Runs-parse_json_string, Runs-optional_token, Runs-build_rpc_request,
}

module _ ⦃env : Env⦄ where
  open env use {ParticipantInfo, Json}

  Reports-no_info :
      (action system participant : Text) → Reports not (no_info action system participant)
  unfolding no_info
  Reports-no_info action system participant =
      let moves = Longer-moves in let flow = moves.flow in search command_report_rules

  Reports-on_info :
      (missing : Action Bool) (use_info : ParticipantInfo → Action Bool)
      (info : Option ParticipantInfo)
      → Reports not missing
      → ((i : ParticipantInfo) → Reports not (use_info i))
      → Reports not (on_info missing use_info info)
  unfolding on_info
  Reports-on_info missing use_info none hm hu = hm
  Reports-on_info missing use_info (some info) hm hu = hu info

  Reports-with_info :
      (action system participant : Text) (use_info : ParticipantInfo → Action Bool)
      → ((i : ParticipantInfo) → Reports not (use_info i))
      → Reports not (with_info action system participant use_info)
  unfolding with_info
  Reports-with_info action system participant use_info h =
      let moves = Longer-moves in
      let flow = moves.flow in
      search (command_report_rules, Reports-on_info, Reports-no_info) depth 9

  Reports-rpc_answered :
      (action : Text) (answer : Bool × Text) → Reports not (rpc_answered action answer)
  unfolding rpc_answered
  Reports-rpc_answered action (true, response) =
      let moves = Longer-moves in
      let flow = moves.flow in search (command_report_rules, Runs-parse_json_string)
  Reports-rpc_answered action (false, response) =
      let moves = Longer-moves in let flow = moves.flow in search command_report_rules

  module _ (tokens : List Text) where
    pub Reports-rpc_objects : 2 < length tokens → Reports not (get_rpc_objects_participant tokens)
    unfolding get_rpc_objects_participant
    Reports-rpc_objects enough =
        let moves = Longer-moves in
        let flow = moves.flow in
        let first : 0 < length tokens = omega arith in
        let second : 1 < length tokens = omega arith in
        search (command_report_rules, Reports-with_info) depth 18

    pub Reports-rpc_iids : 3 < length tokens → Reports not (get_rpc_object_iids_participant tokens)
    unfolding get_rpc_object_iids_participant
    Reports-rpc_iids enough =
        let moves = Longer-moves in
        let flow = moves.flow in
        let first : 0 < length tokens = omega arith in
        let second : 1 < length tokens = omega arith in
        let third : 2 < length tokens = omega arith in
        search (command_report_rules, Reports-with_info) depth 18

    pub Reports-rpc_definition :
        4 < length tokens → Reports not (get_rpc_object_definition_participant tokens)
    unfolding get_rpc_object_definition_participant
    Reports-rpc_definition enough =
        let moves = Longer-moves in
        let flow = moves.flow in
        let first : 0 < length tokens = omega arith in
        let second : 1 < length tokens = omega arith in
        let third : 2 < length tokens = omega arith in
        let fourth : 3 < length tokens = omega arith in
        search (command_report_rules, Reports-with_info) depth 18

    pub Reports-call_rpc : 5 < length tokens → Reports not (call_rpc tokens)
    unfolding call_rpc
    Reports-call_rpc enough =
        let moves = Longer-moves in
        let flow = moves.flow in
        let first : 0 < length tokens = omega arith in
        let second : 1 < length tokens = omega arith in
        let third : 2 < length tokens = omega arith in
        let fourth : 3 < length tokens = omega arith in
        let fifth : 4 < length tokens = omega arith in
        search
          (command_report_rules, Runs-optional_token, Runs-build_rpc_request, Reports-rpc_answered)
          depth 20
