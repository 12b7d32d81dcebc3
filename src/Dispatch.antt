-- ===== src/Dispatch.antt =====
-- src/fep_control_tool/fep_control.cpp: findCommand, help and processCommandline.
pub mod Arity
pub mod Unknown
pub mod Moves
pub mod Invariants
pub mod Refusals
pub mod Arguments
pub mod Names
pub mod Reports
pub mod Documents
pub mod Used
pub mod Known
pub mod Transitions
pub mod Discovery
pub mod Priorities
pub mod Machines
use fep3_base_utilities.Prelude.{
  ℕ, suc, ◌+◌, ◌-◌, Bool, true, false, ◌||◌, Option, none, some, List, [], ◌∷◌, ◌++◌, Text, codes,
  decimal, length, ltb, ◌==◌, str_eq, if◌then◌else◌,
}
use fep3_base_utilities.Numbers.{ℤ, pos, negsuc}
use fep3_base_utilities.Effect.{Effect, pure, token, ◌>>=◌, ◌>>◌}
use fep3_base_utilities.Env.{Env}
use fep3_base_utilities.Session.{Session, State, Action}
use fep3_base_utilities.Output.{input_error, newline, write_note, write_error}
use fep3_base_utilities.CommandTable.{
  ActionFunction, ArgumentHandler, ControlCommand, control_commands,
}
use fep3_base_utilities.Commands.Systems
use fep3_base_utilities.Commands.Participants
use fep3_base_utilities.Commands.Aggregated
use fep3_base_utilities.Commands.Timing
use fep3_base_utilities.Commands.Modes
use fep3_base_utilities.Commands.Rpc
use fep3_base_utilities.Commands.Properties

abbrev pub find_in : Text → List ControlCommand → Option ControlCommand
find_in command_candidate [] = none
find_in command_candidate (cmd ∷ cmds) =
    if str_eq cmd.name command_candidate then some cmd else find_in command_candidate cmds

-- `none` stands for the end of the table.
unfoldable pub find_command : Text → Option ControlCommand
find_command command_candidate = find_in command_candidate control_commands

abbrev pub describe : List ControlCommand → Text
describe [] = []
describe (cmd ∷ cmds) =
    let rest = describe cmds in
    if cmd.hidden then rest else cmd.name ++ codes " : " ++ cmd.description ++ newline ++ rest

abbrev pub describe_arguments : List ArgumentHandler → Text
describe_arguments [] = []
describe_arguments (argument ∷ arguments) =
    codes " <" ++ argument.description ++ codes ">" ++ describe_arguments arguments

-- The numbers of tokens that the check refuses; no command has more optional arguments than
-- arguments.
abbrev pub wrong_count : ℕ → ControlCommand → Bool
wrong_count size cmd =
    ltb (length cmd.arguments + 1) size
    || ltb size (length cmd.arguments + 1 - cmd.last_optional_parameters)

unfoldable pub expected_count : ControlCommand → Text
expected_count cmd =
    let all = length cmd.arguments in
    if cmd.last_optional_parameters == 0
    then decimal all
    else decimal (all - cmd.last_optional_parameters) ++ codes ".." ++ decimal all

module _ ⦃env : Env⦄ where
  -- For an unknown command the text that was put together is dropped.
  unfoldable pub help_on : Text → Text → Option ControlCommand → Action Bool
  help_on action name none = pure false
  help_on action name (some cmd) = do
    write_note action
        (name ++ describe_arguments cmd.arguments ++ codes " : " ++ cmd.description ++ newline)
    pure true

  unfoldable pub help : List Text → Action Bool
  help tokens = do
    action ← token tokens 0
    if length tokens == 1
        then (do write_note action (describe control_commands); pure true)
        else (do name ← token tokens 1; help_on action name (find_command name))

  module _ (rounds : ℕ) where
    -- The call through the pointer to a member function.
    unfoldable pub run_action : ActionFunction → List Text → Action Bool
    run_action ActionFunction.quit = Modes.quit
    run_action ActionFunction.discover_all_systems = Systems.discover_all_systems
    run_action ActionFunction.discover_system = Systems.discover_system
    run_action ActionFunction.set_current_working_directory = Modes.set_current_working_directory
    run_action ActionFunction.get_current_working_directory = Modes.get_current_working_directory
    run_action ActionFunction.help = help
    run_action ActionFunction.load_system = Systems.load_system
    run_action ActionFunction.unload_system = Systems.unload_system
    run_action ActionFunction.set_init_priority = Participants.set_init_priority
    run_action ActionFunction.get_init_priority = Participants.get_init_priority
    run_action ActionFunction.set_start_priority = Participants.set_start_priority
    run_action ActionFunction.get_start_priority = Participants.get_start_priority
    run_action ActionFunction.initialize_system = Systems.initialize_system
    run_action ActionFunction.deinitialize_system = Systems.deinitialize_system
    run_action ActionFunction.start_system = Systems.start_system
    run_action ActionFunction.stop_system = Systems.stop_system
    run_action ActionFunction.pause_system = Systems.pause_system
    run_action ActionFunction.shutdown_system = Systems.shutdown_system
    run_action ActionFunction.start_monitoring_system = Systems.start_monitoring_system
    run_action ActionFunction.stop_monitoring_system = Systems.stop_monitoring_system
    run_action ActionFunction.load_participant = Participants.load_participant
    run_action ActionFunction.unload_participant = Participants.unload_participant
    run_action ActionFunction.initialize_participant = Participants.initialize_participant
    run_action ActionFunction.deinitialize_participant = Participants.deinitialize_participant
    run_action ActionFunction.start_participant = Participants.start_participant
    run_action ActionFunction.stop_participant = Participants.stop_participant
    run_action ActionFunction.pause_participant = Participants.pause_participant
    run_action ActionFunction.get_participant_property_names =
        Properties.get_participant_property_names rounds
    run_action ActionFunction.get_participant_properties =
        Properties.get_participant_properties rounds
    run_action ActionFunction.get_participant_property = Properties.get_participant_property rounds
    run_action ActionFunction.set_participant_property = Properties.set_participant_property
    run_action ActionFunction.get_rpc_objects_participant = Rpc.get_rpc_objects_participant
    run_action ActionFunction.get_rpc_object_iids_participant = Rpc.get_rpc_object_iids_participant
    run_action ActionFunction.get_rpc_object_definition_participant =
        Rpc.get_rpc_object_definition_participant
    run_action ActionFunction.shutdown_participant = Participants.shutdown_participant
    run_action ActionFunction.get_system_state = Aggregated.get_system_state
    run_action ActionFunction.set_system_state = Aggregated.set_system_state
    run_action ActionFunction.get_participant_state = Aggregated.get_participant_state
    run_action ActionFunction.set_participant_state = Aggregated.set_participant_state
    run_action ActionFunction.get_participants = Systems.get_participants
    run_action ActionFunction.call_rpc = Rpc.call_rpc
    run_action ActionFunction.configure_system_timing_system_time =
        Timing.configure_system_timing_system_time
    run_action ActionFunction.configure_system_timing_discrete =
        Timing.configure_system_timing_discrete
    run_action ActionFunction.configure_system_time_no_sync = Timing.configure_system_time_no_sync
    run_action ActionFunction.get_current_timing_master = Timing.get_current_timing_master
    run_action ActionFunction.enable_auto_discovery = Modes.enable_auto_discovery
    run_action ActionFunction.disable_auto_discovery = Modes.disable_auto_discovery
    run_action ActionFunction.enable_json_mode = Modes.enable_json_mode
    run_action ActionFunction.disable_json_mode = Modes.disable_json_mode

    unfoldable pub process_found : List Text → Text → Option ControlCommand → Action ℤ
    process_found command_line name none = do
      write_error (codes "processCommandline")
          (codes "Invalid command '" ++ name ++ codes "', use 'help' for valid commands")
          input_error []
      pure (negsuc 1)
    process_found command_line name (some cmd) =
        if wrong_count (length command_line) cmd
        then (do
          write_error (codes "processCommandline")
              (codes "Invalid number of arguments for '"
                ++ name
                ++ codes "' ("
                ++ decimal (length command_line - 1)
                ++ codes " instead of "
                ++ expected_count cmd
                ++ codes "), use 'help' for more information")
              input_error []
          pure (negsuc 2))
        else (do
          succeeded ← run_action cmd.action command_line
          pure (if succeeded then pos 0 else pos 1))

    -- The numbers are the results of the function: negsuc 1 is -2, and negsuc 2 is -3.
    unfoldable pub process_commandline : List Text → Action ℤ
    process_commandline command_line = do
      name ← token command_line 0
      process_found command_line name (find_command name)
