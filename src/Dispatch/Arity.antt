-- ===== src/Dispatch/Arity.antt =====
-- The table of commands and the numbers of tokens that its actions read.
use fep3_base_utilities.Prelude.{
  ℕ, ◌+◌, ◌-◌, ◌≤◌, Bool, true, false, ◌&&◌, some, List, [], ◌∷◌, ◌≡◌, refl, Text, arith, length,
  leb,
}
use fep3_base_utilities.CommandTable.{ActionFunction, ControlCommand, control_commands}
use fep3_base_utilities.Dispatch.{find_in, find_command, wrong_count}

-- The tokens that an action reads in any case, the command's name included.
abbrev pub tokens_needed : ActionFunction → ℕ
tokens_needed ActionFunction.quit = 1
tokens_needed ActionFunction.discover_all_systems = 1
tokens_needed ActionFunction.get_current_working_directory = 1
tokens_needed ActionFunction.help = 1
tokens_needed ActionFunction.enable_auto_discovery = 1
tokens_needed ActionFunction.disable_auto_discovery = 1
tokens_needed ActionFunction.enable_json_mode = 1
tokens_needed ActionFunction.disable_json_mode = 1
tokens_needed ActionFunction.set_init_priority = 4
tokens_needed ActionFunction.get_init_priority = 3
tokens_needed ActionFunction.set_start_priority = 4
tokens_needed ActionFunction.get_start_priority = 3
tokens_needed ActionFunction.load_participant = 3
tokens_needed ActionFunction.unload_participant = 3
tokens_needed ActionFunction.initialize_participant = 3
tokens_needed ActionFunction.deinitialize_participant = 3
tokens_needed ActionFunction.start_participant = 3
tokens_needed ActionFunction.stop_participant = 3
tokens_needed ActionFunction.pause_participant = 3
tokens_needed ActionFunction.shutdown_participant = 3
tokens_needed ActionFunction.get_participant_property_names = 3
tokens_needed ActionFunction.get_participant_properties = 3
tokens_needed ActionFunction.get_participant_property = 4
tokens_needed ActionFunction.set_participant_property = 5
tokens_needed ActionFunction.get_rpc_objects_participant = 3
tokens_needed ActionFunction.get_rpc_object_iids_participant = 4
tokens_needed ActionFunction.get_rpc_object_definition_participant = 5
tokens_needed ActionFunction.set_system_state = 3
tokens_needed ActionFunction.get_participant_state = 3
tokens_needed ActionFunction.set_participant_state = 4
tokens_needed ActionFunction.call_rpc = 6
tokens_needed ActionFunction.configure_system_timing_system_time = 3
tokens_needed ActionFunction.configure_system_timing_discrete = 5
tokens_needed _ = 2

covers : ControlCommand → Bool
covers cmd =
    leb (tokens_needed cmd.action) (length cmd.arguments + 1 - cmd.last_optional_parameters)
    && leb cmd.last_optional_parameters (length cmd.arguments)

abbrev all_cover : List ControlCommand → Bool
all_cover [] = true
all_cover (cmd ∷ cmds) = covers cmd && all_cover cmds

table_covers : all_cover control_commands ≡ true
unfolding control_commands covers
table_covers = refl

find_in-covers :
    (name : Text) (cmds : List ControlCommand) (cmd : ControlCommand)
    → all_cover cmds ≡ true
    → find_in name cmds ≡ some cmd
    → covers cmd ≡ true
find_in-covers name [] cmd h e = cc
find_in-covers name (c ∷ cmds) cmd h e = ground (arith, find_in-covers name cmds cmd)

-- A command line whose number of tokens is not refused has all the tokens that its action reads.
pub tokens_needed-le-length :
    (name : Text) (cmd : ControlCommand) (size : ℕ)
    → find_command name ≡ some cmd
    → wrong_count size cmd ≡ false
    → tokens_needed cmd.action ≤ size
unfolding find_command covers
tokens_needed-le-length name cmd size found count =
    ground (arith, find_in-covers name control_commands cmd table_covers found)
