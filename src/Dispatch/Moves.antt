-- ===== src/Dispatch/Moves.antt =====
-- Every command line keeps to the changes of a session, and nothing undefined happens.
use fep3_base_utilities.Prelude.{
  get_elem?, ℕ, Bool, ◌≤◌, ◌<◌, true, false, Option, none, some, List, [], ◌∷◌, ◌≡◌, refl, Text,
  arith, length,
}
use fep3_base_utilities.Effect.{token, ◌>>=◌}
use fep3_base_utilities.Effect.Runs.{Runs, Runs-bind, Runs-if, Runs-if_false, Runs-pure, Runs-token}
use fep3_base_utilities.Env.{Env}
use fep3_base_utilities.Session.{State}
use fep3_base_utilities.Session.Moves.{
  IsSessionFlow, SetsMode, Forgets, Resets, UsesProperty, UsesProperties, Runs-call,
}
use fep3_base_utilities.Output.Moves.{Runs-write_error, Runs-write_note}
use fep3_base_utilities.Lookup.Moves.{lookup_rules}
use fep3_base_utilities.CommandTable.{ActionFunction, ControlCommand}
use fep3_base_utilities.Commands.Systems.{
  start_system, stop_system, load_system, unload_system, initialize_system, deinitialize_system,
  pause_system,
}
use fep3_base_utilities.Commands.Participants.{
  load_participant, unload_participant, initialize_participant, deinitialize_participant,
  start_participant, stop_participant, pause_participant, shutdown_participant, set_init_priority,
  get_init_priority, set_start_priority, get_start_priority,
}
use fep3_base_utilities.Commands.Systems.Moves as Systems
use fep3_base_utilities.Commands.Participants.Moves as Participants
use fep3_base_utilities.Commands.Aggregated.Moves as Aggregated
use fep3_base_utilities.Commands.Timing.Moves as Timing
use fep3_base_utilities.Commands.Modes.Moves as Modes
use fep3_base_utilities.Commands.Rpc.Moves as Rpc
use fep3_base_utilities.Commands.Properties.Moves as Properties
use fep3_base_utilities.Commands.Properties.Moves.{NeverNull}
use fep3_base_utilities.Dispatch.{
  find_command, wrong_count, help_on, help, run_action, process_found, process_commandline,
}
use fep3_base_utilities.Dispatch.Arity.{tokens_needed, tokens_needed-le-length}

-- The mode that an action sets.
unfoldable pub mode_of : ActionFunction → Option Bool
mode_of ActionFunction.enable_json_mode = some true
mode_of ActionFunction.disable_json_mode = some false
mode_of _ = none

-- The actions that may forget known systems.
unfoldable pub may_forget : ActionFunction → Bool
may_forget ActionFunction.quit = true
may_forget ActionFunction.shutdown_system = true
may_forget ActionFunction.set_system_state = true
may_forget _ = false

module _ ⦃env : Env⦄ (rounds : ℕ) where
  -- The first word is the name of the command.
  pub process_commandline-cons :
      (name : Text) (arguments : List Text)
      → process_commandline rounds (name ∷ arguments)
        ≡ process_found rounds (name ∷ arguments) name (find_command name)
  unfolding process_commandline token ◌>>=◌
  process_commandline-cons name arguments = refl

module _ ⦃env : Env⦄ {R : State → State → Type 0} (moves : IsSessionFlow R) where
  Runs-help_on :
      (action name : Text) (cmd : Option ControlCommand) → Runs R (help_on action name cmd)
  unfolding help_on
  Runs-help_on action name none = let flow = moves.flow in search lookup_rules
  Runs-help_on action name (some cmd) = let flow = moves.flow in search lookup_rules

  Runs-help : (tokens : List Text) → 0 < length tokens → Runs R (help tokens)
  unfolding help
  Runs-help [] h = elim h [ ]
  Runs-help (t ∷ []) h =
      let flow = moves.flow in
      let first : 0 < length (t ∷ []) = omega arith in search (lookup_rules)
  Runs-help (t ∷ u ∷ ts) h =
      Runs-bind moves.flow _ _ (Runs-token moves.flow (t ∷ u ∷ ts) 0 (omega arith)) λ action.
        Runs-if moves.flow _ _ _
          (Runs-bind moves.flow _ _ (Runs-write_note moves action _)
            (λ _. Runs-pure moves.flow true))
          (Runs-bind moves.flow _ _ (Runs-token moves.flow (t ∷ u ∷ ts) 1 (omega arith))
            (λ name. Runs-help_on action name (find_command name)))

  module _ (rounds : ℕ) (never : NeverNull) where
    Runs-run_action :
        (f : ActionFunction) (tokens : List Text)
        → tokens_needed f ≤ length tokens
        → ((b : Bool) → mode_of f ≡ some b → SetsMode R b)
        → ((participant : Text)
            → get_elem? tokens 2 ≡ some participant
            → UsesProperty R participant)
        → (may_forget f ≡ true → Forgets R)
        → Runs R (run_action rounds f tokens)
    unfolding mode_of may_forget run_action start_system stop_system load_system unload_system
        initialize_system deinitialize_system pause_system load_participant unload_participant
        initialize_participant deinitialize_participant start_participant stop_participant
        pause_participant shutdown_participant set_init_priority get_init_priority
        set_start_priority get_start_priority
    Runs-run_action ActionFunction.quit ts h sets uses forgets =
        Modes.Runs-quit moves ts h (forgets refl)
    Runs-run_action ActionFunction.discover_all_systems ts h sets uses forgets =
        Systems.Runs-discover_all_systems moves ts h
    Runs-run_action ActionFunction.discover_system ts h sets uses forgets =
        Systems.Runs-discover_system moves ts h
    Runs-run_action ActionFunction.set_current_working_directory ts h sets uses forgets =
        Modes.Runs-set_cwd moves ts (omega arith) h
    Runs-run_action ActionFunction.get_current_working_directory ts h sets uses forgets =
        Modes.Runs-get_cwd moves ts h
    Runs-run_action ActionFunction.help ts h sets uses forgets = Runs-help ts h
    Runs-run_action ActionFunction.load_system ts h sets uses forgets =
        Systems.Runs-transit moves ts h _ _ _
    Runs-run_action ActionFunction.unload_system ts h sets uses forgets =
        Systems.Runs-transit moves ts h _ _ _
    Runs-run_action ActionFunction.initialize_system ts h sets uses forgets =
        Systems.Runs-transit moves ts h _ _ _
    Runs-run_action ActionFunction.deinitialize_system ts h sets uses forgets =
        Systems.Runs-transit moves ts h _ _ _
    Runs-run_action ActionFunction.start_system ts h sets uses forgets =
        Systems.Runs-transit moves ts h _ _ _
    Runs-run_action ActionFunction.stop_system ts h sets uses forgets =
        Systems.Runs-transit moves ts h _ _ _
    Runs-run_action ActionFunction.pause_system ts h sets uses forgets =
        Systems.Runs-transit moves ts h _ _ _
    Runs-run_action ActionFunction.shutdown_system ts h sets uses forgets =
        Systems.Runs-shutdown_system moves ts h (forgets refl)
    Runs-run_action ActionFunction.start_monitoring_system ts h sets uses forgets =
        Systems.Runs-start_monitoring_system moves ts h
    Runs-run_action ActionFunction.stop_monitoring_system ts h sets uses forgets =
        Systems.Runs-stop_monitoring_system moves ts h
    Runs-run_action ActionFunction.get_participants ts h sets uses forgets =
        Systems.Runs-get_participants moves ts h
    Runs-run_action ActionFunction.set_init_priority ts h sets uses forgets =
        Participants.Runs-set_priority moves ts _ h (λ p n. Runs-call moves _)
    Runs-run_action ActionFunction.get_init_priority ts h sets uses forgets =
        Participants.Runs-get_priority moves ts _ h (λ p. Runs-call moves _)
    Runs-run_action ActionFunction.set_start_priority ts h sets uses forgets =
        Participants.Runs-set_priority moves ts _ h (λ p n. Runs-call moves _)
    Runs-run_action ActionFunction.get_start_priority ts h sets uses forgets =
        Participants.Runs-get_priority moves ts _ h (λ p. Runs-call moves _)
    Runs-run_action ActionFunction.load_participant ts h sets uses forgets =
        Participants.Runs-transit moves ts _ _ _ h
    Runs-run_action ActionFunction.unload_participant ts h sets uses forgets =
        Participants.Runs-transit moves ts _ _ _ h
    Runs-run_action ActionFunction.initialize_participant ts h sets uses forgets =
        Participants.Runs-transit moves ts _ _ _ h
    Runs-run_action ActionFunction.deinitialize_participant ts h sets uses forgets =
        Participants.Runs-transit moves ts _ _ _ h
    Runs-run_action ActionFunction.start_participant ts h sets uses forgets =
        Participants.Runs-transit moves ts _ _ _ h
    Runs-run_action ActionFunction.stop_participant ts h sets uses forgets =
        Participants.Runs-transit moves ts _ _ _ h
    Runs-run_action ActionFunction.pause_participant ts h sets uses forgets =
        Participants.Runs-transit moves ts _ _ _ h
    Runs-run_action ActionFunction.shutdown_participant ts h sets uses forgets =
        Participants.Runs-transit moves ts _ _ _ h
    Runs-run_action ActionFunction.get_participant_property_names ts h sets uses forgets =
        Properties.Runs-property_names moves ts h never rounds
    Runs-run_action ActionFunction.get_participant_properties ts h sets uses forgets =
        Properties.Runs-properties moves ts h never rounds
    Runs-run_action ActionFunction.get_participant_property ts h sets uses forgets =
        Properties.Runs-property moves ts (omega arith) never rounds h uses
    Runs-run_action ActionFunction.set_participant_property ts h sets uses forgets =
        Properties.Runs-set_participant_property moves ts (omega arith) h uses
    Runs-run_action ActionFunction.get_rpc_objects_participant ts h sets uses forgets =
        Rpc.Runs-rpc_objects moves ts h
    Runs-run_action ActionFunction.get_rpc_object_iids_participant ts h sets uses forgets =
        Rpc.Runs-rpc_iids moves ts h
    Runs-run_action ActionFunction.get_rpc_object_definition_participant ts h sets uses forgets =
        Rpc.Runs-rpc_definition moves ts h
    Runs-run_action ActionFunction.get_system_state ts h sets uses forgets =
        Aggregated.Runs-get_system_state moves ts h
    Runs-run_action ActionFunction.set_system_state ts h sets uses forgets =
        Aggregated.Runs-set_system_state moves ts h (forgets refl)
    Runs-run_action ActionFunction.get_participant_state ts h sets uses forgets =
        Aggregated.Runs-get_participant_state moves ts h
    Runs-run_action ActionFunction.set_participant_state ts h sets uses forgets =
        Aggregated.Runs-set_participant_state moves ts h
    Runs-run_action ActionFunction.call_rpc ts h sets uses forgets = Rpc.Runs-call_rpc moves ts h
    Runs-run_action ActionFunction.configure_system_timing_system_time ts h sets uses forgets =
        Timing.Runs-system_time moves ts h
    Runs-run_action ActionFunction.configure_system_timing_discrete ts h sets uses forgets =
        Timing.Runs-discrete moves ts h
    Runs-run_action ActionFunction.configure_system_time_no_sync ts h sets uses forgets =
        Timing.Runs-no_sync moves ts h
    Runs-run_action ActionFunction.get_current_timing_master ts h sets uses forgets =
        Timing.Runs-timing_master moves ts h
    Runs-run_action ActionFunction.enable_auto_discovery ts h sets uses forgets =
        Modes.Runs-enable_auto moves ts h
    Runs-run_action ActionFunction.disable_auto_discovery ts h sets uses forgets =
        Modes.Runs-disable_auto moves ts h
    Runs-run_action ActionFunction.enable_json_mode ts h sets uses forgets =
        Modes.Runs-enable_json moves ts h (sets true refl)
    Runs-run_action ActionFunction.disable_json_mode ts h sets uses forgets =
        Modes.Runs-disable_json moves ts h (sets false refl)

    Runs-process_found :
        (command_line : List Text) (name : Text) (found : Option ControlCommand)
        → ((cmd : ControlCommand)
            → found ≡ some cmd
            → wrong_count (length command_line) cmd ≡ false
            → tokens_needed cmd.action ≤ length command_line)
        → ((cmd : ControlCommand)
            → found ≡ some cmd
            → (b : Bool) → mode_of cmd.action ≡ some b
            → SetsMode R b)
        → ((participant : Text)
            → get_elem? command_line 2 ≡ some participant
            → UsesProperty R participant)
        → ((cmd : ControlCommand) → found ≡ some cmd → may_forget cmd.action ≡ true → Forgets R)
        → Runs R (process_found rounds command_line name found)
    unfolding process_found
    Runs-process_found command_line name none h sets uses forgets =
        let flow = moves.flow in search lookup_rules
    Runs-process_found command_line name (some cmd) h sets uses forgets =
        Runs-if_false moves.flow _ _ _
          (Runs-bind moves.flow _ _ (Runs-write_error moves _ _ _ _) (λ _. Runs-pure moves.flow _))
          λ count.
            Runs-bind moves.flow _ _
              (Runs-run_action cmd.action command_line (h cmd refl count) (sets cmd refl) uses
                (forgets cmd refl))
              (λ succeeded. Runs-pure moves.flow _)

    pub Runs-process_named :
        (name : Text) (arguments : List Text)
        → ((cmd : ControlCommand)
            → find_command name ≡ some cmd
            → (b : Bool) → mode_of cmd.action ≡ some b
            → SetsMode R b)
        → ((participant : Text)
            → get_elem? (name ∷ arguments) 2 ≡ some participant
            → UsesProperty R participant)
        → ((cmd : ControlCommand)
            → find_command name ≡ some cmd
            → may_forget cmd.action ≡ true
            → Forgets R)
        → Runs R (process_commandline rounds (name ∷ arguments))
    Runs-process_named name arguments sets uses forgets =
        rw (process_commandline-cons rounds name arguments) (
          Runs-process_found (name ∷ arguments) name (find_command name)
            (λ cmd. tokens_needed-le-length name cmd (length (name ∷ arguments))) sets uses forgets)

    pub Runs-process_commandline :
        Resets R
        → UsesProperties R
        → (command_line : List Text) → 0 < length command_line
        → Runs R (process_commandline rounds command_line)
    Runs-process_commandline resets uses [] enough = elim enough [ ]
    Runs-process_commandline resets uses (name ∷ arguments) enough =
        Runs-process_named name arguments (λ cmd found b _. resets.modes b)
          (λ participant _. uses participant) (λ cmd found _. resets.forgets)
