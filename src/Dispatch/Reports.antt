-- ===== src/Dispatch/Reports.antt =====
-- The failures of the commands but help, and what is written of them.
use fep3_base_utilities.Prelude.{
  ℕ, ◌≤◌, ◌<◌, true, false, Option, none, some, List, ◌∷◌, ◌≡◌, refl, Text, length,
}
use fep3_base_utilities.Effect.Runs.{Runs-pure}
use fep3_base_utilities.Env.{Env}
use fep3_base_utilities.Session.{State}
use fep3_base_utilities.Session.Moves.{Runs-call}
use fep3_base_utilities.CommandTable.{ActionFunction, ControlCommand}
use fep3_base_utilities.Commands.Systems.{
  start_system, stop_system, load_system, unload_system, initialize_system, deinitialize_system,
  pause_system,
}
use fep3_base_utilities.Commands.Participants.{
  load_participant, unload_participant, initialize_participant, deinitialize_participant,
  start_participant, stop_participant, pause_participant, shutdown_participant, set_init_priority,
  get_init_priority, set_start_priority, get_start_priority,
}
use fep3_base_utilities.Commands.Systems.Reports as Systems
use fep3_base_utilities.Commands.Participants.Reports as Participants
use fep3_base_utilities.Commands.Aggregated.Reports as Aggregated
use fep3_base_utilities.Commands.Timing.Reports as Timing
use fep3_base_utilities.Commands.Modes.Reports as Modes
use fep3_base_utilities.Commands.Rpc.Reports as Rpc
use fep3_base_utilities.Commands.Properties.Reports as Properties
use fep3_base_utilities.Commands.Properties.Moves.{NeverNull}
use fep3_base_utilities.Dispatch.{
  find_command, wrong_count, run_action, process_found, process_commandline,
}
use fep3_base_utilities.Dispatch.Moves.{process_commandline-cons}
use fep3_base_utilities.Dispatch.Names.{owns, find_command-owns}
use fep3_base_utilities.Dispatch.Arity.{tokens_needed, tokens_needed-le-length}
use fep3_base_utilities.Prelude.{
  Bool, zero, suc, Bool-cases, if◌then◌else◌, inl, inr, not, ◌≢◌, sym, codes,
}
use mathlib.Core.Bool.{false≢true}
use fep3_base_utilities.Numbers.{ℤ, pos, negsuc}
use fep3_base_utilities.Effect.{value, pure}
use fep3_base_utilities.Output.Reports.{
  Longer-moves, Reports, written, Reports-pure, Reports-told, Reports-bind_early,
  Reports-write_error,
}
use fep3_base_utilities.CommandTable.{control_commands}
use fep3_base_utilities.Session.{Action}

is_help : ActionFunction → Bool
is_help ActionFunction.help = true
is_help _ = false

-- No other command of the table is bound to the action of help.
table_owns : owns is_help (codes "help") control_commands ≡ true
unfolding control_commands is_help codes
table_owns = refl

-- The results other than 0.
failed : ℤ → Bool
failed (pos zero) = false
failed (pos (suc n)) = true
failed (negsuc n) = true

nonzero : (n : ℤ) → n ≢ pos 0 → failed n ≡ true
unfolding failed
nonzero (pos zero) h = elim (h refl) [ ]
nonzero (pos (suc n)) h = refl
nonzero (negsuc n) h = refl

module _ ⦃env : Env⦄ where
  barred : (m : Action Bool) → is_help ActionFunction.help ≡ false → Reports not m
  unfolding is_help
  barred m e = elim (false≢true (sym e)) [ ]

  module _ (rounds : ℕ) (never : NeverNull) where
    Reports-run_action :
        (f : ActionFunction) (tokens : List Text)
        → tokens_needed f ≤ length tokens
        → is_help f ≡ false
        → Reports not (run_action rounds f tokens)
    unfolding run_action start_system stop_system load_system unload_system initialize_system
        deinitialize_system pause_system load_participant unload_participant initialize_participant
        deinitialize_participant start_participant stop_participant pause_participant
        shutdown_participant set_init_priority get_init_priority set_start_priority
        get_start_priority
    Reports-run_action ActionFunction.quit ts h e = Modes.Reports-quit ts h
    Reports-run_action ActionFunction.discover_all_systems ts h e =
        Systems.Reports-discover_all_systems ts h
    Reports-run_action ActionFunction.discover_system ts h e = Systems.Reports-discover_system ts h
    Reports-run_action ActionFunction.set_current_working_directory ts h e =
        Modes.Reports-set_cwd ts h
    Reports-run_action ActionFunction.get_current_working_directory ts h e =
        Modes.Reports-get_cwd ts h
    Reports-run_action ActionFunction.help ts h e =
        barred (run_action rounds ActionFunction.help ts) e
    Reports-run_action ActionFunction.load_system ts h e = Systems.Reports-transit ts h _ _ _
    Reports-run_action ActionFunction.unload_system ts h e = Systems.Reports-transit ts h _ _ _
    Reports-run_action ActionFunction.initialize_system ts h e = Systems.Reports-transit ts h _ _ _
    Reports-run_action ActionFunction.deinitialize_system ts h e =
        Systems.Reports-transit ts h _ _ _
    Reports-run_action ActionFunction.start_system ts h e = Systems.Reports-transit ts h _ _ _
    Reports-run_action ActionFunction.stop_system ts h e = Systems.Reports-transit ts h _ _ _
    Reports-run_action ActionFunction.pause_system ts h e = Systems.Reports-transit ts h _ _ _
    Reports-run_action ActionFunction.shutdown_system ts h e = Systems.Reports-shutdown_system ts h
    Reports-run_action ActionFunction.start_monitoring_system ts h e =
        Systems.Reports-start_monitoring_system ts h
    Reports-run_action ActionFunction.stop_monitoring_system ts h e =
        Systems.Reports-stop_monitoring_system ts h
    Reports-run_action ActionFunction.get_participants ts h e =
        Systems.Reports-get_participants ts h
    Reports-run_action ActionFunction.set_init_priority ts h e =
        Participants.Reports-set_priority ts _ (λ p n. Runs-call Longer-moves _) h
    Reports-run_action ActionFunction.get_init_priority ts h e =
        Participants.Reports-get_priority ts _ (λ p. Runs-call Longer-moves _) h
    Reports-run_action ActionFunction.set_start_priority ts h e =
        Participants.Reports-set_priority ts _ (λ p n. Runs-call Longer-moves _) h
    Reports-run_action ActionFunction.get_start_priority ts h e =
        Participants.Reports-get_priority ts _ (λ p. Runs-call Longer-moves _) h
    Reports-run_action ActionFunction.load_participant ts h e =
        Participants.Reports-transit ts _ _ _ h
    Reports-run_action ActionFunction.unload_participant ts h e =
        Participants.Reports-transit ts _ _ _ h
    Reports-run_action ActionFunction.initialize_participant ts h e =
        Participants.Reports-transit ts _ _ _ h
    Reports-run_action ActionFunction.deinitialize_participant ts h e =
        Participants.Reports-transit ts _ _ _ h
    Reports-run_action ActionFunction.start_participant ts h e =
        Participants.Reports-transit ts _ _ _ h
    Reports-run_action ActionFunction.stop_participant ts h e =
        Participants.Reports-transit ts _ _ _ h
    Reports-run_action ActionFunction.pause_participant ts h e =
        Participants.Reports-transit ts _ _ _ h
    Reports-run_action ActionFunction.shutdown_participant ts h e =
        Participants.Reports-transit ts _ _ _ h
    Reports-run_action ActionFunction.get_participant_property_names ts h e =
        Properties.Reports-property_names ts never rounds h
    Reports-run_action ActionFunction.get_participant_properties ts h e =
        Properties.Reports-properties ts never rounds h
    Reports-run_action ActionFunction.get_participant_property ts h e =
        Properties.Reports-property ts never rounds h
    Reports-run_action ActionFunction.set_participant_property ts h e =
        Properties.Reports-set_participant_property ts h
    Reports-run_action ActionFunction.get_rpc_objects_participant ts h e =
        Rpc.Reports-rpc_objects ts h
    Reports-run_action ActionFunction.get_rpc_object_iids_participant ts h e =
        Rpc.Reports-rpc_iids ts h
    Reports-run_action ActionFunction.get_rpc_object_definition_participant ts h e =
        Rpc.Reports-rpc_definition ts h
    Reports-run_action ActionFunction.get_system_state ts h e =
        Aggregated.Reports-get_system_state ts h
    Reports-run_action ActionFunction.set_system_state ts h e =
        Aggregated.Reports-set_system_state ts h
    Reports-run_action ActionFunction.get_participant_state ts h e =
        Aggregated.Reports-get_participant_state ts h
    Reports-run_action ActionFunction.set_participant_state ts h e =
        Aggregated.Reports-set_participant_state ts h
    Reports-run_action ActionFunction.call_rpc ts h e = Rpc.Reports-call_rpc ts h
    Reports-run_action ActionFunction.configure_system_timing_system_time ts h e =
        Timing.Reports-system_time ts h
    Reports-run_action ActionFunction.configure_system_timing_discrete ts h e =
        Timing.Reports-discrete ts h
    Reports-run_action ActionFunction.configure_system_time_no_sync ts h e =
        Timing.Reports-no_sync ts h
    Reports-run_action ActionFunction.get_current_timing_master ts h e =
        Timing.Reports-timing_master ts h
    Reports-run_action ActionFunction.enable_auto_discovery ts h e = Modes.Reports-enable_auto ts h
    Reports-run_action ActionFunction.disable_auto_discovery ts h e =
        Modes.Reports-disable_auto ts h
    Reports-run_action ActionFunction.enable_json_mode ts h e = Modes.Reports-enable_json ts h
    Reports-run_action ActionFunction.disable_json_mode ts h e = Modes.Reports-disable_json ts h

    Reports-ended : (b : Bool) → not b ≡ false → Reports failed (pure (if b then pos 0 else pos 1))
    unfolding failed
    Reports-ended true e = Reports-pure failed (pos 0) refl
    Reports-ended false e = cc

    Reports-process_found :
        (command_line : List Text) (name : Text) (found : Option ControlCommand)
        → ((cmd : ControlCommand)
            → found ≡ some cmd
            → wrong_count (length command_line) cmd ≡ false
            → tokens_needed cmd.action ≤ length command_line)
        → ((cmd : ControlCommand) → found ≡ some cmd → is_help cmd.action ≡ false)
        → Reports failed (process_found rounds command_line name found)
    unfolding process_found
    Reports-process_found command_line name none h other =
        Reports-told failed _ _ (Reports-write_error _ _ _ _) (λ _. Runs-pure Longer-moves.flow _)
    Reports-process_found command_line name (some cmd) h other =
        elim (Bool-cases (wrong_count (length command_line) cmd)) [
          | inl count ↦ rw count (
              Reports-told failed _ _ (Reports-write_error _ _ _ _)
                (λ _. Runs-pure Longer-moves.flow _))
          | inr count ↦ rw count (
              Reports-bind_early not failed _ _
                (Reports-run_action cmd.action command_line (h cmd refl count) (other cmd refl))
                (λ b. Runs-pure Longer-moves.flow _) Reports-ended)
        ]

    Reports-process_commandline :
        (name : Text) (arguments : List Text)
        → name ≢ codes "help"
        → Reports failed (process_commandline rounds (name ∷ arguments))
    Reports-process_commandline name arguments other =
        rw (process_commandline-cons rounds name arguments) (
          Reports-process_found (name ∷ arguments) name (find_command name)
            (λ cmd. tokens_needed-le-length name cmd (length (name ∷ arguments)))
            (λ cmd. find_command-owns is_help (codes "help") name cmd table_owns other))

    -- A command line with a word that fails has told so: unless its first word is "help", a result other
    -- than 0 comes with at least one more text in the output, if the configuration proxies hand out no
    -- null pointers.
    pub process_commandline-written :
        (name : Text) (arguments : List Text) (s : State) (n : ℤ)
        → name ≢ codes "help"
        → (process_commandline rounds (name ∷ arguments) s).0 ≡ value n
        → n ≢ pos 0
        → written s < written (process_commandline rounds (name ∷ arguments) s).1
    process_commandline-written name arguments s n other e h =
        (Reports-process_commandline name arguments other).told s n e (nonzero n h)
