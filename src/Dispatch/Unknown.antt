-- ===== src/Dispatch/Unknown.antt =====
-- A command on a system that is not known, with the automatic discovery off.
use fep3_base_utilities.Prelude.{
  ℕ, ◌≤◌, Bool, true, false, none, some, List, [], ◌∷◌, ◌≡◌, Text, arith, length, ltb,
}
use fep3_base_utilities.Prelude.{Option, ◌≢◌, refl, get_elem?, Bool-cases, inl, inr, if◌then◌else◌}
use fep3_base_utilities.Effect.{go_on, present}
use fep3_base_utilities.Effect.Runs.{in_range}
use fep3_base_utilities.Session.{Action}
use mathlib.Core.Bool.{false≢true}
use fep3_base_utilities.Numbers.{pos}
use fep3_base_utilities.Effect.{value, token, pure, ◌>>=◌}
use fep3_base_utilities.Env.{Env}
use fep3_base_utilities.SystemMap.{find}
use fep3_base_utilities.Session.{State}
use fep3_base_utilities.CommandTable.{ActionFunction, ControlCommand}
use fep3_base_utilities.Lookup.{on_entry, with_system, with_participant}
use fep3_base_utilities.Lookup.Unknown.{
  reported, connected_system-unknown, with_system-unknown, with_participant-unknown,
}
use fep3_base_utilities.Commands.Systems.{
  start_system, stop_system, load_system, unload_system, initialize_system, deinitialize_system,
  pause_system, shutdown_system, change_state_method, start_monitoring_system,
  stop_monitoring_system, get_participants,
}
use fep3_base_utilities.Commands.Participants.{
  do_participant_state_change, load_participant, unload_participant, initialize_participant,
  deinitialize_participant, start_participant, stop_participant, pause_participant,
  shutdown_participant, set_priority, get_priority, set_init_priority, get_init_priority,
  set_start_priority, get_start_priority,
}
use fep3_base_utilities.Commands.Aggregated.{
  get_system_state, set_system_state, get_participant_state, set_participant_state,
}
use fep3_base_utilities.Commands.Timing.{
  configure_system_timing_system_time, configure_system_timing_discrete,
  configure_system_time_no_sync, get_current_timing_master,
}
use fep3_base_utilities.Commands.Rpc.{
  with_info, get_rpc_objects_participant, get_rpc_object_iids_participant,
  get_rpc_object_definition_participant, call_rpc,
}
use fep3_base_utilities.Commands.Properties.{
  with_configuration, get_participant_property_names, get_participant_properties,
  get_participant_property, set_participant_property,
}
use fep3_base_utilities.Dispatch.{
  run_action, find_command, wrong_count, process_found, process_commandline,
}
use fep3_base_utilities.Dispatch.Arity.{tokens_needed, tokens_needed-le-length}

-- The actions whose first argument is the name of a system that has to be known. The discovery of
-- one system is none of them.
abbrev pub names_system : ActionFunction → Bool
names_system ActionFunction.quit = false
names_system ActionFunction.discover_all_systems = false
names_system ActionFunction.discover_system = false
names_system ActionFunction.set_current_working_directory = false
names_system ActionFunction.get_current_working_directory = false
names_system ActionFunction.help = false
names_system ActionFunction.enable_auto_discovery = false
names_system ActionFunction.disable_auto_discovery = false
names_system ActionFunction.enable_json_mode = false
names_system ActionFunction.disable_json_mode = false
names_system _ = true

module _ ⦃env : Env⦄ (action name : Text) (s : State) (off : s.auto_discovery ≡ false)
    (unknown : find name s.systems ≡ none) where
  open env use {System, Participant}

  -- The action fails, and all that it does is to write that the system is not connected.
  record Missing (m : Action Bool) : Type 0 where
    ends : m s ≡ (value false, reported name action s)

  Missing-with_system :
      (use_entry : Text × System → Action Bool) → Missing (with_system name action use_entry)
  Missing-with_system use_entry = record {
    ends = with_system-unknown name action s off unknown use_entry;
  }

  Missing-with_participant :
      (participant : Text) (use_participant : Participant → Action Bool)
      → Missing (with_participant action name participant use_participant)
  Missing-with_participant participant use_participant = record {
    ends = with_participant-unknown name action s off unknown participant use_participant;
  }

  module _ (ts : List Text) where
    Missing-action :
        (k : Text → Action Bool) → Missing (k action) → Missing (token (action ∷ name ∷ ts) 0 >>= k)
    unfolding token ◌>>=◌
    Missing-action k h = record { ends = h.ends }

    Missing-name :
        (k : Text → Action Bool) → Missing (k name) → Missing (token (action ∷ name ∷ ts) 1 >>= k)
    unfolding token ◌>>=◌
    Missing-name k h = record { ends = h.ends }

    read_lem :
        (k : Text → Action Bool) (o : Option Text)
        → o ≢ none
        → ((x : Text) → Missing (k x))
        → go_on (present o s).0 k (present o s).1 ≡ (value false, reported name action s)
    read_lem k none there h = absurd (there refl)
    read_lem k (some x) there h = (h x).ends

    -- A token behind the name, which may be any.
    Missing-token :
        (k : Text → Action Bool) (i n : ℕ)
        → n ≤ length (action ∷ name ∷ ts)
        → ltb i n ≡ true
        → ((x : Text) → Missing (k x))
        → Missing (token (action ∷ name ∷ ts) i >>= k)
    unfolding token ◌>>=◌
    Missing-token k i n enough fits h = record {
      ends =
          read_lem k (get_elem? (action ∷ name ∷ ts) i)
            (in_range (action ∷ name ∷ ts) i (ground arith)) h;
    }

    Missing-optional :
        (k : Text → Action Bool)
        → ((x : Text) → Missing (k x))
        → Missing (
            (if ltb 6 (length (action ∷ name ∷ ts)) then token (action ∷ name ∷ ts) 6 else pure [])
            >>= k)
    unfolding pure ◌>>=◌
    Missing-optional k h = elim (Bool-cases (ltb 6 (length (action ∷ name ∷ ts)))) [
      | inl long ↦ rw long (Missing-token k 6 7 (ground arith) refl h)
      | inr short ↦ rw short (record { ends = (h []).ends })
    ]

  Missing-set_system_state :
      (ts : List Text)
      → 3 ≤ length (action ∷ name ∷ ts)
      → Missing (set_system_state (action ∷ name ∷ ts))
  unfolding set_system_state token on_entry pure ◌>>=◌
  Missing-set_system_state [] enough = absurd (omega arith)
  Missing-set_system_state (p ∷ ts) enough = record {
    ends = rw (connected_system-unknown name action s off unknown);
  }

ruleset missing_rules = (
  Missing-action, Missing-name, Missing-token, Missing-optional, Missing-with_system,
  Missing-with_participant, Missing-set_system_state, refl,
)

module _ ⦃env : Env⦄ (rounds : ℕ) (action name : Text) (s : State) (off : s.auto_discovery ≡ false)
    (unknown : find name s.systems ≡ none) where
  Missing-run_action :
      (f : ActionFunction) (ts : List Text)
      → names_system f ≡ true
      → tokens_needed f ≤ length (action ∷ name ∷ ts)
      → Missing action name s off unknown (run_action rounds f (action ∷ name ∷ ts))
  unfolding run_action start_system stop_system load_system unload_system initialize_system
      deinitialize_system pause_system shutdown_system change_state_method start_monitoring_system
      stop_monitoring_system get_participants do_participant_state_change load_participant
      unload_participant initialize_participant deinitialize_participant start_participant
      stop_participant pause_participant shutdown_participant set_priority get_priority
      set_init_priority get_init_priority set_start_priority get_start_priority get_system_state
      get_participant_state set_participant_state configure_system_timing_system_time
      configure_system_timing_discrete configure_system_time_no_sync get_current_timing_master
      with_info get_rpc_objects_participant get_rpc_object_iids_participant
      get_rpc_object_definition_participant call_rpc with_configuration
      get_participant_property_names get_participant_properties get_participant_property
      set_participant_property
  Missing-run_action ActionFunction.quit ts h k = absurd (false≢true h)
  Missing-run_action ActionFunction.discover_all_systems ts h k = absurd (false≢true h)
  Missing-run_action ActionFunction.discover_system ts h k = absurd (false≢true h)
  Missing-run_action ActionFunction.set_current_working_directory ts h k = absurd (false≢true h)
  Missing-run_action ActionFunction.get_current_working_directory ts h k = absurd (false≢true h)
  Missing-run_action ActionFunction.help ts h k = absurd (false≢true h)
  Missing-run_action ActionFunction.enable_auto_discovery ts h k = absurd (false≢true h)
  Missing-run_action ActionFunction.disable_auto_discovery ts h k = absurd (false≢true h)
  Missing-run_action ActionFunction.enable_json_mode ts h k = absurd (false≢true h)
  Missing-run_action ActionFunction.disable_json_mode ts h k = absurd (false≢true h)
  Missing-run_action ActionFunction.set_system_state ts h k =
      Missing-set_system_state action name s off unknown ts k
  Missing-run_action _ ts h k = search missing_rules depth 16

  -- With the automatic discovery off, a command whose first argument is the name of a system that is
  -- not known, given with a number of arguments that is not refused, returns 1, and all that it does
  -- to the session is to write the error that the system is not connected. No library is called.
  pub process_commandline-unknown :
      (cmd : ControlCommand) (ts : List Text)
      → find_command action ≡ some cmd
      → names_system cmd.action ≡ true
      → wrong_count (length (action ∷ name ∷ ts)) cmd ≡ false
      → process_commandline rounds (action ∷ name ∷ ts) s ≡ (value (pos 1), reported name action s)
  unfolding process_commandline process_found token pure ◌>>=◌
  process_commandline-unknown cmd ts found named count = rw (
    found,
    process_found,
    count,
    (Missing-run_action cmd.action ts named
        (tokens_needed-le-length action cmd (length (action ∷ name ∷ ts)) found count)).ends,
  )
