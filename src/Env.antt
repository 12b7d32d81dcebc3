-- ===== src/Env.antt =====
-- What the tool takes from other code: the FEP system library, a_util, jsoncpp, the JSON-RPC
-- client and linenoise. None of it stands in this repository, so it is a parameter: types for the handles, and
-- calls that read and change a world and may throw.
use fep3_base_utilities.Prelude.{ℕ, Bool, Option, List, Text}
use fep3_base_utilities.Numbers.{ℤ}
use fep3_base_utilities.States.{AggregatedState}
use fep3_base_utilities.Effect.{Answer}

-- The state machine methods of a system and of a participant.
pub data Transition : Type 0 where
  load unload initialize deinitialize start stop pause shutdown : Transition

-- `a_util::filesystem::Error`; `other_error` stands for the values that the sources do not name.
pub data FilesystemError : Type 0 where
  fs_ok open_failed general_failure io_error invalid_path access_denied other_error :
      FilesystemError

abbrev pub Call : Type 0 → Type 0 → Type 0
Call W A = W → Answer A × W

pub record Env : Type 1 where
  pub World : Type 0
  pub System : Type 0
  pub Participant : Type 0
  pub StateMachine : Type 0
  pub Configuration : Type 0
  pub Properties : Type 0
  pub ParticipantInfo : Type 0
  pub Passthrough : Type 0
  pub Json : Type 0
  -- fep_system: systems
  pub discover_system_named : Text → Call World System
  pub discover_every_system : Call World (List System)
  pub new_system : Text → Call World System
  pub add_participant : System → Text → Call World (Unit {0})
  pub system_name : System → Text
  pub participants_of : System → Call World (List Participant)
  pub participant_of : System → Text → Call World Participant
  pub system_transition : Transition → System → Call World (Unit {0})
  pub set_state : System → AggregatedState → Call World (Unit {0})
  pub state_of : System → Call World (AggregatedState × Bool)
  pub register_monitoring : System → Call World (Unit {0})
  pub unregister_monitoring : System → Call World (Unit {0})
  pub configure_clock_sync_only_interpolation : System → Text → Text → Call World (Unit {0})
  pub configure_discrete_steps : System → Text → Text → Text → Call World (Unit {0})
  pub configure_no_master : System → Call World (Unit {0})
  pub timing_masters_of : System → Call World (List Text)
  -- fep_system: participants and their RPC components; `none` is a proxy that converts to false
  pub participant_name : Participant → Text
  pub is_valid : Participant → Bool
  pub init_priority_of : Participant → Call World ℤ
  pub start_priority_of : Participant → Call World ℤ
  pub assign_init_priority : Participant → ℤ → Call World (Unit {0})
  pub assign_start_priority : Participant → ℤ → Call World (Unit {0})
  pub state_machine_of : Participant → Call World (Option StateMachine)
  pub machine_transition : Transition → StateMachine → Call World (Unit {0})
  pub machine_state : StateMachine → Call World AggregatedState
  pub configuration_of : Participant → Call World (Option Configuration)
  pub properties_at : Configuration → Text → Call World (Option Properties)
  pub property_names : Properties → Call World (List Text)
  pub property : Properties → Text → Call World Text
  pub property_type : Properties → Text → Call World Text
  pub assign_property : Properties → Text → Text → Text → Call World Bool
  pub info_of : Participant → Call World (Option ParticipantInfo)
  pub rpc_components : ParticipantInfo → Call World (List Text)
  pub rpc_component_iids : ParticipantInfo → Text → Call World (List Text)
  pub rpc_component_definition : ParticipantInfo → Text → Text → Call World Text
  pub passthrough_of : Participant → Text → Call World Passthrough
  pub passthrough_call : Passthrough → Text → Call World (Bool × Text)
  -- the decimal print of the number behind a state, and the print of a logger severity
  pub state_id : AggregatedState → Text
  pub severity_string : ℕ → Text
  -- jsoncpp: `json_put v k x` is `v[k] = x`, `json_at v k` is `v[k]`
  pub json_null : Json
  pub json_text : Text → Json
  pub json_number : ℕ → Json
  pub json_put : Json → Text → Json → Json
  pub json_at : Json → Text → Json
  pub json_append : Json → Json → Json
  pub json_compact : Json → Text
  pub json_stream : Json → Text
  -- a reader's answer, where what is thrown are its errors
  pub json_read : Text → Answer Json
  pub build_request : Text → Json → Text
  -- a_util and the file system
  pub join : List Text → Text → Text
  pub canonical : Text → Text
  pub change_directory : Text → Call World FilesystemError
  pub current_directory : Call World Text
  pub files_here : Call World (List Text)
  -- linenoise: `linenoiseHistoryAdd`
  pub history_add : Text → World → World
