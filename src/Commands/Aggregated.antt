-- ===== src/Commands/Aggregated.antt =====
-- src/fep_control_tool/fep_control.cpp: the commands that read and set the state of a system or of a
-- participant by its name.
pub mod Moves
pub mod Reports
use fep3_base_utilities.Prelude.{
  Bool, true, false, Option, none, some, List, [], ◌∷◌, ◌++◌, Text, codes, if◌then◌else◌,
}
use fep3_base_utilities.States.{
  AggregatedState, undefined, unreachable, unloaded, loaded, initialized, paused, running, other,
  resolve_system_state, get_state_from_string,
}
use fep3_base_utilities.Effect.{Effect, pure, try_catch, token, ◌>>=◌, ◌>>◌}
use fep3_base_utilities.Env.{Env, Transition}
use fep3_base_utilities.Session.{Session, State, Action, call}
use fep3_base_utilities.Output.{
  generic_error, participant_error, write_notes, write_error, write_exception,
}
use fep3_base_utilities.Lookup.{connected_system, on_entry, with_system, with_participant}
use fep3_base_utilities.Commands.Participants.{at_system}
use fep3_base_utilities.Commands.Systems.{shutdown_system}

-- `state_to_set == SystemAggregatedState::unreachable`
unfoldable pub is_unreachable : AggregatedState → Bool
is_unreachable unreachable = true
is_unreachable _ = false

module _ ⦃env : Env⦄ where
  open env use {
    System, Participant, StateMachine, state_of, set_state, state_id, state_machine_of,
    machine_state, new_system, add_participant, system_transition,
  }

  unfoldable pub get_system_state : List Text → Action Bool
  get_system_state tokens = do
    action ← token tokens 0
    name ← token tokens 1
    with_system name action λ entry.
        try_catch
          (do
            state ← call (state_of entry.1)
            write_notes action (
                (codes "stateID", state_id state.0)
                ∷ (codes "stateName", resolve_system_state state.0)
                ∷ (
                  codes "homogeneous",
                  if state.1 then codes "homogeneous" else codes "inhomogeneous",
                )
                ∷ [])
            pure true)
          (λ what. do
            write_exception action (codes "cannot get system state for '" ++ name ++ codes "'")
                generic_error what
            pure false)

  -- The handler of setSystemState, with the token at which `first` stands when it runs.
  unfoldable pub set_state_failed : Text → Text → Text → Text → Action Bool
  set_state_failed action state_string first what = do
    write_exception action
        (codes "cannot set system state '" ++ state_string ++ codes "' for '" ++ first ++ codes "'")
        generic_error what
    pure false

  -- `--first` has moved the iterator back when the nested command runs.
  unfoldable pub set_state_of : List Text → Text → Text → Text → Text × System → Action Bool
  set_state_of tokens action name state_string entry =
      try_catch
        (do
          let state_to_set = get_state_from_string state_string
          if is_unreachable state_to_set
              then (do
                call (set_state entry.1 unloaded)
                try_catch (shutdown_system tokens) (set_state_failed action state_string action))
              else (do
                call (set_state entry.1 state_to_set)
                try_catch (do get_system_state tokens; pure true)
                    (set_state_failed action state_string action)))
        (set_state_failed action state_string name)

  unfoldable pub set_system_state : List Text → Action Bool
  set_system_state tokens = do
    action ← token tokens 0
    name ← token tokens 1
    entry ← connected_system name action
    state_string ← token tokens 2
    on_entry (set_state_of tokens action name state_string) entry

  unfoldable pub read_machine : Text → Text → Text → Option StateMachine → Action Bool
  read_machine action system participant none = do
    write_error action
        (codes "participant '" ++ at_system participant system ++ codes "' has no state machine")
        participant_error []
    pure false
  read_machine action system participant (some machine) = do
    state ← call (machine_state machine)
    write_notes action
        ((codes "stateID", state_id state) ∷ (codes "stateName", resolve_system_state state) ∷ [])
    pure true

  unfoldable pub get_participant_state : List Text → Action Bool
  get_participant_state tokens = do
    action ← token tokens 0
    system ← token tokens 1
    participant ← token tokens 2
    with_participant action system participant λ part.
        try_catch
          (do
            machine ← call (state_machine_of part)
            read_machine action system participant machine)
          (λ what. do
            write_exception action
                (codes "cannot get participant state for participant '"
                  ++ at_system participant system
                  ++ codes "'")
                participant_error what
            pure false)

  unfoldable pub set_participant_state : List Text → Action Bool
  set_participant_state tokens = do
    action ← token tokens 0
    system ← token tokens 1
    participant ← token tokens 2
    state_string ← token tokens 3
    with_participant action system participant λ part.
        try_catch
          (do
            system_temp ← call (new_system system)
            call (add_participant system_temp participant)
            let state_to_set = get_state_from_string state_string
            if is_unreachable state_to_set
                then (do
                  call (set_state system_temp unloaded)
                  call (system_transition Transition.shutdown system_temp))
                else call (set_state system_temp state_to_set)
            write_notes action (
                (codes "stateID", state_id state_to_set)
                ∷ (codes "stateName", resolve_system_state state_to_set)
                ∷ [])
            pure true)
          (λ what. do
            write_exception action
                (codes "cannot set participant state"
                  ++ state_string
                  ++ codes "for participant '"
                  ++ at_system participant system
                  ++ codes "'")
                participant_error what
            pure false)
