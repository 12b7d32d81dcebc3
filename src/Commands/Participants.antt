-- ===== src/Commands/Participants.antt =====
-- src/fep_control_tool/fep_control.cpp: the commands on the state machine and the priorities of one
-- participant.
pub mod Moves
pub mod Reports
use fep3_base_utilities.Prelude.{
  Bool, true, false, Option, none, some, List, [], ◌∷◌, ◌++◌, String, Text, codes, if◌then◌else◌,
}
use fep3_base_utilities.Numbers.{ℤ, stoi, to_string}
use fep3_base_utilities.Effect.{
  Effect, Answer, returned, thrown, pure, raise, try_catch, token, ◌>>=◌, ◌>>◌,
}
use fep3_base_utilities.Env.{
  Env, Transition, load, unload, initialize, deinitialize, start, stop, pause, shutdown,
}
use fep3_base_utilities.Session.{Session, State, Action, call}
use fep3_base_utilities.Output.{
  generic_error, statechange_error, write_note, write_attribute, write_error, write_exception,
}
use fep3_base_utilities.Lookup.{remember, with_system, with_participant}

-- participant@system
abbrev pub at_system : Text → Text → Text
at_system participant system = participant ++ codes "@" ++ system

module _ ⦃env : Env⦄ where
  open env use {
    System, Participant, StateMachine, participant_of, is_valid, state_machine_of,
    machine_transition, init_priority_of, start_priority_of, assign_init_priority,
    assign_start_priority,
  }

  -- An exception of the standard library.
  unfoldable pub require : {A : Type 0} → Answer A → Action A
  require (returned a) = pure a
  require (thrown what) = raise what

  unfoldable pub change_machine :
      (StateMachine → Action (Unit {0})) → Text → Text → Text → Option StateMachine → Action Bool
  change_machine change action system partname none = do
    write_error action
        (codes "participant '" ++ at_system partname system ++ codes "' has no state machine")
        statechange_error []
    pure false
  change_machine change action system partname (some machine) = do change machine; pure true

  -- The body of the try block; false stands for its early returns.
  unfoldable pub try_change :
      (StateMachine → Action (Unit {0})) → Text → Text → Text → Text × System → Action Bool
  try_change change action system partname (key, sys) = do
    part ← call (participant_of sys partname)
    changed ←
        if is_valid part
        then (do
          machine ← call (state_machine_of part)
          change_machine change action system partname machine)
        else (do
          write_error action
              (codes "participant '"
                ++ partname
                ++ codes "' is not in system '"
                ++ system
                ++ codes "'")
              statechange_error []
          pure false)
    if changed then (do remember key; pure true) else pure false

  unfoldable pub do_participant_state_change :
      List Text → (StateMachine → Action (Unit {0})) → Text → Text → Text → Action Bool
  do_participant_state_change tokens change action message_1 message_2 = do
    system ← token tokens 1
    with_system system action λ entry. do
      partname ← token tokens 2
      done ← try_catch (try_change change action system partname entry) (λ what. do
        write_exception action
            (codes "cannot "
              ++ message_1
              ++ codes " participant '"
              ++ at_system partname system
              ++ codes "'")
            statechange_error what
        pure false)
      if done
          then (do
            write_note action (at_system partname system ++ codes " " ++ message_2)
            pure true)
          else pure false

  abbrev pub transit : Transition → String → String → List Text → Action Bool
  transit t message_1 message_2 tokens = do
    action ← token tokens 0
    do_participant_state_change tokens (λ machine. call (machine_transition t machine)) action
        (codes message_1) (codes message_2)

  unfoldable pub load_participant : List Text → Action Bool
  load_participant = transit load "load" "loaded"

  unfoldable pub unload_participant : List Text → Action Bool
  unload_participant = transit unload "unload" "unloaded"

  unfoldable pub initialize_participant : List Text → Action Bool
  initialize_participant = transit initialize "initialize" "initialized"

  unfoldable pub deinitialize_participant : List Text → Action Bool
  deinitialize_participant = transit deinitialize "deinitialize" "deinitialized"

  unfoldable pub start_participant : List Text → Action Bool
  start_participant = transit start "start" "started"

  unfoldable pub stop_participant : List Text → Action Bool
  stop_participant = transit stop "stop" "stopped"

  unfoldable pub pause_participant : List Text → Action Bool
  pause_participant = transit pause "pause" "paused"

  unfoldable pub shutdown_participant : List Text → Action Bool
  shutdown_participant = transit shutdown "shutdown" "shutdowned"

  -- The handler of setPriority.
  abbrev pub priority_not_set : Text → Text → Text → Text → Action Bool
  priority_not_set action system participant what = do
    write_exception action
        (codes "cannot set priority for '" ++ at_system participant system ++ codes "'")
        generic_error what
    pure false

  -- setPriority, with the setter that its switch selects
  unfoldable pub set_priority : (Participant → ℤ → Action (Unit {0})) → List Text → Action Bool
  set_priority assign tokens = do
    action ← token tokens 0
    system ← token tokens 1
    participant ← token tokens 2
    priority ← token tokens 3
    with_participant action system participant λ part.
        try_catch
          (do
            number ← require (stoi priority)
            assign part number
            write_note action (codes "priority for '" ++ participant ++ codes "' set")
            pure true)
          (priority_not_set action system participant)

  -- getPriority, with the getter that its switch selects
  unfoldable pub get_priority : (Participant → Action ℤ) → List Text → Action Bool
  get_priority read tokens = do
    action ← token tokens 0
    system ← token tokens 1
    participant ← token tokens 2
    with_participant action system participant λ part.
        try_catch
          (do
            priority ← read part
            write_attribute action (codes "priority", to_string priority)
            pure true)
          (λ what. do
            write_exception action
                (codes "cannot get priority for '" ++ at_system participant system ++ codes "'")
                generic_error what
            pure false)

  unfoldable pub set_init_priority : List Text → Action Bool
  set_init_priority = set_priority (λ part n. call (assign_init_priority part n))

  unfoldable pub get_init_priority : List Text → Action Bool
  get_init_priority = get_priority (λ part. call (init_priority_of part))

  unfoldable pub set_start_priority : List Text → Action Bool
  set_start_priority = set_priority (λ part n. call (assign_start_priority part n))

  unfoldable pub get_start_priority : List Text → Action Bool
  get_start_priority = get_priority (λ part. call (start_priority_of part))
