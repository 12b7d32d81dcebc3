-- ===== src/Dispatch/Machines.antt =====
-- The commands that change the state of a participant.
use fep3_base_utilities.Prelude.{
  ℕ, true, Option, none, some, [], ◌∷◌, ◌++◌, ◌≡◌, refl, Text, codes, if◌then◌else◌, Bool-cases,
  inl, inr,
}
use fep3_base_utilities.Numbers.{ℤ, pos}
use fep3_base_utilities.Effect.{
  Outcome, value, Answer, returned, thrown, pure, token, try_catch, modify, ◌>>=◌,
}
use fep3_base_utilities.Env.{
  Env, Transition, load, unload, initialize, deinitialize, start, stop, pause, shutdown,
}
use fep3_base_utilities.SystemMap.{find}
use fep3_base_utilities.Session.{State, Action, call}
use fep3_base_utilities.Output.{statechange_error, write_note, write_error, write_exception}
use fep3_base_utilities.Output.Values.{write_note-value, write_error-value, write_exception-value}
use fep3_base_utilities.Lookup.{remember}
use fep3_base_utilities.Lookup.Known.{with_system-known}
use fep3_base_utilities.CommandTable.{control_commands}
use fep3_base_utilities.Commands.Participants.{
  at_system, change_machine, try_change, do_participant_state_change, load_participant,
  unload_participant, initialize_participant, deinitialize_participant, start_participant,
  stop_participant, pause_participant, shutdown_participant,
}
use fep3_base_utilities.Dispatch.{find_command, run_action, process_found, process_commandline}

-- The verb and the participle of a transition.
abbrev pub verb : Transition → Text
verb load = codes "load"
verb unload = codes "unload"
verb initialize = codes "initialize"
verb deinitialize = codes "deinitialize"
verb start = codes "start"
verb stop = codes "stop"
verb pause = codes "pause"
verb shutdown = codes "shutdown"

abbrev pub participle : Transition → Text
participle load = codes "loaded"
participle unload = codes "unloaded"
participle initialize = codes "initialized"
participle deinitialize = codes "deinitialized"
participle start = codes "started"
participle stop = codes "stopped"
participle pause = codes "paused"
participle shutdown = codes "shutdowned"

abbrev pub participant_command : Transition → Text
participant_command t = verb t ++ codes "Participant"

module _ ⦃env : Env⦄ where
  open env use {
    World, System, Participant, StateMachine, participant_of, is_valid, state_machine_of,
    machine_transition,
  }

  module _ (action system partname : Text) (t : Transition) (s : State) where
    abbrev in_world : World → State
    in_world w = record s { last_system_name_used = system; world = w }

    abbrev refused : Text → World → Outcome ℤ × State
    refused error w =
        (value (pos 1), (write_error action error statechange_error [] (in_world w)).1)

    abbrev broken : Text → World → Outcome ℤ × State
    broken what w = (
      value (pos 1),
      (write_exception action
          (codes "cannot "
            ++ verb t
            ++ codes " participant '"
            ++ at_system partname system
            ++ codes "'")
          statechange_error what (in_world w)).1,
    )

    -- What is to become of the session, by what the state machine answers, by the state machine that the
    -- participant hands out, and by the participant that the system hands out.
    abbrev pub by_transition : Answer (Unit {0}) × World → Outcome ℤ × State
    by_transition (returned a, w) = (
      value (pos 0),
      (write_note action (at_system partname system ++ codes " " ++ participle t) (in_world w)).1,
    )
    by_transition (thrown what, w) = broken what w

    abbrev pub by_machine : Answer (Option StateMachine) × World → Outcome ℤ × State
    by_machine (returned none, w) =
        refused
          (codes "participant '" ++ at_system partname system ++ codes "' has no state machine") w
    by_machine (returned (some machine), w) = by_transition (machine_transition t machine w)
    by_machine (thrown what, w) = broken what w

    abbrev pub by_participant : Answer Participant × World → Outcome ℤ × State
    by_participant (returned part, w) =
        let there = by_machine (state_machine_of part w) in
        if is_valid part
        then there
        else refused
            (codes "participant '"
              ++ partname
              ++ codes "' is not in system '"
              ++ system
              ++ codes "'")
            w
    by_participant (thrown what, w) = broken what w

  module _ (system partname : Text) (s : State) (sys : System)
      (known : find system s.systems ≡ some sys) where
    abbrev run : Transition → Text → Action ℤ
    run t action =
        do_participant_state_change (action ∷ system ∷ partname ∷ [])
          (λ machine. call (machine_transition t machine)) action (verb t) (participle t)
        >>= λ succeeded. pure (if succeeded then pos 0 else pos 1)

    module _ (t : Transition) (action : Text) where
      run-by_transition :
          (part : Participant) (machine : StateMachine) (w v : World)
          (a : Answer (Unit {0}) × World)
          → participant_of sys partname s.world ≡ (returned part, w)
          → is_valid part ≡ true
          → state_machine_of part w ≡ (returned (some machine), v)
          → machine_transition t machine v ≡ a
          → run t action s ≡ by_transition action system partname t s a
      unfolding do_participant_state_change try_change change_machine token remember modify
          try_catch call pure ◌>>=◌
      run-by_transition part machine w v (returned a, u) e valid e' e'' =
          rw (with_system-known system action s known, e, valid, e', e'', write_note-value) refl
      run-by_transition part machine w v (thrown what, u) e valid e' e'' =
          rw (with_system-known system action s known, e, valid, e', e'', write_exception-value)
            refl

      run-by_machine :
          (part : Participant) (w : World) (a : Answer (Option StateMachine) × World)
          → participant_of sys partname s.world ≡ (returned part, w)
          → is_valid part ≡ true
          → state_machine_of part w ≡ a
          → run t action s ≡ by_machine action system partname t s a
      unfolding do_participant_state_change try_change change_machine token remember modify
          try_catch call pure ◌>>=◌
      run-by_machine part w (returned none, v) e valid e' =
          rw (with_system-known system action s known, e, valid, e', write_error-value) refl
      run-by_machine part w (returned (some machine), v) e valid e' =
          run-by_transition part machine w v (machine_transition t machine v) e valid e' refl
      run-by_machine part w (thrown what, v) e valid e' =
          rw (with_system-known system action s known, e, valid, e', write_exception-value) refl

      run-by_participant :
          (a : Answer Participant × World)
          → participant_of sys partname s.world ≡ a
          → run t action s ≡ by_participant action system partname t s a
      unfolding do_participant_state_change try_change change_machine token remember modify
          try_catch call pure ◌>>=◌
      run-by_participant (returned part, w) e = elim (Bool-cases (is_valid part)) [
        | inl valid ↦ rw valid (run-by_machine part w (state_machine_of part w) e valid refl)
        | inr invalid ↦
            rw (invalid, with_system-known system action s known, e, invalid, write_error-value)
              refl
      ]
      run-by_participant (thrown what, w) e =
          rw (with_system-known system action s known, e, write_exception-value) refl

    -- Each of the eight commands named after a transition makes that transition of the state machine of the
    -- participant that the known system hands out, and notes it, with the result 0. Where a call throws, it
    -- writes the exception; where the participant converts to false or hands out no state machine, an error.
    -- In these cases the result is 1.
    pub process_commandline-by_participant :
        (rounds : ℕ) (t : Transition)
        → process_commandline rounds (participant_command t ∷ system ∷ partname ∷ []) s
          ≡ by_participant
              (participant_command t)
              system
              partname
              t
              s
              (participant_of sys partname s.world)
    unfolding process_commandline process_found find_command control_commands codes run_action token
        load_participant unload_participant initialize_participant deinitialize_participant
        start_participant stop_participant pause_participant shutdown_participant ◌>>=◌
    process_commandline-by_participant rounds load = run-by_participant load _ _ refl
    process_commandline-by_participant rounds unload = run-by_participant unload _ _ refl
    process_commandline-by_participant rounds initialize = run-by_participant initialize _ _ refl
    process_commandline-by_participant rounds deinitialize =
        run-by_participant deinitialize _ _ refl
    process_commandline-by_participant rounds start = run-by_participant start _ _ refl
    process_commandline-by_participant rounds stop = run-by_participant stop _ _ refl
    process_commandline-by_participant rounds pause = run-by_participant pause _ _ refl
    process_commandline-by_participant rounds shutdown = run-by_participant shutdown _ _ refl
