-- ===== src/Dispatch/Transitions.antt =====
-- The commands that change the state of a system.
use fep3_base_utilities.Prelude.{ℕ, some, [], ◌∷◌, ◌++◌, ◌≡◌, refl, Text, codes, if◌then◌else◌}
use fep3_base_utilities.Numbers.{ℤ, pos}
use fep3_base_utilities.Effect.{
  Outcome, value, Answer, returned, thrown, pure, token, try_catch, ◌>>=◌,
}
use fep3_base_utilities.Env.{
  Env, Transition, load, unload, initialize, deinitialize, start, stop, pause,
}
use fep3_base_utilities.SystemMap.{find}
use fep3_base_utilities.Session.{State, call}
use fep3_base_utilities.Output.{generic_error, write_note, write_exception}
use fep3_base_utilities.Output.Values.{write_note-value, write_exception-value}
use fep3_base_utilities.Lookup.Known.{with_system-known}
use fep3_base_utilities.CommandTable.{control_commands}
use fep3_base_utilities.Commands.Systems.{
  change_state_method, load_system, unload_system, initialize_system, deinitialize_system,
  start_system, stop_system, pause_system,
}
use fep3_base_utilities.Dispatch.{find_command, run_action, process_found, process_commandline}

-- The transitions of a system that a command of their own makes, but for shutdown: the command's name, and
-- the words of its reports.
pub data StateChange : Type 0 where
  loads unloads initializes deinitializes starts stops pauses : StateChange

abbrev pub transition_of : StateChange → Transition
transition_of loads = load
transition_of unloads = unload
transition_of initializes = initialize
transition_of deinitializes = deinitialize
transition_of starts = start
transition_of stops = stop
transition_of pauses = pause

abbrev pub verb_of : StateChange → Text
verb_of loads = codes "load"
verb_of unloads = codes "unload"
verb_of initializes = codes "initialize"
verb_of deinitializes = codes "deinitialize"
verb_of starts = codes "start"
verb_of stops = codes "stop"
verb_of pauses = codes "pause"

abbrev pub participle_of : StateChange → Text
participle_of loads = codes "loaded"
participle_of unloads = codes "unloaded"
participle_of initializes = codes "initialized"
participle_of deinitializes = codes "deinitialized"
participle_of starts = codes "started"
participle_of stops = codes "stopped"
participle_of pauses = codes "paused"

-- The command is named after its verb.
abbrev pub command_of : StateChange → Text
command_of c = verb_of c ++ codes "System"

module _ ⦃env : Env⦄ where
  open env use {World, System, system_transition}

  -- What is to become of the session, by what the library answers.
  abbrev pub reports :
      Text → Text → Text → Text → State → Answer (Unit {0}) × World → Outcome ℤ × State
  reports action name success failure s (returned a, w) =
      (value (pos 0), (write_note action (name ++ codes " " ++ success) (record s { world = w })).1)
  reports action name success failure s (thrown what, w) = (
    value (pos 1),
    (write_exception action (codes "cannot " ++ failure ++ codes " system '" ++ name ++ codes "'")
        generic_error what (record s { world = w })).1,
  )

  module _ (name : Text) (s : State) (system : System)
      (known : find name s.systems ≡ some system) where
    abbrev named : State
    named = record s { last_system_name_used = name }

    changed :
        (t : Transition) (action success failure : Text) (a : Answer (Unit {0}) × World)
        → system_transition t system s.world ≡ a
        → (change_state_method name (λ sys. call (system_transition t sys)) action success failure
              >>= λ succeeded. pure (if succeeded then pos 0 else pos 1))
            s
          ≡ reports action name success failure named a
    unfolding change_state_method try_catch call pure ◌>>=◌
    changed t action success failure (returned a, w) e =
        rw (with_system-known name action s known, e, write_note-value) refl
    changed t action success failure (thrown what, w) e =
        rw (with_system-known name action s known, e, write_exception-value) refl

    -- Each of these commands makes its own transition of the system that is known under the name, and
    -- reports it with its own words: with the result 0 and a note where the library returns, and with the
    -- result 1 and the exception where it throws.
    pub process_commandline-reports :
        (rounds : ℕ) (c : StateChange)
        → process_commandline rounds (command_of c ∷ name ∷ []) s
          ≡ reports
              (command_of c)
              name
              (participle_of c)
              (verb_of c)
              named
              (system_transition (transition_of c) system s.world)
    unfolding process_commandline process_found find_command control_commands codes run_action token
        load_system unload_system initialize_system deinitialize_system start_system stop_system
        pause_system ◌>>=◌
    process_commandline-reports rounds loads = changed load _ _ _ _ refl
    process_commandline-reports rounds unloads = changed unload _ _ _ _ refl
    process_commandline-reports rounds initializes = changed initialize _ _ _ _ refl
    process_commandline-reports rounds deinitializes = changed deinitialize _ _ _ _ refl
    process_commandline-reports rounds starts = changed start _ _ _ _ refl
    process_commandline-reports rounds stops = changed stop _ _ _ _ refl
    process_commandline-reports rounds pauses = changed pause _ _ _ _ refl
