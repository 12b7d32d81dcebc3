-- ===== src/Dispatch/Priorities.antt =====
-- A priority that is set and read again.
use fep3_base_utilities.Prelude.{ℕ, false, some, [], ◌∷◌, ◌++◌, ◌≡◌, refl, Text, codes}
use fep3_base_utilities.Numbers.{ℤ, pos, to_string}
use fep3_base_utilities.Numbers.Bounds.{FitsInt}
use fep3_base_utilities.Numbers.RoundTrip.{stoi-to_string}
use fep3_base_utilities.Effect.{value, returned, pure, gets, try_catch, token, ◌>>=◌}
use fep3_base_utilities.Env.{Env, Call}
use fep3_base_utilities.SystemMap.{find}
use fep3_base_utilities.Session.{State, call, write_output}
use fep3_base_utilities.Output.{newline, write_note, write_attribute}
use fep3_base_utilities.Lookup.{get_participant, participant_in, on_participant, with_participant}
use fep3_base_utilities.Lookup.Known.{connected_system-known}
use fep3_base_utilities.CommandTable.{control_commands}
use fep3_base_utilities.Commands.Participants.{
  at_system, require, set_priority, get_priority, set_init_priority, get_init_priority,
  set_start_priority, get_start_priority,
}
use fep3_base_utilities.Dispatch.{find_command, run_action, process_found, process_commandline}

-- The two priorities of a participant.
pub data Priority : Type 0 where
  of_init of_start : Priority

abbrev pub setter_of : Priority → Text
setter_of of_init = codes "setInitPriority"
setter_of of_start = codes "setStartPriority"

abbrev pub getter_of : Priority → Text
getter_of of_init = codes "getInitPriority"
getter_of of_start = codes "getStartPriority"

module _ ⦃env : Env⦄ where
  open env use {World, System, Participant, participant_of}

  abbrev pub assigns : Priority → Participant → ℤ → Call World (Unit {0})
  assigns of_init = env.assign_init_priority
  assigns of_start = env.assign_start_priority

  abbrev pub reads : Priority → Participant → Call World ℤ
  reads of_init = env.init_priority_of
  reads of_start = env.start_priority_of

  -- A session in which a command on the system has written a text.
  abbrev pub told : Text → World → Text → State → State
  told system world text s = record s {
    last_system_name_used = system;
    world = world;
    output = s.output ++ text ∷ [];
  }

  abbrev pub set_text : Text → Text
  set_text participant = codes "priority for '" ++ participant ++ codes "' set" ++ newline

  abbrev pub not_set_text : Text → Text → Text
  not_set_text system participant =
      (codes "cannot set priority for '" ++ at_system participant system ++ codes "'")
      ++ codes ", exception: "
      ++ codes "stoi"
      ++ newline

  abbrev pub priority_text : ℤ → Text
  priority_text z = codes "priority : " ++ to_string z ++ newline

  module _ (rounds : ℕ) (system participant : Text) (s : State) {sys : System} {part : Participant}
      {w : World} (plain : s.json_mode ≡ false) (known : find system s.systems ≡ some sys)
      (there : participant_of sys participant s.world ≡ (returned part, w)) where
    get_participant-known :
        (action : Text)
        → get_participant action system participant s
          ≡ (value (some part), record s { last_system_name_used = system; world = w })
    unfolding get_participant participant_in try_catch call pure ◌>>=◌
    get_participant-known action = rw (connected_system-known system action s known, there) refl

    process_commandline-set :
        (p : Priority) (z : ℤ) (v : World)
        → FitsInt z
        → assigns p part z w ≡ (returned tt, v)
        → process_commandline rounds (setter_of p ∷ system ∷ participant ∷ to_string z ∷ []) s
          ≡ (value (pos 0), told system v (set_text participant) s)
    unfolding process_commandline process_found find_command control_commands codes run_action token
        set_init_priority set_start_priority set_priority with_participant on_participant require
        try_catch call write_note write_output gets pure ◌>>=◌
    process_commandline-set of_init z v h assigned =
        rw (get_participant-known (setter_of of_init), stoi-to_string z h, assigned, plain) refl
    process_commandline-set of_start z v h assigned =
        rw (get_participant-known (setter_of of_start), stoi-to_string z h, assigned, plain) refl

    process_commandline-get :
        (p : Priority) (z : ℤ) (v : World)
        → reads p part w ≡ (returned z, v)
        → process_commandline rounds (getter_of p ∷ system ∷ participant ∷ []) s
          ≡ (value (pos 0), told system v (priority_text z) s)
    unfolding process_commandline process_found find_command control_commands codes run_action token
        get_init_priority get_start_priority get_priority with_participant on_participant try_catch
        call write_attribute write_output gets pure ◌>>=◌
    process_commandline-get of_init z v read =
        rw (get_participant-known (getter_of of_init), read, plain) refl
    process_commandline-get of_start z v read =
        rw (get_participant-known (getter_of of_start), read, plain) refl

  -- A number of an int, given in decimal digits as the init or the start priority of a participant of a
  -- known system, outside of the JSON mode: the library is given that number, and where it then answers with
  -- the number that it was given, the digits that the getter prints are those that were typed. Both commands
  -- have the result 0.
  pub process_commandline-to_string :
      (rounds : ℕ) (p : Priority) (system participant : Text) (z : ℤ) (s : State) (sys : System)
      (part part' : Participant) (w v w' v' : World)
      → s.json_mode ≡ false
      → FitsInt z
      → find system s.systems ≡ some sys
      → participant_of sys participant s.world ≡ (returned part, w)
      → assigns p part z w ≡ (returned tt, v)
      → participant_of sys participant v ≡ (returned part', w')
      → reads p part' w' ≡ (returned z, v')
      → let (first, t) =
          process_commandline rounds (setter_of p ∷ system ∷ participant ∷ to_string z ∷ []) s in
        (first ≡ value (pos 0))
        × (process_commandline rounds (getter_of p ∷ system ∷ participant ∷ []) t ≡ (
          value (pos 0),
          told system v' (priority_text z) (told system v (set_text participant) s),
        ))
  process_commandline-to_string rounds p system participant z s sys part part' w v w' v' plain h
        known there assigned there' read =
      rw (process_commandline-set rounds system participant s plain known there p z v h assigned) (
        refl,
        process_commandline-get rounds system participant (told system v (set_text participant) s)
            plain known there' p z v' read,
      )
