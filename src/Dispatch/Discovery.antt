-- ===== src/Dispatch/Discovery.antt =====
-- A system that was discovered by its name.
use fep3_base_utilities.Prelude.{
  ℕ, false, some, List, [], ◌∷◌, ◌≡◌, refl, Text, codes, str_eq, str_eq_iff, arith,
}
use fep3_base_utilities.Numbers.{ℤ, pos}
use fep3_base_utilities.Effect.{Outcome, value, returned, pure, gets, modify, token, ◌>>=◌}
use fep3_base_utilities.Env.{Env}
use fep3_base_utilities.SystemMap.{find}
use fep3_base_utilities.SystemMap.Laws.{find-assign}
use fep3_base_utilities.Session.{State, call, write_output}
use fep3_base_utilities.Output.{Attribute, write_notes}
use fep3_base_utilities.Lookup.{empty_system_name, remember, keep_system, connected_system}
use fep3_base_utilities.Lookup.Known.{connected_system-known}
use fep3_base_utilities.CommandTable.{control_commands}
use fep3_base_utilities.Commands.Systems.{get_system_participants, discover_system}
use fep3_base_utilities.Dispatch.{find_command, run_action, process_found, process_commandline}

module _ ⦃env : Env⦄ where
  open env use {World, System, Participant, discover_system_named, system_name, participants_of}

  module _ (action : Text) (attributes : List Attribute) (s : State) where
    write_notes-value : (write_notes action attributes s).0 ≡ value tt
    unfolding write_notes write_output gets ◌>>=◌
    write_notes-value = ground arith

    systems-write_notes : (write_notes action attributes s).1.systems ≡ s.systems
    unfolding write_notes write_output gets ◌>>=◌
    systems-write_notes = ground arith

  module _ (rounds : ℕ) (name : Text) (s : State) (system : System) (w v : World)
      (parts : List Participant) where
    abbrev afterwards : Outcome ℤ × State
    afterwards = process_commandline rounds (codes "discoverSystem" ∷ name ∷ []) s

    discover_system-finds :
        str_eq name empty_system_name ≡ false
        → discover_system_named name s.world ≡ (returned system, w)
        → system_name system ≡ name
        → participants_of system w ≡ (returned parts, v)
        → (afterwards.0 ≡ value (pos 0)) × (find name afterwards.1.systems ≡ some system)
    unfolding process_commandline process_found find_command control_commands codes run_action token
        discover_system get_system_participants remember keep_system modify call pure ◌>>=◌
    discover_system-finds named found same listed =
        simp
          (
            named,
            found,
            listed,
            write_notes-value,
            same,
            find-assign,
            (str_eq_iff name name).1 refl,
          )
          (refl, refl)

    -- Where discoverSystem finds the system, which is not the one called `-`, gives itself the name that
    -- was asked for and tells its participants: the result is 0, and whatever command is next, and with the
    -- automatic discovery on or off, the system that it works on under this name is that one.
    pub connected_system-process_commandline :
        str_eq name empty_system_name ≡ false
        → discover_system_named name s.world ≡ (returned system, w)
        → system_name system ≡ name
        → participants_of system w ≡ (returned parts, v)
        → (action : Text)
        → (afterwards.0 ≡ value (pos 0))
          × (connected_system name action afterwards.1
              ≡ (value (some (name, system)), record afterwards.1 { last_system_name_used = name }))
    connected_system-process_commandline named found same listed action =
        let (returns, known) = discover_system-finds named found same listed in
        (returns, connected_system-known name action afterwards.1 known)
