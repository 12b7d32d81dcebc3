-- ===== src/Commands/Systems/Shutdown.antt =====
-- What a shutdown of a system leaves of the known systems.
use fep3_base_utilities.Prelude.{
  true, none, some, List, [], ◌∷◌, ◌≡◌, ◌∙◌, ap, Text, str_eq, if◌then◌else◌,
}
use fep3_base_utilities.Effect.{value, returned, pure, modify, try_catch, token, ◌>>=◌}
use fep3_base_utilities.Env.{Env, Transition}
use fep3_base_utilities.SystemMap.{find, erase}
use fep3_base_utilities.SystemMap.Laws.{find-erase}
use fep3_base_utilities.Session.{State, call}
use fep3_base_utilities.Output.Values.{write_note-value, systems-write_note}
use fep3_base_utilities.Lookup.{empty_system_name}
use fep3_base_utilities.Lookup.Known.{with_system-known}
use fep3_base_utilities.Commands.Systems.{change_state_method, shutdown_and_erase, shutdown_system}

module _ ⦃env : Env⦄ where
  open env use {World, System, system_name, system_transition}

  module _ (action name : Text) (ts : List Text) (s : State) (system : System) (world : World)
      (known : find name s.systems ≡ some system)
      (done : system_transition Transition.shutdown system s.world ≡ (returned tt, world)) where
    shutdown_system_lem :
        ((shutdown_system (action ∷ name ∷ ts) s).0 ≡ value true)
        × ((shutdown_system (action ∷ name ∷ ts) s).1.systems
            ≡ erase (system_name system) s.systems)
    unfolding shutdown_system change_state_method shutdown_and_erase call modify try_catch token
        pure ◌>>=◌
    shutdown_system_lem = (
      simp (with_system-known name action s known, done, write_note-value),
      simp (with_system-known name action s known, done, write_note-value, systems-write_note),
    )

    -- When the library shuts a known system down, the command succeeds, and of the known systems just
    -- the one under the name that this system gives itself is forgotten.
    pub shutdown_system-erases :
        (j : Text)
        → ((shutdown_system (action ∷ name ∷ ts) s).0 ≡ value true)
          × (find j (shutdown_system (action ∷ name ∷ ts) s).1.systems
              ≡ (if str_eq (system_name system) j then none else find j s.systems))
    shutdown_system-erases j = (
      shutdown_system_lem.0,
      ap (find j) shutdown_system_lem.1 ∙ find-erase (system_name system) j s.systems,
    )

  -- A system that is known as `-` and gives itself the empty name is still known as `-` after a command
  -- has shut it down with success.
  pub shutdown_system-unnamed :
      (action : Text) (ts : List Text) (s : State) (system : System) (world : World)
      → find empty_system_name s.systems ≡ some system
      → system_transition Transition.shutdown system s.world ≡ (returned tt, world)
      → system_name system ≡ []
      → ((shutdown_system (action ∷ empty_system_name ∷ ts) s).0 ≡ value true)
        × (find empty_system_name (shutdown_system (action ∷ empty_system_name ∷ ts) s).1.systems
            ≡ some system)
  shutdown_system-unnamed action ts s system world known done unnamed =
      let (succeeded, left) =
        shutdown_system-erases action empty_system_name ts s system world known done
          empty_system_name in
      (succeeded, left ∙ (rw unnamed known))
