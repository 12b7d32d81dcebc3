-- ===== src/Lookup/Discovery.antt =====
-- The automatic discovery of a system that a command names.
use fep3_base_utilities.Prelude.{true, false, none, some, [], ◌≡◌, refl, Text, str_eq, str_eq_iff}
use fep3_base_utilities.Effect.{value, returned, pure, gets, modify, ◌>>=◌}
use fep3_base_utilities.Env.{Env}
use fep3_base_utilities.SystemMap.{find, assign}
use fep3_base_utilities.SystemMap.Laws.{find-assign}
use fep3_base_utilities.Session.{State, call}
use fep3_base_utilities.Lookup.{
  empty_system_name, remember, keep_system, discover_system_by_name, on_found, search_system,
  get_connected_or_discovered_system, connected_system,
}
use fep3_base_utilities.Lookup.Unknown.{reported, not_connected_lem}

module _ ⦃env : Env⦄ where
  open env use {World, System, system_name, discover_system_named}

  -- A session in which the system was discovered under that name.
  abbrev pub discovered : Text → Text → System → World → State → State
  discovered name key system world s = record s {
    last_system_name_used = name;
    systems = assign key system s.systems;
    world = world;
  }

  module _ (name action : Text) (s : State) (system : System) (world : World)
      (on : s.auto_discovery ≡ true) (unknown : find name s.systems ≡ none) where
    -- With the automatic discovery on, a system that is not known and whose name is not `-`, if it is
    -- found under its name and gives itself that name, is kept under it and is the system that the
    -- command works on.
    pub connected_system-discovered :
        str_eq name empty_system_name ≡ false
        → discover_system_named name s.world ≡ (returned system, world)
        → system_name system ≡ name
        → connected_system name action s
          ≡ (value (some (name, system)), discovered name name system world s)
    unfolding connected_system get_connected_or_discovered_system search_system on_found gets
        discover_system_by_name remember keep_system modify call pure ◌>>=◌
    connected_system-discovered named found same =
        simp (on, unknown, named, found, same, find-assign, (str_eq_iff name name).1 refl)

  -- With the automatic discovery on and nothing known as `-`, a command on `-` discovers the system with
  -- the empty name, if that one is found and gives itself the empty name, and keeps it under the empty
  -- name; the look-up under `-` fails all the same, with the error that the system is not connected.
  pub connected_system-unnamed :
      (action : Text) (s : State) (system : System) (world : World)
      → s.auto_discovery ≡ true
      → find empty_system_name s.systems ≡ none
      → discover_system_named [] s.world ≡ (returned system, world)
      → system_name system ≡ []
      → connected_system empty_system_name action s ≡ (
        value none,
        reported empty_system_name action (discovered empty_system_name [] system world s),
      )
  unfolding connected_system get_connected_or_discovered_system search_system on_found gets
      discover_system_by_name remember keep_system modify call pure ◌>>=◌
  connected_system-unnamed action s system world on unknown found same =
      simp (on, unknown, found, same, find-assign) (not_connected_lem empty_system_name action _)
