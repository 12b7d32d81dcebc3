-- ===== src/Lookup/Known.antt =====
-- A system that is known.
use fep3_base_utilities.Prelude.{Bool, true, false, some, ◌≡◌, Text}
use fep3_base_utilities.Effect.{value, pure, gets, modify, ◌>>=◌}
use fep3_base_utilities.Env.{Env}
use fep3_base_utilities.SystemMap.{find}
use fep3_base_utilities.Session.{State, Action}
use fep3_base_utilities.Lookup.{
  remember, on_found, search_system, get_connected_or_discovered_system, connected_system, on_entry,
  with_system,
}

module _ ⦃env : Env⦄ where
  open env use {System}

  module _ (name action : Text) (s : State) {system : System}
      (known : find name s.systems ≡ some system) where
    get_system-known :
        (auto : Bool)
        → get_connected_or_discovered_system name auto action s
          ≡ (value (some (name, system)), record s { last_system_name_used = name })
    unfolding get_connected_or_discovered_system search_system on_found gets remember modify pure
        ◌>>=◌
    get_system-known true = rw known
    get_system-known false = rw known

    -- No library is asked for a system that is known.
    pub connected_system-known :
        connected_system name action s
        ≡ (value (some (name, system)), record s { last_system_name_used = name })
    unfolding connected_system gets ◌>>=◌
    connected_system-known = get_system-known s.auto_discovery

    pub with_system-known :
        (use_entry : Text × System → Action Bool)
        → with_system name action use_entry s
          ≡ use_entry (name, system) (record s { last_system_name_used = name })
    unfolding with_system on_entry ◌>>=◌
    with_system-known use_entry = rw connected_system-known
