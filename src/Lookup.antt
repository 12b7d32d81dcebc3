-- ===== src/Lookup.antt =====
-- src/fep_control_tool/fep_control.cpp: how a command finds its system and its participant.
pub mod Moves
pub mod Reports
pub mod Unknown
pub mod Known
pub mod Discovery
use fep3_base_utilities.Prelude.{
  Bool, true, false, Option, none, some, List, [], ◌∷◌, ◌++◌, Text, codes, str_eq, if◌then◌else◌,
}
use fep3_base_utilities.Effect.{Effect, pure, gets, modify, try_catch, ◌>>=◌, ◌>>◌}
use fep3_base_utilities.Env.{Env}
use fep3_base_utilities.SystemMap.{find, assign}
use fep3_base_utilities.Session.{Session, State, Action, call}
use fep3_base_utilities.Output.{generic_error, write_error, write_exception}

-- `_empty_system_name`, by which users name the system with the empty name.
abbrev pub empty_system_name : Text
empty_system_name = b'-' ∷ []

-- `if (system_name == _empty_system_name) system_name = "";`
abbrev pub real_name : Text → Text
real_name name = if str_eq name empty_system_name then [] else name

module _ ⦃env : Env⦄ where
  open env use {System, Participant, discover_system_named, system_name, participant_of, is_valid}

  unfoldable pub remember : Text → Action (Unit {0})
  unfolding modify
  remember name = modify (λ s. record s { last_system_name_used = name })

  -- `_connected_or_discovered_systems[system.getSystemName()] = std::move(system)`
  unfoldable pub keep_system : System → Action (Unit {0})
  unfolding modify
  keep_system system =
      modify (λ s. record s { systems = assign (system_name system) system s.systems })

  unfoldable pub discover_system_by_name : Text → Action (Unit {0})
  discover_system_by_name name = do
    remember name
    system ← call (discover_system_named (real_name name))
    keep_system system

  unfoldable pub on_found :
      Text → Action (Option (Text × System)) → Option System → Action (Option (Text × System))
  on_found name otherwise none = otherwise
  on_found name otherwise (some system) = do remember name; pure (some (name, system))

  -- The search in the map, and what is done if it finds nothing.
  unfoldable pub search_system :
      Text → Action (Option (Text × System)) → Action (Option (Text × System))
  search_system name otherwise = do
    systems ← gets (λ s. s.systems)
    on_found name otherwise (find name systems)

  unfoldable pub not_connected : Text → Text → Action (Option (Text × System))
  not_connected name action = do
    write_error action (codes "System '" ++ name ++ codes "' is not connected") generic_error []
    pure none

  -- The result is the entry that the iterator stands for, or `none` for the end of the map.
  unfoldable pub get_connected_or_discovered_system :
      Text → Bool → Text → Action (Option (Text × System))
  get_connected_or_discovered_system name false action =
      search_system name (not_connected name action)
  get_connected_or_discovered_system name true action =
      search_system name
        (do discover_system_by_name name; search_system name (not_connected name action))

  -- `getConnectedOrDiscoveredSystem(name, _auto_discovery_of_systems, action)`
  unfoldable pub connected_system : Text → Text → Action (Option (Text × System))
  connected_system name action = do
    auto ← gets (λ s. s.auto_discovery)
    get_connected_or_discovered_system name auto action

  unfoldable pub on_entry : (Text × System → Action Bool) → Option (Text × System) → Action Bool
  on_entry use_entry none = pure false
  on_entry use_entry (some entry) = use_entry entry

  -- The look-up, and the early return of false where it ends at the end of the map.
  unfoldable pub with_system : Text → Text → (Text × System → Action Bool) → Action Bool
  with_system name action use_entry = do
    entry ← connected_system name action
    on_entry use_entry entry

  abbrev pub participant_failure : Text → Text → Text
  participant_failure system_name participant_name =
      codes "participant '"
      ++ participant_name
      ++ codes "' is not in system '"
      ++ system_name
      ++ codes "'. Is it in another system? Try to run 'discoverSystem "
      ++ system_name
      ++ codes "' or 'discoverAllSystems'."

  unfoldable pub participant_in :
      Text → Text → Text → Option (Text × System) → Action (Option Participant)
  participant_in action system_name participant_name none = pure none
  participant_in action system_name participant_name (some (key, system)) =
      try_catch (do p ← call (participant_of system participant_name); pure (some p))
        (λ what. do
          write_exception action (participant_failure system_name participant_name) generic_error
              what
          pure none)

  unfoldable pub get_participant : Text → Text → Text → Action (Option Participant)
  get_participant action system_name participant_name = do
    entry ← connected_system system_name action
    participant_in action system_name participant_name entry

  unfoldable pub on_participant : (Participant → Action Bool) → Option Participant → Action Bool
  on_participant use_participant none = pure false
  on_participant use_participant (some p) = use_participant p

  -- `auto part = getParticipant(...); if (part) { ... } else { return false; }`
  unfoldable pub with_participant : Text → Text → Text → (Participant → Action Bool) → Action Bool
  with_participant action system_name participant_name use_participant = do
    part ← get_participant action system_name participant_name
    on_participant use_participant part
