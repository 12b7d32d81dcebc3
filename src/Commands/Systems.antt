-- ===== src/Commands/Systems.antt =====
-- src/fep_control_tool/fep_control.cpp: the commands on whole systems.
pub mod Moves
pub mod Reports
pub mod Shutdown
pub mod Discovery
pub mod AllOrNothing
use fep3_base_utilities.Prelude.{
  ℕ, Bool, true, false, Option, none, some, List, [], ◌∷◌, ◌++◌, map, Text, codes, str_eq,
  if◌then◌else◌, String,
}
use fep3_base_utilities.Effect.{Effect, pure, gets, modify, try_catch, token, ◌>>=◌, ◌>>◌}
use fep3_base_utilities.Env.{
  Env, Transition, load, unload, initialize, deinitialize, start, stop, pause, shutdown,
}
use fep3_base_utilities.SystemMap.{emplace, erase}
use fep3_base_utilities.Session.{Session, State, Action, call}
use fep3_base_utilities.Output.{
  Attribute, generic_error, write_note, write_notes, write_notes_vec, write_exception,
}
use fep3_base_utilities.Lookup.{empty_system_name, real_name, remember, keep_system, with_system}

-- `if (system_name.empty()) system_name = _empty_system_name;`
abbrev pub shown_name : Text → Text
shown_name [] = empty_system_name
shown_name (c ∷ name) = c ∷ name

module _ ⦃env : Env⦄ where
  open env use {
    System, system_name, participants_of, participant_name, discover_every_system,
    discover_system_named, system_transition, register_monitoring, unregister_monitoring, join,
  }

  unfoldable pub get_system_participants : System → Action (List Attribute)
  get_system_participants system = do
    participants ← call (participants_of system)
    pure (
        (codes "system_name", shown_name (system_name system))
        ∷ (codes "participants", join (map participant_name participants) (codes ", "))
        ∷ [])

  unfoldable pub get_systems : List System → Action (List (List Attribute))
  get_systems [] = pure []
  get_systems (system ∷ systems) = do
    attributes ← get_system_participants system
    rest ← get_systems systems
    pure (attributes ∷ rest)

  -- The loop that keeps each discovered system and makes it the last name used.
  unfoldable pub emplace_systems : List System → Action (Unit {0})
  emplace_systems [] = pure tt
  emplace_systems (system ∷ systems) = do
    let name = shown_name (system_name system)
    modify (λ s. record s { systems = emplace name system s.systems })
    remember name
    emplace_systems systems

  unfoldable pub discover_all_systems : List Text → Action Bool
  discover_all_systems tokens = do
    systems ← call discover_every_system
    systems_attrs ← get_systems systems
    action ← token tokens 0
    write_notes_vec action systems_attrs
    emplace_systems systems
    pure true

  unfoldable pub discover_system : List Text → Action Bool
  discover_system tokens = do
    action ← token tokens 0
    name ← token tokens 1
    remember name
    system ← call (discover_system_named (real_name name))
    attributes ← get_system_participants system
    write_notes action attributes
    keep_system system
    pure true

  unfoldable pub change_state_method :
      Text → (System → Action (Unit {0})) → Text → Text → Text → Action Bool
  change_state_method name change action success_message failed_message =
      with_system name action λ entry. do
        done ←
            try_catch (do change entry.1; pure true)
              (λ what. do
                write_exception action
                    (codes "cannot " ++ failed_message ++ codes " system '" ++ name ++ codes "'")
                    generic_error what
                pure false)
        if done
            then (do write_note action (name ++ codes " " ++ success_message); pure true)
            else pure false

  -- A command that makes one transition of the system.
  abbrev pub transit : Transition → String → String → List Text → Action Bool
  transit t success_message failed_message tokens = do
    action ← token tokens 0
    name ← token tokens 1
    change_state_method name (λ system. call (system_transition t system)) action
        (codes success_message) (codes failed_message)

  unfoldable pub start_system : List Text → Action Bool
  start_system = transit start "started" "start"

  unfoldable pub stop_system : List Text → Action Bool
  stop_system = transit stop "stopped" "stop"

  unfoldable pub load_system : List Text → Action Bool
  load_system = transit load "loaded" "load"

  unfoldable pub unload_system : List Text → Action Bool
  unload_system = transit unload "unloaded" "unload"

  unfoldable pub initialize_system : List Text → Action Bool
  initialize_system = transit initialize "initialized" "initialize"

  unfoldable pub deinitialize_system : List Text → Action Bool
  deinitialize_system = transit deinitialize "deinitialized" "deinitialize"

  unfoldable pub pause_system : List Text → Action Bool
  pause_system = transit pause "paused" "pause"

  -- The lambda of shutdownSystem: the entry is erased under the name that the system gives itself.
  unfoldable pub shutdown_and_erase : System → Action (Unit {0})
  shutdown_and_erase system = do
    let name = system_name system
    call (system_transition shutdown system)
    modify (λ s. record s { systems = erase name s.systems })

  unfoldable pub shutdown_system : List Text → Action Bool
  shutdown_system tokens = do
    action ← token tokens 0
    name ← token tokens 1
    change_state_method name shutdown_and_erase action (codes "shutdowned") (codes "shutdown")

  -- `try { system.unregisterMonitoring(monitor); } catch (...) {}`
  abbrev pub forget_monitoring : System → Action (Unit {0})
  forget_monitoring system = try_catch (call (unregister_monitoring system)) (λ what. pure tt)

  unfoldable pub start_monitoring_system : List Text → Action Bool
  start_monitoring_system tokens = do
    action ← token tokens 0
    name ← token tokens 1
    with_system name action λ entry. do
      forget_monitoring entry.1
      call (register_monitoring entry.1)
      write_note action (codes "monitoring: enabled")
      pure true

  unfoldable pub stop_monitoring_system : List Text → Action Bool
  stop_monitoring_system tokens = do
    action ← token tokens 0
    name ← token tokens 1
    with_system name action λ entry. do
      forget_monitoring entry.1
      write_note action (codes "monitoring: disabled")
      pure true

  unfoldable pub get_participants : List Text → Action Bool
  get_participants tokens = do
    action ← token tokens 0
    name ← token tokens 1
    with_system name action λ entry. do
      attributes ← get_system_participants entry.1
      write_notes action attributes
      pure true
