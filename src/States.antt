-- ===== src/States.antt =====
-- src/fep_control_tool/helper.cpp: the names of the aggregated states of a system.
use fep3_base_utilities.Prelude.{
  ℕ, Bool, true, false, ◌≡◌, refl, Text, codes, str_eq, if◌then◌else◌,
}

-- `fep3::SystemAggregatedState`: the enumerators that the sources name; `other` stands for a value
-- outside of them.
pub data AggregatedState : Type 0 where
  undefined unreachable unloaded loaded initialized paused running : AggregatedState
  other : ℕ → AggregatedState

unfoldable pub resolve_system_state : AggregatedState → Text
resolve_system_state undefined = codes "undefined"
resolve_system_state unreachable = codes "unreachable"
resolve_system_state unloaded = codes "unloaded"
resolve_system_state loaded = codes "loaded"
resolve_system_state initialized = codes "initialized"
resolve_system_state paused = codes "paused"
resolve_system_state running = codes "running"
resolve_system_state (other n) = codes "NOT RESOLVABLE"

unfoldable pub get_state_from_string : Text → AggregatedState
get_state_from_string state_string =
    if str_eq state_string (codes "shutdowned")
    then unreachable
    else if str_eq state_string (codes "unloaded")
    then unloaded
    else if str_eq state_string (codes "loaded")
    then loaded
    else if str_eq state_string (codes "initialized")
    then initialized
    else if str_eq state_string (codes "paused")
    then paused
    else if str_eq state_string (codes "running")
    then running
    else undefined

-- The states that a user can name.
abbrev pub is_settable : AggregatedState → Bool
is_settable unloaded = true
is_settable loaded = true
is_settable initialized = true
is_settable paused = true
is_settable running = true
is_settable _ = false

-- Each of the five states that can be set by its own name is read back from the name that is printed
-- for it.
pub get_state_from_string-resolve_system_state :
    (st : AggregatedState)
    → is_settable st ≡ true
    → get_state_from_string (resolve_system_state st) ≡ st
unfolding get_state_from_string resolve_system_state codes
get_state_from_string-resolve_system_state unloaded h = refl
get_state_from_string-resolve_system_state loaded h = refl
get_state_from_string-resolve_system_state initialized h = refl
get_state_from_string-resolve_system_state paused h = refl
get_state_from_string-resolve_system_state running h = refl
get_state_from_string-resolve_system_state undefined h = cc
get_state_from_string-resolve_system_state unreachable h = cc
get_state_from_string-resolve_system_state (other n) h = cc
