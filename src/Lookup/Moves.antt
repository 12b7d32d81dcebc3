-- ===== src/Lookup/Moves.antt =====
-- The look-up of a system and of a participant keeps to the changes of a session.
use fep3_base_utilities.Prelude.{Bool, true, false, Option, none, some, Text}
use fep3_base_utilities.Effect.Runs.{Runs, Runs-modify}
use fep3_base_utilities.Env.{Env}
use fep3_base_utilities.Session.{State, Action}
use fep3_base_utilities.Session.Moves.{IsSessionFlow}
use fep3_base_utilities.Output.Moves.{output_rules}
use fep3_base_utilities.Lookup.{
  remember, keep_system, discover_system_by_name, on_found, search_system, not_connected,
  get_connected_or_discovered_system, connected_system, on_entry, with_system, participant_in,
  get_participant, on_participant, with_participant,
}

module _ ⦃env : Env⦄ {R : State → State → Type 0} (moves : IsSessionFlow R) where
  open env use {System, Participant, system_name}

  pub Runs-remember : (name : Text) → Runs R (remember name)
  unfolding remember
  Runs-remember name = Runs-modify moves.flow _ (λ s. moves.remembered s name)

  pub Runs-keep_system : (system : System) → Runs R (keep_system system)
  unfolding keep_system
  Runs-keep_system system =
      Runs-modify moves.flow _ (λ s. moves.assigned s (system_name system) system)

  pub Runs-discover_system_by_name : (name : Text) → Runs R (discover_system_by_name name)
  unfolding discover_system_by_name
  Runs-discover_system_by_name name =
      let flow = moves.flow in search (output_rules, Runs-remember, Runs-keep_system)

  Runs-on_found :
      (name : Text) (otherwise : Action (Option (Text × System))) (found : Option System)
      → Runs R otherwise
      → Runs R (on_found name otherwise found)
  unfolding on_found
  Runs-on_found name otherwise none h = h
  Runs-on_found name otherwise (some system) h =
      let flow = moves.flow in search (output_rules, Runs-remember)

  Runs-search_system :
      (name : Text) (otherwise : Action (Option (Text × System)))
      → Runs R otherwise
      → Runs R (search_system name otherwise)
  unfolding search_system
  Runs-search_system name otherwise h =
      let flow = moves.flow in search (output_rules, Runs-on_found)

  Runs-not_connected : (name action : Text) → Runs R (not_connected name action)
  unfolding not_connected
  Runs-not_connected name action = let flow = moves.flow in search output_rules

  Runs-get_system :
      (name : Text) (auto : Bool) (action : Text)
      → Runs R (get_connected_or_discovered_system name auto action)
  unfolding get_connected_or_discovered_system
  Runs-get_system name false action = Runs-search_system name _ (Runs-not_connected name action)
  Runs-get_system name true action =
      let flow = moves.flow in
      Runs-search_system name _ (
        search (output_rules, Runs-discover_system_by_name, Runs-search_system, Runs-not_connected))

  pub Runs-connected_system : (name action : Text) → Runs R (connected_system name action)
  unfolding connected_system
  Runs-connected_system name action =
      let flow = moves.flow in search (output_rules, Runs-get_system)

  pub Runs-on_entry :
      (use_entry : Text × System → Action Bool) (entry : Option (Text × System))
      → ((e : Text × System) → Runs R (use_entry e))
      → Runs R (on_entry use_entry entry)
  unfolding on_entry
  Runs-on_entry use_entry none h = let flow = moves.flow in search output_rules
  Runs-on_entry use_entry (some e) h = h e

  pub Runs-with_system :
      (name action : Text) (use_entry : Text × System → Action Bool)
      → ((e : Text × System) → Runs R (use_entry e))
      → Runs R (with_system name action use_entry)
  unfolding with_system
  Runs-with_system name action use_entry h =
      let flow = moves.flow in search (output_rules, Runs-connected_system, Runs-on_entry)

  pub Runs-participant_in :
      (action system participant : Text) (entry : Option (Text × System))
      → Runs R (participant_in action system participant entry)
  unfolding participant_in
  Runs-participant_in action system participant none = let flow = moves.flow in search output_rules
  Runs-participant_in action system participant (some (key, sys)) =
      let flow = moves.flow in search output_rules

  pub Runs-get_participant :
      (action system participant : Text) → Runs R (get_participant action system participant)
  unfolding get_participant
  Runs-get_participant action system participant =
      let flow = moves.flow in search (output_rules, Runs-connected_system, Runs-participant_in)

  pub Runs-on_participant :
      (use_participant : Participant → Action Bool) (part : Option Participant)
      → ((p : Participant) → Runs R (use_participant p))
      → Runs R (on_participant use_participant part)
  unfolding on_participant
  Runs-on_participant use_participant none h = let flow = moves.flow in search output_rules
  Runs-on_participant use_participant (some p) h = h p

  pub Runs-with_participant :
      (action system participant : Text) (use_participant : Participant → Action Bool)
      → ((p : Participant) → Runs R (use_participant p))
      → Runs R (with_participant action system participant use_participant)
  unfolding with_participant
  Runs-with_participant action system participant use_participant h =
      let flow = moves.flow in search (output_rules, Runs-get_participant, Runs-on_participant)

pub ruleset lookup_rules = (
  output_rules, Runs-remember, Runs-keep_system, Runs-connected_system, Runs-on_entry,
  Runs-with_system, Runs-get_participant, Runs-with_participant,
)
