-- ===== src/Lookup/Reports.antt =====
-- A look-up that finds nothing has told so.
use fep3_base_utilities.Prelude.{Bool, true, false, not, Option, none, some, ◌≡◌, Text}
use fep3_base_utilities.Effect.{◌>>=◌}
use fep3_base_utilities.Env.{Env}
use fep3_base_utilities.Session.{Action}
use fep3_base_utilities.Output.Reports.{
  Longer, Longer-moves, Reports, is_none, Reports-bind, Reports-bind_early, Reports-try_catch,
  report_rules,
}
use fep3_base_utilities.Lookup.{
  on_found, search_system, not_connected, get_connected_or_discovered_system, connected_system,
  on_entry, with_system, participant_in, get_participant, on_participant, with_participant,
}
use fep3_base_utilities.Lookup.Moves.{
  lookup_rules, Runs-discover_system_by_name, Runs-on_entry, Runs-participant_in,
  Runs-on_participant,
}

module _ ⦃env : Env⦄ where
  open env use {System, Participant}

  Reports-not_connected : (name action : Text) → Reports is_none (not_connected name action)
  unfolding not_connected
  Reports-not_connected name action =
      let moves = Longer-moves in let flow = moves.flow in search (report_rules, lookup_rules)

  Reports-on_found :
      (name : Text) (otherwise : Action (Option (Text × System))) (found : Option System)
      → Reports is_none otherwise
      → Reports is_none (on_found name otherwise found)
  unfolding on_found
  Reports-on_found name otherwise none h = h
  Reports-on_found name otherwise (some system) h =
      let moves = Longer-moves in let flow = moves.flow in search (report_rules, lookup_rules)

  Reports-search_system :
      (name : Text) (otherwise : Action (Option (Text × System)))
      → Reports is_none otherwise
      → Reports is_none (search_system name otherwise)
  unfolding search_system
  Reports-search_system name otherwise h =
      let moves = Longer-moves in
      let flow = moves.flow in search (report_rules, lookup_rules, Reports-on_found)

  Reports-get_system :
      (name : Text) (auto : Bool) (action : Text)
      → Reports is_none (get_connected_or_discovered_system name auto action)
  unfolding get_connected_or_discovered_system
  Reports-get_system name false action =
      Reports-search_system name _ (Reports-not_connected name action)
  Reports-get_system name true action = Reports-search_system name _ (
      Reports-bind is_none _ _ (Runs-discover_system_by_name Longer-moves name)
        (λ _. Reports-search_system name _ (Reports-not_connected name action)))

  pub Reports-connected_system :
      (name action : Text) → Reports is_none (connected_system name action)
  unfolding connected_system
  Reports-connected_system name action =
      let moves = Longer-moves in
      let flow = moves.flow in search (report_rules, lookup_rules, Reports-get_system)

  late_entry :
      (use_entry : Text × System → Action Bool) (entry : Option (Text × System))
      → ((e : Text × System) → Reports not (use_entry e))
      → is_none entry ≡ false
      → Reports not (on_entry use_entry entry)
  unfolding on_entry
  late_entry use_entry none h e = cc
  late_entry use_entry (some entry) h e = h entry

  -- The use of the entry that the look-up found, or the early return of false.
  pub Reports-on_entry :
      (m : Action (Option (Text × System))) (use_entry : Text × System → Action Bool)
      → Reports is_none m
      → ((e : Text × System) → Reports not (use_entry e))
      → Reports not (m >>= on_entry use_entry)
  Reports-on_entry m use_entry hm h =
      Reports-bind_early is_none not m (on_entry use_entry) hm
        (λ entry. Runs-on_entry Longer-moves use_entry entry (λ e. (h e).runs))
        (λ entry. late_entry use_entry entry h)

  pub Reports-with_system :
      (name action : Text) (use_entry : Text × System → Action Bool)
      → ((e : Text × System) → Reports not (use_entry e))
      → Reports not (with_system name action use_entry)
  unfolding with_system
  Reports-with_system name action use_entry h =
      Reports-on_entry _ use_entry (Reports-connected_system name action) h

  Reports-participant_in :
      (action system participant : Text) (entry : Text × System)
      → Reports is_none (participant_in action system participant (some entry))
  unfolding participant_in
  Reports-participant_in action system participant (key, sys) =
      let moves = Longer-moves in let flow = moves.flow in search (report_rules, lookup_rules)

  late_participant :
      (action system participant : Text) (entry : Option (Text × System))
      → is_none entry ≡ false
      → Reports is_none (participant_in action system participant entry)
  late_participant action system participant none e = cc
  late_participant action system participant (some entry) e =
      Reports-participant_in action system participant entry

  Reports-get_participant :
      (action system participant : Text)
      → Reports is_none (get_participant action system participant)
  unfolding get_participant
  Reports-get_participant action system participant =
      Reports-bind_early is_none is_none _ _ (Reports-connected_system system action)
        (λ entry. Runs-participant_in Longer-moves action system participant entry)
        (λ entry. late_participant action system participant entry)

  late_use :
      (use_participant : Participant → Action Bool) (part : Option Participant)
      → ((p : Participant) → Reports not (use_participant p))
      → is_none part ≡ false
      → Reports not (on_participant use_participant part)
  unfolding on_participant
  late_use use_participant none h e = cc
  late_use use_participant (some p) h e = h p

  pub Reports-with_participant :
      (action system participant : Text) (use_participant : Participant → Action Bool)
      → ((p : Participant) → Reports not (use_participant p))
      → Reports not (with_participant action system participant use_participant)
  unfolding with_participant
  Reports-with_participant action system participant use_participant h =
      Reports-bind_early is_none not _ _ (Reports-get_participant action system participant)
        (λ part. Runs-on_participant Longer-moves use_participant part (λ p. (h p).runs))
        (λ part. late_use use_participant part h)

pub ruleset command_report_rules =
    (report_rules, lookup_rules, Reports-on_entry, Reports-with_system, Reports-with_participant)
