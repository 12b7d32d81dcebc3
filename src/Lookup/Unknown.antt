-- ===== src/Lookup/Unknown.antt =====
-- A system that is not known, with the automatic discovery off.
use fep3_base_utilities.Prelude.{Bool, false, none, [], ◌++◌, ◌≡◌, Text, codes}
use fep3_base_utilities.Effect.{value, pure, gets, ◌>>=◌}
use fep3_base_utilities.Env.{Env}
use fep3_base_utilities.SystemMap.{find}
use fep3_base_utilities.Session.{State, Action}
use fep3_base_utilities.Output.{generic_error, write_error}
use fep3_base_utilities.Output.Values.{write_error-value}
use fep3_base_utilities.Lookup.{
  on_found, search_system, not_connected, get_connected_or_discovered_system, connected_system,
  on_entry, with_system, participant_in, get_participant, on_participant, with_participant,
}

module _ ⦃env : Env⦄ where
  open env use {System, Participant}

  -- The session after the error that the look-up writes, and nothing else.
  abbrev pub reported : Text → Text → State → State
  reported name action s =
      (write_error action (codes "System '" ++ name ++ codes "' is not connected") generic_error []
        s).1

  pub not_connected_lem :
      (name action : Text) (s : State)
      → not_connected name action s ≡ (value none, reported name action s)
  unfolding not_connected pure ◌>>=◌
  not_connected_lem name action s = rw (
      write_error-value action (codes "System '" ++ name ++ codes "' is not connected")
        generic_error [] s)

  module _ (name action : Text) (s : State) (off : s.auto_discovery ≡ false)
      (unknown : find name s.systems ≡ none) where
    pub connected_system-unknown :
        connected_system name action s ≡ (value none, reported name action s)
    unfolding connected_system get_connected_or_discovered_system search_system on_found gets ◌>>=◌
    connected_system-unknown = simp (off, unknown) (not_connected_lem name action _)

    pub with_system-unknown :
        (use_entry : Text × System → Action Bool)
        → with_system name action use_entry s ≡ (value false, reported name action s)
    unfolding with_system on_entry pure ◌>>=◌
    with_system-unknown use_entry = rw connected_system-unknown

    pub with_participant-unknown :
        (participant : Text) (use_participant : Participant → Action Bool)
        → with_participant action name participant use_participant s
          ≡ (value false, reported name action s)
    unfolding with_participant get_participant participant_in on_participant pure ◌>>=◌
    with_participant-unknown participant use_participant = rw connected_system-unknown
