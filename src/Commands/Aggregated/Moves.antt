-- ===== src/Commands/Aggregated/Moves.antt =====
-- The commands on states keep to the changes of a session, and read only tokens that are there.
use fep3_base_utilities.Prelude.{true, ◌<◌, Option, none, some, List, Text, arith, length}
use fep3_base_utilities.Effect.Runs.{Runs, Runs-bind, Runs-if, Runs-pure, Runs-try_catch}
use fep3_base_utilities.Env.{Env}
use fep3_base_utilities.Session.{State}
use fep3_base_utilities.Session.Moves.{Forgets, IsSessionFlow, Runs-call}
use fep3_base_utilities.Lookup.Moves.{lookup_rules}
use fep3_base_utilities.Commands.Systems.Moves.{Runs-shutdown_system}
use fep3_base_utilities.Commands.Aggregated.{
  get_system_state, set_state_failed, set_state_of, set_system_state, read_machine,
  get_participant_state, set_participant_state,
}

module _ ⦃env : Env⦄ {R : State → State → Type 0} (moves : IsSessionFlow R) where
  open env use {StateMachine, System}

  Runs-set_state_failed :
      (action state_string first what : Text)
      → Runs R (set_state_failed action state_string first what)
  unfolding set_state_failed
  Runs-set_state_failed action state_string first what =
      let flow = moves.flow in search lookup_rules

  Runs-read_machine :
      (action system participant : Text) (machine : Option StateMachine)
      → Runs R (read_machine action system participant machine)
  unfolding read_machine
  Runs-read_machine action system participant none = let flow = moves.flow in search lookup_rules
  Runs-read_machine action system participant (some machine) =
      let flow = moves.flow in search lookup_rules

  module _ (tokens : List Text) where
    pub Runs-get_system_state : 1 < length tokens → Runs R (get_system_state tokens)
    unfolding get_system_state
    Runs-get_system_state enough =
        let flow = moves.flow in
        let first : 0 < length tokens = omega arith in search lookup_rules depth 14

    pub Runs-set_state_of :
        (action name state_string : Text) (entry : Text × System)
        → 1 < length tokens
        → Forgets R
        → Runs R (set_state_of tokens action name state_string entry)
    unfolding set_state_of
    Runs-set_state_of action name state_string entry enough forgets =
        let flow = moves.flow in
        Runs-try_catch flow _ _
          (Runs-if flow _ _ _
            (Runs-bind flow _ _ (Runs-call moves _) λ _.
              Runs-try_catch flow _ _ (Runs-shutdown_system moves tokens enough forgets)
                (λ what. Runs-set_state_failed _ _ _ what))
            (Runs-bind flow _ _ (Runs-call moves _) λ _.
              Runs-try_catch flow _ _
                (Runs-bind flow _ _ (Runs-get_system_state enough) (λ _. Runs-pure flow true))
                (λ what. Runs-set_state_failed _ _ _ what)))
          (λ what. Runs-set_state_failed _ _ _ what)

    pub Runs-set_system_state : 2 < length tokens → Forgets R → Runs R (set_system_state tokens)
    unfolding set_system_state
    Runs-set_system_state enough forgets =
        let flow = moves.flow in
        let first : 0 < length tokens = omega arith in
        let second : 1 < length tokens = omega arith in
        search (lookup_rules, Runs-set_state_of) depth 12

    pub Runs-get_participant_state : 2 < length tokens → Runs R (get_participant_state tokens)
    unfolding get_participant_state
    Runs-get_participant_state enough =
        let flow = moves.flow in
        let first : 0 < length tokens = omega arith in
        let second : 1 < length tokens = omega arith in
        search (lookup_rules, Runs-read_machine) depth 14

    pub Runs-set_participant_state : 3 < length tokens → Runs R (set_participant_state tokens)
    unfolding set_participant_state
    Runs-set_participant_state enough =
        let flow = moves.flow in
        let first : 0 < length tokens = omega arith in
        let second : 1 < length tokens = omega arith in
        let third : 2 < length tokens = omega arith in search lookup_rules depth 18
