-- ===== src/Commands/Participants/Moves.antt =====
-- The commands on one participant keep to the changes of a session, and read only tokens that are
-- there.
use fep3_base_utilities.Prelude.{◌<◌, Option, none, some, List, String, Text, arith, length}
use fep3_base_utilities.Numbers.{ℤ}
use fep3_base_utilities.Effect.{Answer, returned, thrown}
use fep3_base_utilities.Effect.Runs.{Runs}
use fep3_base_utilities.Env.{Env, Transition}
use fep3_base_utilities.Session.{State, Action}
use fep3_base_utilities.Session.Moves.{IsSessionFlow}
use fep3_base_utilities.Lookup.Moves.{lookup_rules}
use fep3_base_utilities.Commands.Participants.{
  require, change_machine, try_change, do_participant_state_change, transit, set_priority,
  get_priority,
}

module _ ⦃env : Env⦄ {R : State → State → Type 0} (moves : IsSessionFlow R) where
  open env use {StateMachine, Participant, System}

  pub Runs-require : {A : Type 0} (r : Answer A) → Runs R (require r)
  unfolding require
  Runs-require (returned a) = let flow = moves.flow in search lookup_rules
  Runs-require (thrown what) = let flow = moves.flow in search lookup_rules

  module _ (change : StateMachine → Action (Unit {0}))
      (changes : (m : StateMachine) → Runs R (change m)) where
    Runs-change_machine :
        (action system participant : Text) (machine : Option StateMachine)
        → Runs R (change_machine change action system participant machine)
    unfolding change_machine
    Runs-change_machine action system participant none =
        let flow = moves.flow in search lookup_rules
    Runs-change_machine action system participant (some machine) =
        let flow = moves.flow in search (lookup_rules, changes)

    Runs-try_change :
        (action system participant : Text) (entry : Text × System)
        → Runs R (try_change change action system participant entry)
    unfolding try_change
    Runs-try_change action system participant (key, sys) =
        let flow = moves.flow in search (lookup_rules, Runs-change_machine) depth 12

    Runs-do_participant_state_change :
        (tokens : List Text) (action message_1 message_2 : Text)
        → 2 < length tokens
        → Runs R (do_participant_state_change tokens change action message_1 message_2)
    unfolding do_participant_state_change
    Runs-do_participant_state_change tokens action message_1 message_2 enough =
        let flow = moves.flow in
        let second : 1 < length tokens = omega arith in
        search (lookup_rules, Runs-try_change) depth 14

  module _ (tokens : List Text) where
    pub Runs-transit :
        (t : Transition) (message_1 message_2 : String)
        → 2 < length tokens
        → Runs R (transit t message_1 message_2 tokens)
    Runs-transit t message_1 message_2 enough =
        let flow = moves.flow in
        let first : 0 < length tokens = omega arith in
        search (lookup_rules, Runs-do_participant_state_change) depth 9

    pub Runs-set_priority :
        (assign : Participant → ℤ → Action (Unit {0}))
        → 3 < length tokens
        → ((p : Participant) (n : ℤ) → Runs R (assign p n))
        → Runs R (set_priority assign tokens)
    unfolding set_priority
    Runs-set_priority assign enough assigns =
        let flow = moves.flow in
        let first : 0 < length tokens = omega arith in
        let second : 1 < length tokens = omega arith in
        let third : 2 < length tokens = omega arith in
        search (lookup_rules, Runs-require, assigns) depth 16

    pub Runs-get_priority :
        (read : Participant → Action ℤ)
        → 2 < length tokens
        → ((p : Participant) → Runs R (read p))
        → Runs R (get_priority read tokens)
    unfolding get_priority
    Runs-get_priority read enough reads =
        let flow = moves.flow in
        let first : 0 < length tokens = omega arith in
        let second : 1 < length tokens = omega arith in search (lookup_rules, reads) depth 16
