-- ===== src/Commands/Timing/Moves.antt =====
-- The commands on the timing keep to the changes of a session, and read only tokens that are there.
use fep3_base_utilities.Prelude.{◌<◌, List, Text, arith, length}
use fep3_base_utilities.Effect.Runs.{Runs}
use fep3_base_utilities.Env.{Env}
use fep3_base_utilities.Session.{State}
use fep3_base_utilities.Session.Moves.{IsSessionFlow}
use fep3_base_utilities.Lookup.Moves.{lookup_rules}
use fep3_base_utilities.Commands.Timing.{
  timing_failed, configure_system_timing_system_time, configure_system_timing_discrete,
  configure_system_time_no_sync, get_current_timing_master,
}

module _ ⦃env : Env⦄ {R : State → State → Type 0} (moves : IsSessionFlow R) where
  Runs-timing_failed :
      (action cannot name what : Text) → Runs R (timing_failed action cannot name what)
  unfolding timing_failed
  Runs-timing_failed action cannot name what = let flow = moves.flow in search lookup_rules

  module _ (tokens : List Text) where
    pub Runs-system_time : 2 < length tokens → Runs R (configure_system_timing_system_time tokens)
    unfolding configure_system_timing_system_time
    Runs-system_time enough =
        let flow = moves.flow in
        let first : 0 < length tokens = omega arith in
        let second : 1 < length tokens = omega arith in
        search (lookup_rules, Runs-timing_failed) depth 14

    pub Runs-discrete : 4 < length tokens → Runs R (configure_system_timing_discrete tokens)
    unfolding configure_system_timing_discrete
    Runs-discrete enough =
        let flow = moves.flow in
        let first : 0 < length tokens = omega arith in
        let second : 1 < length tokens = omega arith in
        let third : 2 < length tokens = omega arith in
        let fourth : 3 < length tokens = omega arith in
        search (lookup_rules, Runs-timing_failed) depth 18

    pub Runs-no_sync : 1 < length tokens → Runs R (configure_system_time_no_sync tokens)
    unfolding configure_system_time_no_sync
    Runs-no_sync enough =
        let flow = moves.flow in
        let first : 0 < length tokens = omega arith in
        search (lookup_rules, Runs-timing_failed) depth 14

    pub Runs-timing_master : 1 < length tokens → Runs R (get_current_timing_master tokens)
    unfolding get_current_timing_master
    Runs-timing_master enough =
        let flow = moves.flow in
        let first : 0 < length tokens = omega arith in
        search (lookup_rules, Runs-timing_failed) depth 14
