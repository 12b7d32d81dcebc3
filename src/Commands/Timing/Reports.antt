-- ===== src/Commands/Timing/Reports.antt =====
-- A command on the timing that fails has told so.
use fep3_base_utilities.Prelude.{not, ◌<◌, List, Text, arith, length}
use fep3_base_utilities.Env.{Env}
use fep3_base_utilities.Output.Reports.{Longer-moves, Reports}
use fep3_base_utilities.Lookup.Reports.{command_report_rules}
use fep3_base_utilities.Commands.Timing.{
  timing_failed, configure_system_timing_system_time, configure_system_timing_discrete,
  configure_system_time_no_sync, get_current_timing_master,
}

module _ ⦃env : Env⦄ where
  Reports-timing_failed :
      (action cannot name what : Text) → Reports not (timing_failed action cannot name what)
  unfolding timing_failed
  Reports-timing_failed action cannot name what =
      let moves = Longer-moves in let flow = moves.flow in search command_report_rules

  module _ (tokens : List Text) where
    pub Reports-system_time :
        2 < length tokens → Reports not (configure_system_timing_system_time tokens)
    unfolding configure_system_timing_system_time
    Reports-system_time enough =
        let moves = Longer-moves in
        let flow = moves.flow in
        let first : 0 < length tokens = omega arith in
        let second : 1 < length tokens = omega arith in
        search (command_report_rules, Reports-timing_failed) depth 18

    pub Reports-discrete : 4 < length tokens → Reports not (configure_system_timing_discrete tokens)
    unfolding configure_system_timing_discrete
    Reports-discrete enough =
        let moves = Longer-moves in
        let flow = moves.flow in
        let first : 0 < length tokens = omega arith in
        let second : 1 < length tokens = omega arith in
        let third : 2 < length tokens = omega arith in
        let fourth : 3 < length tokens = omega arith in
        search (command_report_rules, Reports-timing_failed) depth 18

    pub Reports-no_sync : 1 < length tokens → Reports not (configure_system_time_no_sync tokens)
    unfolding configure_system_time_no_sync
    Reports-no_sync enough =
        let moves = Longer-moves in
        let flow = moves.flow in
        let first : 0 < length tokens = omega arith in
        search (command_report_rules, Reports-timing_failed) depth 18

    pub Reports-timing_master : 1 < length tokens → Reports not (get_current_timing_master tokens)
    unfolding get_current_timing_master
    Reports-timing_master enough =
        let moves = Longer-moves in
        let flow = moves.flow in
        let first : 0 < length tokens = omega arith in
        search (command_report_rules, Reports-timing_failed) depth 18
