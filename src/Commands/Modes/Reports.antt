-- ===== src/Commands/Modes/Reports.antt =====
-- A command on the tool that fails has told so.
use fep3_base_utilities.Prelude.{not, ◌<◌, List, Text, arith, length}
use fep3_base_utilities.Env.{Env}
use fep3_base_utilities.Output.Reports.{Longer-resets, Longer-moves, Reports}
use fep3_base_utilities.Lookup.Reports.{command_report_rules}
use fep3_base_utilities.Env.{FilesystemError, fs_ok}
use fep3_base_utilities.Commands.Modes.{
  directory_changed, set_current_working_directory, get_current_working_directory, quit,
  enable_auto_discovery, disable_auto_discovery, enable_json_mode, disable_json_mode,
}
use fep3_base_utilities.Commands.Modes.Moves.{Runs-set_json_mode}

module _ ⦃env : Env⦄ where
  Reports-directory_changed :
      (action path : Text) (result : FilesystemError)
      → Reports not (directory_changed action path result)
  unfolding directory_changed
  Reports-directory_changed action path fs_ok =
      let moves = Longer-moves in let flow = moves.flow in search command_report_rules
  Reports-directory_changed action path _ =
      let moves = Longer-moves in let flow = moves.flow in search command_report_rules

  module _ (tokens : List Text) where
    pub Reports-set_cwd : 1 < length tokens → Reports not (set_current_working_directory tokens)
    unfolding set_current_working_directory
    Reports-set_cwd enough =
        let moves = Longer-moves in
        let flow = moves.flow in
        let first : 0 < length tokens = omega arith in
        search (command_report_rules, Reports-directory_changed) depth 18

    pub Reports-get_cwd : 0 < length tokens → Reports not (get_current_working_directory tokens)
    unfolding get_current_working_directory
    Reports-get_cwd enough =
        let moves = Longer-moves in let flow = moves.flow in search (command_report_rules) depth 18

    pub Reports-quit : 0 < length tokens → Reports not (quit tokens)
    unfolding quit
    Reports-quit enough =
        let moves = Longer-moves in
        let flow = moves.flow in
        let change = Longer-resets.forgets.cleared in
        search (command_report_rules, enough, change) depth 12

    pub Reports-enable_auto : 0 < length tokens → Reports not (enable_auto_discovery tokens)
    unfolding enable_auto_discovery
    Reports-enable_auto enough =
        let moves = Longer-moves in
        let flow = moves.flow in
        let change = moves.auto_set in search (command_report_rules, enough, change) depth 12

    pub Reports-disable_auto : 0 < length tokens → Reports not (disable_auto_discovery tokens)
    unfolding disable_auto_discovery
    Reports-disable_auto enough =
        let moves = Longer-moves in
        let flow = moves.flow in
        let change = moves.auto_set in search (command_report_rules, enough, change) depth 12

    pub Reports-enable_json : 0 < length tokens → Reports not (enable_json_mode tokens)
    unfolding enable_json_mode
    Reports-enable_json enough =
        let moves = Longer-moves in
        let sets = Longer-resets.modes in
        let flow = moves.flow in
        search (command_report_rules, enough, sets, Runs-set_json_mode) depth 12

    pub Reports-disable_json : 0 < length tokens → Reports not (disable_json_mode tokens)
    unfolding disable_json_mode
    Reports-disable_json enough =
        let moves = Longer-moves in
        let sets = Longer-resets.modes in
        let flow = moves.flow in
        search (command_report_rules, enough, sets, Runs-set_json_mode) depth 12
