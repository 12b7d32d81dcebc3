-- ===== src/Commands/Modes/Moves.antt =====
-- The commands on the tool itself keep to the changes of a session, and read only tokens that are
-- there.
use fep3_base_utilities.Prelude.{Bool, true, false, ◌<◌, List, Text, length}
use fep3_base_utilities.Effect.{modify, ◌>>=◌}
use fep3_base_utilities.Effect.Runs.{Runs}
use fep3_base_utilities.Env.{Env, FilesystemError, fs_ok}
use fep3_base_utilities.Session.{State}
use fep3_base_utilities.Session.Moves.{IsSessionFlow, Forgets, SetsMode}
use fep3_base_utilities.Lookup.Moves.{lookup_rules}
use fep3_base_utilities.Commands.Modes.{
  directory_changed, set_current_working_directory, get_current_working_directory, quit,
  enable_auto_discovery, disable_auto_discovery, set_json_mode, enable_json_mode, disable_json_mode,
}

module _ ⦃env : Env⦄ {R : State → State → Type 0} (moves : IsSessionFlow R) where
  Runs-directory_changed :
      (action path : Text) (result : FilesystemError)
      → Runs R (directory_changed action path result)
  unfolding directory_changed
  Runs-directory_changed action path fs_ok = let flow = moves.flow in search lookup_rules
  Runs-directory_changed action path _ = let flow = moves.flow in search lookup_rules

  pub Runs-set_json_mode : (b : Bool) → SetsMode R b → Runs R (set_json_mode b)
  unfolding set_json_mode modify ◌>>=◌
  Runs-set_json_mode b sets = record { along = sets; defined = λ s. cc }

  module _ (tokens : List Text) (enough : 0 < length tokens) where
    pub Runs-set_cwd : 1 < length tokens → Runs R (set_current_working_directory tokens)
    unfolding set_current_working_directory
    Runs-set_cwd more =
        let flow = moves.flow in search (lookup_rules, enough, Runs-directory_changed) depth 9

    pub Runs-get_cwd : Runs R (get_current_working_directory tokens)
    unfolding get_current_working_directory
    Runs-get_cwd = let flow = moves.flow in search (lookup_rules, enough) depth 9

    pub Runs-quit : Forgets R → Runs R (quit tokens)
    unfolding quit
    Runs-quit forgets =
        let flow = moves.flow in
        let cleared = forgets.cleared in search (lookup_rules, enough, cleared) depth 9

    pub Runs-enable_auto : Runs R (enable_auto_discovery tokens)
    unfolding enable_auto_discovery
    Runs-enable_auto =
        let flow = moves.flow in
        let auto = moves.auto_set in search (lookup_rules, enough, auto) depth 9

    pub Runs-disable_auto : Runs R (disable_auto_discovery tokens)
    unfolding disable_auto_discovery
    Runs-disable_auto =
        let flow = moves.flow in
        let auto = moves.auto_set in search (lookup_rules, enough, auto) depth 9

    pub Runs-enable_json : SetsMode R true → Runs R (enable_json_mode tokens)
    unfolding enable_json_mode
    Runs-enable_json sets =
        let flow = moves.flow in search (lookup_rules, enough, sets, Runs-set_json_mode) depth 9

    pub Runs-disable_json : SetsMode R false → Runs R (disable_json_mode tokens)
    unfolding disable_json_mode
    Runs-disable_json sets =
        let flow = moves.flow in search (lookup_rules, enough, sets, Runs-set_json_mode) depth 9
