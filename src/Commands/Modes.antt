-- ===== src/Commands/Modes.antt =====
-- src/fep_control_tool/fep_control.cpp: the commands on the tool itself.
pub mod Moves
pub mod Reports
use fep3_base_utilities.Prelude.{Bool, true, false, List, [], ◌++◌, Text, codes}
use fep3_base_utilities.Effect.{Effect, pure, modify, stop_process, token, ◌>>=◌, ◌>>◌}
use fep3_base_utilities.Env.{
  Env, FilesystemError, fs_ok, open_failed, general_failure, io_error, invalid_path, access_denied,
  other_error,
}
use fep3_base_utilities.Session.{Session, State, Action, call}
use fep3_base_utilities.Output.{filesystem_error, write_note, write_attribute, write_error}

-- With assertions compiled out, as in a release build.
unfoldable pub resolve_filesystem_error_code : FilesystemError → Text
resolve_filesystem_error_code fs_ok = codes "OK"
resolve_filesystem_error_code open_failed = codes "OPEN_FAILED"
resolve_filesystem_error_code general_failure = codes "GENERAL_FAILURE"
resolve_filesystem_error_code io_error = codes "IO_ERROR"
resolve_filesystem_error_code invalid_path = codes "INVALID_PATH"
resolve_filesystem_error_code access_denied = codes "ACCESS_DENIED"
resolve_filesystem_error_code other_error = codes "UNKNOWN_ERROR"

module _ ⦃env : Env⦄ where
  open env use {canonical, change_directory, current_directory}

  unfoldable pub directory_changed : Text → Text → FilesystemError → Action Bool
  directory_changed action path fs_ok = do
    write_attribute action (codes "working_directory", path)
    pure true
  directory_changed action path result = do
    write_error action (codes "cannot set working directory to '" ++ path ++ codes "'")
        filesystem_error (resolve_filesystem_error_code result)
    pure false

  unfoldable pub set_current_working_directory : List Text → Action Bool
  set_current_working_directory tokens = do
    action ← token tokens 0
    name ← token tokens 1
    let path = canonical name
    result ← call (change_directory path)
    directory_changed action path result

  unfoldable pub get_current_working_directory : List Text → Action Bool
  get_current_working_directory tokens = do
    path ← call current_directory
    action ← token tokens 0
    write_attribute action (codes "working_directory", path)
    pure true

  unfoldable pub quit : List Text → Action Bool
  quit tokens = do
    action ← token tokens 0
    write_note action (codes "bye bye")
    modify (λ s. record s { systems = [] })
    stop_process 0

  unfoldable pub enable_auto_discovery : List Text → Action Bool
  enable_auto_discovery tokens = do
    modify (λ s. record s { auto_discovery = true })
    action ← token tokens 0
    write_note action (codes "auto_discovery: enabled")
    pure true

  unfoldable pub disable_auto_discovery : List Text → Action Bool
  disable_auto_discovery tokens = do
    modify (λ s. record s { auto_discovery = false })
    action ← token tokens 0
    write_note action (codes "auto_discovery: disabled")
    pure true

  -- `_json_mode = b; monitor.setJsonMode(b);`
  unfoldable pub set_json_mode : Bool → Action (Unit {0})
  set_json_mode b = do
    modify (λ s. record s { json_mode = b })
    modify (λ s. record s { monitor_json_mode = b })

  unfoldable pub enable_json_mode : List Text → Action Bool
  enable_json_mode tokens = do
    set_json_mode true
    action ← token tokens 0
    write_note action (codes "json_mode: enabled")
    pure true

  unfoldable pub disable_json_mode : List Text → Action Bool
  disable_json_mode tokens = do
    set_json_mode false
    action ← token tokens 0
    write_note action (codes "json_mode: disabled")
    pure true
