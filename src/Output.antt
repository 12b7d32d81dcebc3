-- ===== src/Output.antt =====
-- src/fep_control_tool/fep_control.cpp: JsonObject, the functions that write notes and errors, and
-- Monitor::onLog of src/fep_control_tool/monitor.cpp.
pub mod Moves
pub mod Values
pub mod Reports
use fep3_base_utilities.Prelude.{
  ℕ, Bool, true, false, List, [], ◌∷◌, ◌++◌, map, Text, codes, if◌then◌else◌,
}
use fep3_base_utilities.Effect.{Effect, pure, gets, ◌>>=◌, ◌>>◌}
use fep3_base_utilities.Env.{Env}
use fep3_base_utilities.Session.{Session, State, Action, write_output}

-- The underlying numbers of CmdStatus.
pub data CmdStatus : Type 0 where
  no_error generic_error input_error filesystem_error statechange_error : CmdStatus
  systemconfig_error systemtiming_error participant_error rpcobject_error : CmdStatus

unfoldable pub status_number : CmdStatus → ℕ
status_number no_error = 0
status_number generic_error = 1
status_number input_error = 2
status_number filesystem_error = 3
status_number statechange_error = 4
status_number systemconfig_error = 5
status_number systemtiming_error = 6
status_number participant_error = 7
status_number rpcobject_error = 8

abbrev pub Attribute : Type 0
Attribute = Text × Text

-- `"\n"`
abbrev pub newline : Text
newline = 10 ∷ []

module _ ⦃env : Env⦄ where
  open env use {
    Json, json_null, json_text, json_number, json_put, json_at, json_compact, json_append, join,
    severity_string,
  }

  -- The constructor of JsonObject.
  unfoldable pub json_object : Text → CmdStatus → Json
  unfolding status_number
  json_object action status =
      json_put
        (json_put (json_put json_null (codes "action") (json_text action)) (codes "status")
          (json_number (status_number status)))
        (codes "value") json_null

  -- `setValue` with a key and with none.
  unfoldable pub set_value : Text → Json → Json → Json
  set_value key x object =
      json_put object (codes "value") (json_put (json_at object (codes "value")) key x)

  unfoldable pub set_whole_value : Json → Json → Json
  set_whole_value x object = json_put object (codes "value") x

  abbrev pub write_json : Json → Action (Unit {0})
  write_json object = write_output (json_compact object ++ newline)

  -- `writeOutput(text, "\n")`
  abbrev pub write_output_line : Text → Action (Unit {0})
  write_output_line text = write_output (text ++ newline)

  -- writeNote with a note
  unfoldable pub write_note : Text → Text → Action (Unit {0})
  write_note action note = do
    json ← gets (λ s. s.json_mode)
    if json
        then write_json (set_value (codes "note") (json_text note) (json_object action no_error))
        else write_output (note ++ newline)

  -- writeNote with an attribute
  unfoldable pub write_attribute : Text → Attribute → Action (Unit {0})
  write_attribute action (name, value) = do
    json ← gets (λ s. s.json_mode)
    if json
        then write_json (set_value name (json_text value) (json_object action no_error))
        else write_output (name ++ codes " : " ++ value ++ newline)

  unfoldable pub set_values : List Attribute → Json → Json
  set_values [] object = object
  set_values ((name, value) ∷ attributes) object =
      set_values attributes (set_value name (json_text value) object)

  -- writeNotes with attributes
  unfoldable pub write_notes : Text → List Attribute → Action (Unit {0})
  write_notes action attributes = do
    json ← gets (λ s. s.json_mode)
    if json
        then write_json (set_values attributes (json_object action no_error))
        else write_output
            (join (map (λ attribute. attribute.1) attributes) (codes " : ") ++ newline)

  unfoldable pub put_all : List Attribute → Json → Json
  put_all [] tmp = tmp
  put_all ((name, value) ∷ attributes) tmp =
      put_all attributes (json_put tmp name (json_text value))

  unfoldable pub append_all : List (List Attribute) → Json → Json
  append_all [] val = val
  append_all (attributes ∷ more) val =
      append_all more (json_append val (put_all attributes json_null))

  unfoldable pub write_each : Text → List (List Attribute) → Action (Unit {0})
  write_each action [] = pure tt
  write_each action (attributes ∷ more) = do write_notes action attributes; write_each action more

  -- writeNotes with several lists of attributes
  unfoldable pub write_notes_vec : Text → List (List Attribute) → Action (Unit {0})
  write_notes_vec action attributes_vec = do
    json ← gets (λ s. s.json_mode)
    if json
        then write_json
            (set_whole_value (append_all attributes_vec json_null) (json_object action no_error))
        else write_each action attributes_vec

  abbrev pub is_empty : Text → Bool
  is_empty [] = true
  is_empty (c ∷ t) = false

  unfoldable pub write_error : Text → Text → CmdStatus → Text → Action (Unit {0})
  write_error action error status reason = do
    json ← gets (λ s. s.json_mode)
    let object = set_value (codes "error") (json_text error) (json_object action status)
    if json
        then write_json (
            if is_empty reason
            then object
            else set_value (codes "reason") (json_text reason) object)
        else do
          write_output error
          if is_empty reason then pure tt else write_output (codes ", error: " ++ reason)
          write_output newline

  unfoldable pub write_exception : Text → Text → CmdStatus → Text → Action (Unit {0})
  write_exception action exception status what = do
    json ← gets (λ s. s.json_mode)
    if json
        then write_json (
            set_value (codes "reason") (json_text what)
              (set_value (codes "exception") (json_text exception) (json_object action status)))
        else write_output (exception ++ codes ", exception: " ++ what ++ newline)

  -- Monitor::onLog, which goes by the monitor's own mode.
  unfoldable pub on_log : ℕ → Text → Text → Text → Action (Unit {0})
  on_log severity_level participant_name logger_name message = do
    json ← gets (λ s. s.monitor_json_mode)
    if json
        then write_json (
            json_put
              (json_put
                (json_put
                  (json_put (json_put json_null (codes "log_type") (json_text (codes "message")))
                    (codes "severity_level") (json_text (severity_string severity_level)))
                  (codes "participant_name") (json_text participant_name))
                (codes "logger_name") (json_text logger_name))
              (codes "message") (json_text message))
        else write_output (
            codes "    LOG ["
            ++ severity_string severity_level
            ++ codes "] "
            ++ logger_name
            ++ codes "@"
            ++ participant_name
            ++ codes " :"
            ++ message
            ++ newline
            ++ codes "fep> ")
