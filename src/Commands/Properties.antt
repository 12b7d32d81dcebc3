-- ===== src/Commands/Properties.antt =====
-- src/fep_control_tool/fep_control.cpp: traverseProperties, the two formats of a property, and the
-- commands on the properties of a participant. `rounds` bounds the depth of the recursion: a tree of
-- properties that goes on for ever is visited for ever by the code.
pub mod Moves
pub mod Reports
pub mod Depth
pub mod Trees
pub mod Formats
use fep3_base_utilities.Prelude.{
  ℕ, zero, suc, ◌+◌, ◌*◌, Bool, true, false, not, ◌&&◌, ◌||◌, Option, none, some, List, [], ◌∷◌,
  ◌++◌, Text, codes, ◌==◌, any, str_eq, if◌then◌else◌,
}
use fep3_base_utilities.Lexer.{c_str}
use fep3_base_utilities.Effect.{
  Effect, pure, gets, modify, try_catch, token, follow, give_up, ◌>>=◌, ◌>>◌,
}
use fep3_base_utilities.Env.{Env}
use fep3_base_utilities.Session.{Session, State, Action, call, write_output}
use fep3_base_utilities.Output.{
  no_error, participant_error, rpcobject_error, status_number, newline, write_output_line,
  write_note, write_error, write_exception,
}
use fep3_base_utilities.Lookup.{with_participant}
use fep3_base_utilities.PropertyPath.{get_node_and_leaf_name_from_property, next_node, is_empty}
use fep3_base_utilities.Commands.Participants.{at_system}

-- `std::string(n, ' ')`
abbrev pub blanks : ℕ → Text
blanks zero = []
blanks (suc n) = b' ' ∷ blanks n

-- The callback of traverseProperties. It returns the user object for the properties below, and that
-- object is a part of the parent's: `leave` puts it back when they are done.
pub record Visitor (T : Type 0) : Type 0 where
  pub enter : Text → Text → Text → ℕ → T → T
  pub leave : ℕ → T → T → T

module _ {S T : Type 0} where
  -- The loop over the sub-properties.
  unfoldable pub each : (Text → T → Effect S T) → List Text → T → Effect S T
  each visit [] object = pure object
  each visit (name ∷ names) object = do object' ← visit name object; each visit names object'

module _ ⦃env : Env⦄ where
  open env use {
    Json, Participant, Configuration, Properties, configuration_of, properties_at, property_names,
    property, property_type, assign_property, json_null, json_text, json_number, json_put, json_at,
    json_append, json_compact,
  }

  -- `depth != 0 || (!node.empty() && !prop_name.empty())`
  abbrev pub is_visited : ℕ → Text → Text → Bool
  is_visited depth node prop_name =
      not (depth == 0) || (not (is_empty node) && not (is_empty prop_name))

  unfoldable pub visit_property :
      {T : Type 0} → Visitor T → Configuration → Text → Text → ℕ → T → Action T
  visit_property visitor conf node prop_name depth user_object = do
    properties ← call (properties_at conf node)
    prop ← follow properties
    value ← call (property prop prop_name)
    type ← call (property_type prop prop_name)
    pure (visitor.enter prop_name value type depth user_object)

  unfoldable pub traverse_properties :
      {T : Type 0} → ℕ → Visitor T → Configuration → Text → Text → ℕ → T → Action T
  traverse_properties zero visitor conf node prop_name depth user_object = give_up
  traverse_properties (suc rounds) visitor conf node prop_name depth user_object = do
    let visited = is_visited depth node prop_name
    object ←
        if visited
        then visit_property visitor conf node prop_name depth user_object
        else pure user_object
    let below = next_node node prop_name
    properties ← call (properties_at conf below)
    props ← follow properties
    sub_props ← call (property_names props)
    object' ←
        each (λ sub_prop o. traverse_properties rounds visitor conf below sub_prop (depth + 1) o)
          sub_props object
    pure (if visited then visitor.leave depth user_object object' else object')

  abbrev pub property_json : Text → Text → Text → Json → Json
  property_json name value type object =
      json_put
        (json_put (json_put object (codes "name") (json_text name)) (codes "value")
          (json_text value))
        (codes "type") (json_text type)

  abbrev pub append_sub_property : Json → Json → Json
  append_sub_property parent child =
      json_put parent (codes "sub_properties")
        (json_append (json_at parent (codes "sub_properties")) child)

  abbrev pub json_visitor : Visitor Json
  json_visitor = record {
    enter = λ name value type depth parent.
        if depth == 0
        then property_json name value type parent
        else property_json name value type json_null;
    leave = λ depth parent child. if depth == 0 then child else append_sub_property parent child;
  }

  unfoldable pub format_property_json : ℕ → Configuration → Text → Text → Action Json
  format_property_json rounds conf node prop_name = do
    root ← traverse_properties rounds json_visitor conf node prop_name 0 json_null
    pure (
        if is_empty node && is_empty prop_name then json_at root (codes "sub_properties") else root)

  abbrev pub text_visitor : (Text → Text → Text) → Visitor Text
  text_visitor line = record {
    enter =
        λ name value type depth stream. stream ++ blanks (depth * 2) ++ line name value ++ newline;
    leave = λ depth parent child. child;
  }

  unfoldable pub format_property : ℕ → Configuration → Text → Text → Action Text
  format_property rounds conf node prop_name = do
    ss ←
        traverse_properties rounds (text_visitor (λ name value. name ++ codes " : " ++ value)) conf
          node prop_name 0 []
    pure (c_str ss)

  -- The document that the three reading commands write.
  unfoldable pub property_output : Text → Text → Text → Json → Json
  property_output action participant_name key content =
      let head =
        json_put (json_put json_null (codes "action") (json_text action)) (codes "status")
          (json_number (status_number no_error)) in
      let body =
        json_put (json_at head (codes "value")) (codes "participant")
          (json_text participant_name) in
      json_put head (codes "value") (json_put body key content)

  unfoldable pub on_configuration :
      Action Bool → (Configuration → Action Bool) → Option Configuration → Action Bool
  on_configuration missing use_conf none = missing
  on_configuration missing use_conf (some conf) = use_conf conf

  -- What the commands do around their use of the configuration proxy.
  unfoldable pub with_configuration :
      Text → Text → Text → Text → Action Bool → (Configuration → Action Bool) → Action Bool
  with_configuration action system participant exception missing use_conf =
      with_participant action system participant λ part.
        try_catch (do conf ← call (configuration_of part); on_configuration missing use_conf conf)
          (λ what. do write_exception action exception participant_error what; pure false)

  abbrev pub name_visitor : Visitor Json
  name_visitor = record {
    enter = λ name value type depth parent.
        json_put (json_put json_null (codes "name") (json_text name)) (codes "type")
          (json_text type);
    leave = λ depth parent child. append_sub_property parent child;
  }

  unfoldable pub get_participant_property_names : ℕ → List Text → Action Bool
  get_participant_property_names rounds tokens = do
    action ← token tokens 0
    system ← token tokens 1
    participant ← token tokens 2
    with_configuration action system participant
        (codes "cannot get property names for participant '"
          ++ at_system participant system
          ++ codes "'")
        (pure true)
        λ conf. do
          json ← gets (λ s. s.json_mode)
          if json
              then (do
                properties ← traverse_properties rounds name_visitor conf [] [] 0 json_null
                write_output_line (
                    json_compact (
                      property_output action participant (codes "participant_properties")
                        (json_at properties (codes "sub_properties")))))
              else (do
                ss ← traverse_properties rounds (text_visitor (λ name value. name)) conf [] [] 0 []
                write_output_line (codes "property names :" ++ newline ++ ss))
          pure true

  unfoldable pub get_participant_properties : ℕ → List Text → Action Bool
  get_participant_properties rounds tokens = do
    action ← token tokens 0
    system ← token tokens 1
    participant ← token tokens 2
    with_configuration action system participant
        (codes "cannot get properties for participant '"
          ++ at_system participant system
          ++ codes "'")
        (do
          write_error action
              (codes "participant '" ++ at_system participant system ++ codes "' has no RPC Info")
              rpcobject_error []
          pure false)
        λ conf. do
          json ← gets (λ s. s.json_mode)
          if json
              then (do
                properties ← format_property_json rounds conf [] []
                write_output_line (
                    json_compact (
                      property_output action participant (codes "participant_properties")
                        properties)))
              else (do
                text ← format_property rounds conf [] []
                write_output_line (participant ++ codes " : " ++ newline ++ text))
          pure true

  -- `if (std::find(_used_properties.begin(), _used_properties.end(), participant_name) != end)
  -- _used_properties.push_back(property_path);`
  unfoldable pub append_used_property : Text → Text → Action (Unit {0})
  append_used_property participant_name property_path = modify λ s.
      if any (λ used. str_eq used participant_name) s.used_properties
      then record s { used_properties = s.used_properties ++ property_path ∷ [] }
      else s

  unfoldable pub no_configuration : Text → Text → Text → Action Bool
  no_configuration action system participant = do
    write_error action
        (codes "participant '"
          ++ at_system participant system
          ++ codes "' has no RPC configuration")
        participant_error []
    pure false

  -- The property of a path with an empty node or an empty leaf name, but not both, is shown as a node.
  unfoldable pub as_node : Text → Text → Json → Json
  as_node node leaf_name shown =
      if (is_empty node || is_empty leaf_name) && not (is_empty node && is_empty leaf_name)
      then json_put
          (json_put
            (json_put shown (codes "name") (json_text (if is_empty node then leaf_name else node)))
            (codes "type") (json_text (codes "node")))
          (codes "value") (json_text [])
      else shown

  unfoldable pub get_participant_property : ℕ → List Text → Action Bool
  get_participant_property rounds tokens = do
    action ← token tokens 0
    system ← token tokens 1
    participant ← token tokens 2
    property_path ← token tokens 3
    with_configuration action system participant
        (codes "cannot get property "
          ++ property_path
          ++ codes " for participant '"
          ++ at_system participant system
          ++ codes "'")
        (no_configuration action system participant)
        λ conf. do
          let (node, leaf_name) = get_node_and_leaf_name_from_property property_path
          json ← gets (λ s. s.json_mode)
          if json
              then (do
                shown ← format_property_json rounds conf node leaf_name
                write_output_line (
                    json_compact (
                      property_output action participant (codes "participant_property")
                        (as_node node leaf_name shown))))
              else (do text ← format_property rounds conf node leaf_name; write_output_line text)
          append_used_property participant property_path
          pure true

  unfoldable pub set_property : Text → Text → Text → Text → Text → Option Properties → Action Bool
  set_property action system participant property_path value none = do
    let node = (get_node_and_leaf_name_from_property property_path).0
    write_error action
        (codes "participant '" ++ at_system participant system ++ codes "' has no property" ++ node)
        participant_error []
    pure false
  set_property action system participant property_path value (some prop) = do
    let leaf_name = (get_node_and_leaf_name_from_property property_path).1
    type ← call (property_type prop leaf_name)
    call (assign_property prop leaf_name value type)
    append_used_property participant property_path
    write_note action (codes "property set")
    pure true

  unfoldable pub set_participant_property : List Text → Action Bool
  set_participant_property tokens = do
    action ← token tokens 0
    system ← token tokens 1
    participant ← token tokens 2
    property_path ← token tokens 3
    property_value ← token tokens 4
    with_configuration action system participant
        (codes "cannot set property "
          ++ property_path
          ++ codes " for participant '"
          ++ at_system participant system
          ++ codes "'")
        (no_configuration action system participant)
        λ conf. do
          prop ← call (properties_at conf (get_node_and_leaf_name_from_property property_path).0)
          set_property action system participant property_path property_value prop
