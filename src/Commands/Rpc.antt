-- ===== src/Commands/Rpc.antt =====
-- src/fep_control_tool/fep_control.cpp: the commands on the RPC services of a participant.
pub mod Moves
pub mod Reports
use fep3_base_utilities.Prelude.{
  Bool, true, false, Option, none, some, List, [], ◌∷◌, ◌++◌, Text, codes, length, ltb,
  if◌then◌else◌,
}
use fep3_base_utilities.Effect.{
  Effect, Answer, returned, thrown, pure, raise, try_catch, token, ◌>>=◌, ◌>>◌,
}
use fep3_base_utilities.Env.{Env}
use fep3_base_utilities.Session.{Session, State, Action, call}
use fep3_base_utilities.Output.{
  rpcobject_error, no_error, status_number, newline, write_output_line, write_attribute,
  write_error, write_exception,
}
use fep3_base_utilities.Lookup.{with_participant}
use fep3_base_utilities.Commands.Participants.{at_system}

module _ ⦃env : Env⦄ where
  open env use {
    Json, Participant, ParticipantInfo, info_of, rpc_components, rpc_component_iids,
    rpc_component_definition, passthrough_of, passthrough_call, build_request, join, json_null,
    json_text, json_number, json_put, json_read, json_stream,
  }

  unfoldable pub no_info : Text → Text → Text → Action Bool
  no_info action system participant = do
    write_error action
        (codes "participant '" ++ at_system participant system ++ codes "' has no RPC Info")
        rpcobject_error []
    pure false

  unfoldable pub on_info :
      Action Bool → (ParticipantInfo → Action Bool) → Option ParticipantInfo → Action Bool
  on_info missing use_info none = missing
  on_info missing use_info (some info) = use_info info

  -- What the three commands do around their use of the info proxy.
  unfoldable pub with_info : Text → Text → Text → (ParticipantInfo → Action Bool) → Action Bool
  with_info action system participant use_info = with_participant action system participant λ part.
      try_catch
        (do info ← call (info_of part); on_info (no_info action system participant) use_info info)
        (λ what. do
          write_exception action
              (codes "cannot get participant state for participant '"
                ++ at_system participant system
                ++ codes "'")
              rpcobject_error what
          pure false)

  unfoldable pub get_rpc_objects_participant : List Text → Action Bool
  get_rpc_objects_participant tokens = do
    action ← token tokens 0
    system ← token tokens 1
    participant ← token tokens 2
    with_info action system participant λ info. do
      names ← call (rpc_components info)
      write_attribute action (codes "names", join names (codes ", "))
      pure true

  unfoldable pub iids_failed : Text → Text → Text
  iids_failed system participant =
      codes "participant '"
      ++ at_system participant system
      ++ codes "' IID info can not be retrieved"

  unfoldable pub get_rpc_object_iids_participant : List Text → Action Bool
  get_rpc_object_iids_participant tokens = do
    action ← token tokens 0
    system ← token tokens 1
    participant ← token tokens 2
    object_name ← token tokens 3
    with_info action system participant λ info.
        try_catch
          (do
            iids ← call (rpc_component_iids info object_name)
            write_attribute action (codes "identifiers", join iids (codes ", "))
            pure true)
          (λ what. do
            write_error action (iids_failed system participant) rpcobject_error []
            pure false)

  unfoldable pub get_rpc_object_definition_participant : List Text → Action Bool
  get_rpc_object_definition_participant tokens = do
    action ← token tokens 0
    system ← token tokens 1
    participant ← token tokens 2
    object_name ← token tokens 3
    intf_name ← token tokens 4
    with_info action system participant λ info.
        try_catch
          (do
            definition ← call (rpc_component_definition info object_name intf_name)
            write_attribute action (codes "definition", definition)
            pure true)
          (λ what. do
            write_exception action (iids_failed system participant) rpcobject_error what
            pure false)

  unfoldable pub parsed : Answer Json → Action Json
  parsed (returned json) = pure json
  parsed (thrown errors) = raise (codes "JSON parameters can not be parsed: " ++ errors)

  -- An empty text leaves the value as it was made.
  unfoldable pub parse_json_string : Text → Action Json
  parse_json_string [] = pure json_null
  parse_json_string (c ∷ text) = parsed (json_read (c ∷ text))

  unfoldable pub build_rpc_request : Text → Text → Action Text
  build_rpc_request request_name request_arguments = do
    parameters ← parse_json_string request_arguments
    pure (build_request request_name parameters)

  unfoldable pub rpc_output : Text → Json → Json
  rpc_output action response =
      json_put
        (json_put (json_put json_null (codes "action") (json_text action)) (codes "status")
          (json_number (status_number no_error)))
        (codes "value") response

  -- The answer of the service, or the exception for a call that failed.
  unfoldable pub rpc_answered : Text → Bool × Text → Action Bool
  rpc_answered action (true, response) = do
    json_response ← parse_json_string response
    write_output_line (json_stream (rpc_output action json_response))
    pure true
  rpc_answered action (false, response) = raise (codes "RPC call failed")

  unfoldable pub call_rpc : List Text → Action Bool
  call_rpc tokens = do
    action ← token tokens 0
    system ← token tokens 1
    participant ← token tokens 2
    service_name ← token tokens 3
    service_iid ← token tokens 4
    function_name ← token tokens 5
    function_arguments ← if ltb 6 (length tokens) then token tokens 6 else pure []
    with_participant action system participant λ part.
        try_catch
          (do
            request ← build_rpc_request function_name function_arguments
            rpc_passthrough ← call (passthrough_of part service_name)
            answer ← call (passthrough_call rpc_passthrough request)
            rpc_answered action answer)
          (λ what. do
            write_exception action
                (codes "participant '"
                  ++ at_system participant system
                  ++ codes "' with RPC service '"
                  ++ service_name
                  ++ codes "' failed to execute function'"
                  ++ function_name
                  ++ codes "'")
                rpcobject_error what
            pure false)
