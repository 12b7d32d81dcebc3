-- ===== src/Commands/Rpc/Moves.antt =====
-- The commands on RPC services keep to the changes of a session, and read only tokens that are there.
use fep3_base_utilities.Prelude.{
  ◌<◌, Bool, true, false, Option, none, some, List, [], ◌∷◌, ◌≡◌, Text, arith, length, ltb,
  if◌then◌else◌,
}
use fep3_base_utilities.Effect.{Answer, returned, thrown, pure, token}
use fep3_base_utilities.Effect.Runs.{Runs, Runs-token, Runs-pure}
use fep3_base_utilities.Env.{Env}
use fep3_base_utilities.Session.{State, Action}
use fep3_base_utilities.Session.Moves.{IsSessionFlow}
use fep3_base_utilities.Lookup.Moves.{lookup_rules}
use fep3_base_utilities.Commands.Rpc.{
  no_info, on_info, with_info, get_rpc_objects_participant, get_rpc_object_iids_participant,
  get_rpc_object_definition_participant, parsed, parse_json_string, build_rpc_request, rpc_answered,
  call_rpc,
}

module _ ⦃env : Env⦄ {R : State → State → Type 0} (moves : IsSessionFlow R) where
  open env use {ParticipantInfo, Json}

  Runs-no_info : (action system participant : Text) → Runs R (no_info action system participant)
  unfolding no_info
  Runs-no_info action system participant = let flow = moves.flow in search lookup_rules

  Runs-on_info :
      (missing : Action Bool) (use_info : ParticipantInfo → Action Bool)
      (info : Option ParticipantInfo)
      → Runs R missing
      → ((i : ParticipantInfo) → Runs R (use_info i))
      → Runs R (on_info missing use_info info)
  unfolding on_info
  Runs-on_info missing use_info none hm hu = hm
  Runs-on_info missing use_info (some info) hm hu = hu info

  Runs-with_info :
      (action system participant : Text) (use_info : ParticipantInfo → Action Bool)
      → ((i : ParticipantInfo) → Runs R (use_info i))
      → Runs R (with_info action system participant use_info)
  unfolding with_info
  Runs-with_info action system participant use_info h =
      let flow = moves.flow in search (lookup_rules, Runs-on_info, Runs-no_info) depth 9

  Runs-parsed : (r : Answer Json) → Runs R (parsed r)
  unfolding parsed
  Runs-parsed (returned json) = let flow = moves.flow in search lookup_rules
  Runs-parsed (thrown errors) = let flow = moves.flow in search lookup_rules

  pub Runs-parse_json_string : (text : Text) → Runs R (parse_json_string text)
  unfolding parse_json_string
  Runs-parse_json_string [] = let flow = moves.flow in search lookup_rules
  Runs-parse_json_string (c ∷ text) = Runs-parsed _

  pub Runs-build_rpc_request : (name arguments : Text) → Runs R (build_rpc_request name arguments)
  unfolding build_rpc_request
  Runs-build_rpc_request name arguments =
      let flow = moves.flow in search (lookup_rules, Runs-parse_json_string)

  Runs-rpc_answered : (action : Text) (answer : Bool × Text) → Runs R (rpc_answered action answer)
  unfolding rpc_answered
  Runs-rpc_answered action (true, response) =
      let flow = moves.flow in search (lookup_rules, Runs-parse_json_string)
  Runs-rpc_answered action (false, response) = let flow = moves.flow in search lookup_rules

  module _ (tokens : List Text) where
    -- The last argument is read only where it is there.
    pub Runs-optional_token : Runs R (if ltb 6 (length tokens) then token tokens 6 else pure [])
    Runs-optional_token = optional (ltb 6 (length tokens)) (λ h. ground arith)
      where
        optional :
            (b : Bool)
            → (b ≡ true → 6 < length tokens)
            → Runs R (if b then token tokens 6 else pure [])
        optional true h = Runs-token moves.flow tokens 6 (h (cc))
        optional false h = Runs-pure moves.flow []

    pub Runs-rpc_objects : 2 < length tokens → Runs R (get_rpc_objects_participant tokens)
    unfolding get_rpc_objects_participant
    Runs-rpc_objects enough =
        let flow = moves.flow in
        let first : 0 < length tokens = omega arith in
        let second : 1 < length tokens = omega arith in
        search (lookup_rules, Runs-with_info) depth 12

    pub Runs-rpc_iids : 3 < length tokens → Runs R (get_rpc_object_iids_participant tokens)
    unfolding get_rpc_object_iids_participant
    Runs-rpc_iids enough =
        let flow = moves.flow in
        let first : 0 < length tokens = omega arith in
        let second : 1 < length tokens = omega arith in
        let third : 2 < length tokens = omega arith in
        search (lookup_rules, Runs-with_info) depth 14

    pub Runs-rpc_definition :
        4 < length tokens → Runs R (get_rpc_object_definition_participant tokens)
    unfolding get_rpc_object_definition_participant
    Runs-rpc_definition enough =
        let flow = moves.flow in
        let first : 0 < length tokens = omega arith in
        let second : 1 < length tokens = omega arith in
        let third : 2 < length tokens = omega arith in
        let fourth : 3 < length tokens = omega arith in
        search (lookup_rules, Runs-with_info) depth 14

    pub Runs-call_rpc : 5 < length tokens → Runs R (call_rpc tokens)
    unfolding call_rpc
    Runs-call_rpc enough =
        let flow = moves.flow in
        let first : 0 < length tokens = omega arith in
        let second : 1 < length tokens = omega arith in
        let third : 2 < length tokens = omega arith in
        let fourth : 3 < length tokens = omega arith in
        let fifth : 4 < length tokens = omega arith in
        search (lookup_rules, Runs-optional_token, Runs-build_rpc_request, Runs-rpc_answered) depth
          18
