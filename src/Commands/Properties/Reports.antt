-- ===== src/Commands/Properties/Reports.antt =====
-- A command on properties that fails has told so.
use fep3_base_utilities.Prelude.{ℕ, not, Bool, Option, none, some, ◌<◌, List, Text, arith, length}
use fep3_base_utilities.Env.{Env}
use fep3_base_utilities.Session.{Action}
use fep3_base_utilities.Output.Reports.{Longer-moves, Reports}
use fep3_base_utilities.Lookup.Reports.{command_report_rules}
use fep3_base_utilities.Commands.Properties.{
  on_configuration, with_configuration, no_configuration, set_property,
  get_participant_property_names, get_participant_properties, get_participant_property,
  set_participant_property,
}
use fep3_base_utilities.Commands.Properties.Moves.{
  NeverNull, Runs-traverse_properties, Runs-format_property, Runs-format_property_json,
  Runs-append_used_property,
}
use fep3_base_utilities.Effect.Runs.{Runs}
use fep3_base_utilities.Output.Reports.{Longer, Longer-uses}
use fep3_base_utilities.Commands.Properties.{append_used_property}

module _ ⦃env : Env⦄ where
  open env use {Configuration, Properties}

  Reports-on_configuration :
      (missing : Action Bool) (use_conf : Configuration → Action Bool) (conf : Option Configuration)
      → Reports not missing
      → ((c : Configuration) → Reports not (use_conf c))
      → Reports not (on_configuration missing use_conf conf)
  unfolding on_configuration
  Reports-on_configuration missing use_conf none hm hu = hm
  Reports-on_configuration missing use_conf (some conf) hm hu = hu conf

  Reports-with_configuration :
      (action system participant exception : Text) (missing : Action Bool)
      (use_conf : Configuration → Action Bool)
      → Reports not missing
      → ((c : Configuration) → Reports not (use_conf c))
      → Reports not (with_configuration action system participant exception missing use_conf)
  unfolding with_configuration
  Reports-with_configuration action system participant exception missing use_conf hm hu =
      let moves = Longer-moves in
      let flow = moves.flow in search (command_report_rules, Reports-on_configuration) depth 9

  Reports-no_configuration :
      (action system participant : Text) → Reports not (no_configuration action system participant)
  unfolding no_configuration
  Reports-no_configuration action system participant =
      let moves = Longer-moves in let flow = moves.flow in search command_report_rules

  Runs-append_used_property-Longer :
      (participant path : Text) → Runs Longer (append_used_property participant path)
  Runs-append_used_property-Longer participant =
      Runs-append_used_property Longer-moves participant (Longer-uses participant)

  Reports-set_property :
      (action system participant path value : Text) (prop : Option Properties)
      → Reports not (set_property action system participant path value prop)
  unfolding set_property
  Reports-set_property action system participant path value none =
      let moves = Longer-moves in let flow = moves.flow in search command_report_rules
  Reports-set_property action system participant path value (some prop) =
      let moves = Longer-moves in
      let flow = moves.flow in
      search (command_report_rules, Runs-append_used_property-Longer) depth 9

  module _ (tokens : List Text) where
    pub Reports-property_names :
        (never : NeverNull) (rounds : ℕ)
        → 2 < length tokens
        → Reports not (get_participant_property_names rounds tokens)
    unfolding get_participant_property_names
    Reports-property_names never rounds enough =
        let moves = Longer-moves in
        let flow = moves.flow in
        let first : 0 < length tokens = omega arith in
        let second : 1 < length tokens = omega arith in
        search
          (
            command_report_rules,
            Reports-with_configuration,
            Runs-traverse_properties Longer-moves never,
          )
          depth 18

    pub Reports-properties :
        (never : NeverNull) (rounds : ℕ)
        → 2 < length tokens
        → Reports not (get_participant_properties rounds tokens)
    unfolding get_participant_properties
    Reports-properties never rounds enough =
        let moves = Longer-moves in
        let flow = moves.flow in
        let first : 0 < length tokens = omega arith in
        let second : 1 < length tokens = omega arith in
        search
          (
            command_report_rules,
            Reports-with_configuration,
            Runs-format_property Longer-moves never,
            Runs-format_property_json Longer-moves never,
          )
          depth 18

    pub Reports-property :
        (never : NeverNull) (rounds : ℕ)
        → 3 < length tokens
        → Reports not (get_participant_property rounds tokens)
    unfolding get_participant_property
    Reports-property never rounds enough =
        let moves = Longer-moves in
        let flow = moves.flow in
        let first : 0 < length tokens = omega arith in
        let second : 1 < length tokens = omega arith in
        let third : 2 < length tokens = omega arith in
        search
          (
            command_report_rules,
            Reports-with_configuration,
            Reports-no_configuration,
            Runs-format_property Longer-moves never,
            Runs-format_property_json Longer-moves never,
            Runs-append_used_property-Longer,
          )
          depth 18

    pub Reports-set_participant_property :
        4 < length tokens → Reports not (set_participant_property tokens)
    unfolding set_participant_property
    Reports-set_participant_property enough =
        let moves = Longer-moves in
        let flow = moves.flow in
        let first : 0 < length tokens = omega arith in
        let second : 1 < length tokens = omega arith in
        let third : 2 < length tokens = omega arith in
        let fourth : 3 < length tokens = omega arith in
        search
          (
            command_report_rules, Reports-with_configuration, Reports-no_configuration,
            Reports-set_property,
          )
          depth 18
