-- ===== src/Commands/Properties/Moves.antt =====
-- The commands on properties keep to the changes of a session, and read only tokens that are there.
use fep3_base_utilities.Prelude.{
  get_elem?, ◌≡◌, ℕ, zero, suc, ◌+◌, ◌<◌, Bool, Option, none, some, List, [], ◌∷◌, Text, ◌≢◌, arith,
  length, any, str_eq, Bool-cases, inl, inr,
}
use fep3_base_utilities.Effect.{returned}
use fep3_base_utilities.Effect.Runs.{
  Runs-token, Runs-token-bind, Runs, Runs-bind, Runs-if, Runs-pure, Runs-give_up, Runs-modify,
}
use fep3_base_utilities.Env.{Env}
use fep3_base_utilities.Session.{State, Action}
use fep3_base_utilities.Session.Moves.{
  IsSessionFlow, UsesProperty, Plain-moves, Plain-uses, Runs-call, Runs-call-follow,
}
use fep3_base_utilities.Lookup.Moves.{lookup_rules}
use fep3_base_utilities.Commands.Properties.{
  Visitor, each, visit_property, traverse_properties, format_property_json, format_property,
  on_configuration, with_configuration, no_configuration, set_property, append_used_property,
  get_participant_property_names, get_participant_properties, get_participant_property,
  set_participant_property, is_visited,
}

module _ ⦃env : Env⦄ where
  open env use {World, Configuration, Properties, properties_at}

  -- A configuration proxy never hands out a null pointer.
  abbrev pub NeverNull : Type 0
  NeverNull =
      (conf : Configuration) (node : Text) (w : World)
      → (properties_at conf node w).0 ≢ returned none

module _ ⦃env : Env⦄ {R : State → State → Type 0} (moves : IsSessionFlow R) where
  open env use {World, Configuration, Properties, properties_at}

  Runs-each :
      {T : Type 0} (visit : Text → T → Action T)
      → ((name : Text) (object : T) → Runs R (visit name object))
      → (names : List Text) (object : T) → Runs R (each visit names object)
  unfolding each
  Runs-each visit h [] object = Runs-pure moves.flow object
  Runs-each visit h (name ∷ names) object =
      Runs-bind moves.flow _ _ (h name object) (λ object'. Runs-each visit h names object')

  module _ (never : NeverNull) where
    Runs-visit_property :
        {T : Type 0} (visitor : Visitor T) (conf : Configuration) (node prop_name : Text)
        (depth : ℕ) (object : T)
        → Runs R (visit_property visitor conf node prop_name depth object)
    unfolding visit_property
    Runs-visit_property visitor conf node prop_name depth object =
        Runs-call-follow moves _ _ (never conf node)
          (λ prop. let flow = moves.flow in search lookup_rules)

    pub Runs-traverse_properties :
        {T : Type 0} (rounds : ℕ) (visitor : Visitor T) (conf : Configuration)
        (node prop_name : Text) (depth : ℕ) (object : T)
        → Runs R (traverse_properties rounds visitor conf node prop_name depth object)
    unfolding traverse_properties
    Runs-traverse_properties zero visitor conf node prop_name depth object = Runs-give_up moves.flow
    Runs-traverse_properties (suc rounds) visitor conf node prop_name depth object =
        let flow = moves.flow in
        Runs-bind flow _ _
          (Runs-if flow (is_visited depth node prop_name) _ _
            (Runs-visit_property visitor conf node prop_name depth object) (Runs-pure flow object))
          λ child. Runs-call-follow moves _ _ (never conf _) λ props.
            Runs-bind flow _ _ (Runs-call moves _) λ names.
              Runs-bind flow _ _
                (Runs-each _
                  (λ name o. Runs-traverse_properties rounds visitor conf _ name (depth + 1) o)
                  names child)
                (λ last. Runs-pure flow _)

    pub Runs-format_property_json :
        (rounds : ℕ) (conf : Configuration) (node prop_name : Text)
        → Runs R (format_property_json rounds conf node prop_name)
    unfolding format_property_json
    Runs-format_property_json rounds conf node prop_name =
        let flow = moves.flow in search (lookup_rules, Runs-traverse_properties)

    pub Runs-format_property :
        (rounds : ℕ) (conf : Configuration) (node prop_name : Text)
        → Runs R (format_property rounds conf node prop_name)
    unfolding format_property
    Runs-format_property rounds conf node prop_name =
        let flow = moves.flow in search (lookup_rules, Runs-traverse_properties)

  Runs-on_configuration :
      (missing : Action Bool) (use_conf : Configuration → Action Bool) (conf : Option Configuration)
      → Runs R missing
      → ((c : Configuration) → Runs R (use_conf c))
      → Runs R (on_configuration missing use_conf conf)
  unfolding on_configuration
  Runs-on_configuration missing use_conf none hm hu = hm
  Runs-on_configuration missing use_conf (some conf) hm hu = hu conf

  Runs-with_configuration :
      (action system participant exception : Text) (missing : Action Bool)
      (use_conf : Configuration → Action Bool)
      → Runs R missing
      → ((c : Configuration) → Runs R (use_conf c))
      → Runs R (with_configuration action system participant exception missing use_conf)
  unfolding with_configuration
  Runs-with_configuration action system participant exception missing use_conf hm hu =
      let flow = moves.flow in search (lookup_rules, Runs-on_configuration) depth 9

  Runs-no_configuration :
      (action system participant : Text) → Runs R (no_configuration action system participant)
  unfolding no_configuration
  Runs-no_configuration action system participant = let flow = moves.flow in search lookup_rules

  pub Runs-append_used_property :
      (participant : Text)
      → UsesProperty R participant
      → (path : Text) → Runs R (append_used_property participant path)
  unfolding append_used_property
  Runs-append_used_property participant uses path = Runs-modify moves.flow _ λ s.
      elim (Bool-cases (any (λ used. str_eq used participant) s.used_properties)) [
        | inl h ↦ rw h (uses s path h)
        | inr h ↦ rw h (moves.flow.same s)
      ]

  Runs-set_property :
      (action system participant path value : Text) (prop : Option Properties)
      → UsesProperty R participant
      → Runs R (set_property action system participant path value prop)
  unfolding set_property
  Runs-set_property action system participant path value none uses =
      let flow = moves.flow in search lookup_rules
  Runs-set_property action system participant path value (some prop) uses =
      let flow = moves.flow in
      search (lookup_rules, Runs-append_used_property participant uses) depth 9

module _ ⦃env : Env⦄ {R : State → State → Type 0} (moves : IsSessionFlow R) where
  module _ (tokens : List Text) (enough : 2 < length tokens) where
    first : 0 < length tokens
    first = omega arith

    second : 1 < length tokens
    second = omega arith

    module _ (never : NeverNull) (rounds : ℕ) where
      pub Runs-property_names : Runs R (get_participant_property_names rounds tokens)
      unfolding get_participant_property_names
      Runs-property_names =
          let flow = moves.flow in
          search
            (
              lookup_rules,
              first,
              second,
              enough,
              Runs-with_configuration,
              Runs-traverse_properties moves never,
              Runs-traverse_properties (Plain-moves moves) never,
            )
            depth 14

      pub Runs-properties : Runs R (get_participant_properties rounds tokens)
      unfolding get_participant_properties
      Runs-properties =
          let flow = moves.flow in
          search
            (
              lookup_rules,
              first,
              second,
              enough,
              Runs-with_configuration,
              Runs-format_property (Plain-moves moves) never,
              Runs-format_property_json moves never,
            )
            depth 14

      pub Runs-property :
          3 < length tokens
          → ((participant : Text)
              → get_elem? tokens 2 ≡ some participant
              → UsesProperty R participant)
          → Runs R (get_participant_property rounds tokens)
      unfolding get_participant_property
      Runs-property more uses =
          let flow = moves.flow in
          Runs-bind flow _ _ (Runs-token flow tokens 0 first) λ action.
            Runs-bind flow _ _ (Runs-token flow tokens 1 second) λ system.
              Runs-token-bind flow _ tokens 2 enough λ participant at.
                search
                  (
                    lookup_rules,
                    Runs-with_configuration,
                    Runs-no_configuration,
                    Runs-format_property (Plain-moves moves) never,
                    Runs-format_property_json moves never,
                    Runs-append_used_property moves participant (uses participant at),
                    Runs-append_used_property (Plain-moves moves) participant
                        (Plain-uses R participant (uses participant at)),
                  )
                  depth 14

    pub Runs-set_participant_property :
        4 < length tokens
        → ((participant : Text)
            → get_elem? tokens 2 ≡ some participant
            → UsesProperty R participant)
        → Runs R (set_participant_property tokens)
    unfolding set_participant_property
    Runs-set_participant_property more uses =
        let flow = moves.flow in
        let fourth : 3 < length tokens = omega arith in
        Runs-bind flow _ _ (Runs-token flow tokens 0 first) λ action.
          Runs-bind flow _ _ (Runs-token flow tokens 1 second) λ system.
            Runs-token-bind flow _ tokens 2 enough λ participant at.
              let used = uses participant at in
              search
                (
                  lookup_rules, fourth, more, used, Runs-with_configuration, Runs-no_configuration,
                  Runs-set_property,
                )
                depth 14
