-- ===== src/Commands/Properties/Depth.antt =====
-- The rounds that the traversal of the properties needs.
use fep3_base_utilities.Prelude.{
  ℕ, zero, suc, ◌+◌, ◌<◌, Bool, true, false, Option, none, some, List, [], ◌∷◌, ◌≡◌, ◌≢◌, refl, ap,
  ◌∙◌, Text, All, arith, if◌then◌else◌,
}
use fep3_base_utilities.Effect.{
  Effect, Outcome, value, raised, exited, faulted, unfinished, Answer, returned, thrown, pure,
  follow, go_on, ◌>>=◌,
}
use fep3_base_utilities.Env.{Env, Call}
use fep3_base_utilities.PropertyPath.{next_node}
use fep3_base_utilities.Session.{State, Action, answered, call}
use fep3_base_utilities.Commands.Properties.{
  Visitor, each, is_visited, visit_property, traverse_properties,
}

module _ {S : Type 0} where
  go_on-finishes :
      {A B : Type 0} (r : Outcome A) (t : S) (k : A → Effect S B)
      → r ≢ unfinished
      → ((a : A) → (k a t).0 ≢ unfinished)
      → (go_on r k t).0 ≢ unfinished
  go_on-finishes (value a) t k h hk = hk a
  go_on-finishes (raised what) t k h hk = λ e. cc
  go_on-finishes (exited n) t k h hk = λ e. cc
  go_on-finishes faulted t k h hk = λ e. cc
  go_on-finishes unfinished t k h hk = absurd (h refl)

  each-finishes :
      {T : Type 0} (visit : Text → T → Effect S T) (names : List Text)
      → All (λ name. (object : T) (s : S) → (visit name object s).0 ≢ unfinished) names
      → (object : T) (s : S) → (each visit names object s).0 ≢ unfinished
  unfolding each pure ◌>>=◌
  each-finishes visit [] h object s = λ e. cc
  each-finishes visit (name ∷ names) (h, hs) object s =
      let (r, t) = visit name object s in
      go_on-finishes r t _ (h object s) (λ object'. each-finishes visit names hs object' t)

module _ ⦃env : Env⦄ where
  open env use {World, Configuration, Properties, properties_at, property_names}

  go_on-answered :
      {A B : Type 0} (r : Answer A) (t : State) (k : A → Action B)
      → ((a : A) → r ≡ returned a → (k a t).0 ≢ unfinished)
      → (let (o, u) = answered r t in go_on o k u).0 ≢ unfinished
  go_on-answered (returned a) t k h = h a refl
  go_on-answered (thrown what) t k h = λ e. cc

  call-finishes :
      {A B : Type 0} (c : Call World A) (k : A → Action B) (s : State)
      → ((a : A)
          → (c s.world).0 ≡ returned a
          → (k a (record s { world = (c s.world).1 })).0 ≢ unfinished)
      → ((call c >>= k) s).0 ≢ unfinished
  unfolding call ◌>>=◌
  call-finishes c k s h = go_on-answered (c s.world).0 (record s { world = (c s.world).1 }) k h

  follow-finishes :
      {A B : Type 0} (o : Option A) (k : A → Action B) (s : State)
      → ((a : A) → o ≡ some a → (k a s).0 ≢ unfinished)
      → ((follow o >>= k) s).0 ≢ unfinished
  unfolding follow ◌>>=◌
  follow-finishes none k s h = λ e. cc
  follow-finishes (some a) k s h = h a refl

  bind-finishes :
      {A B : Type 0} (m : Action A) (k : A → Action B) (s : State)
      → (m s).0 ≢ unfinished
      → ((a : A) → (k a (m s).1).0 ≢ unfinished)
      → ((m >>= k) s).0 ≢ unfinished
  unfolding ◌>>=◌
  bind-finishes m k s h hk = go_on-finishes (m s).0 (m s).1 k h hk

  pure-finishes : {A : Type 0} (a : A) (s : State) → (pure a s).0 ≢ unfinished
  unfolding pure
  pure-finishes a s = λ e. cc

  -- The rank of a node falls from every node to the nodes below it.
  abbrev pub IsRanked : (Text → ℕ) → Type 0
  IsRanked rank =
      (conf : Configuration) (node : Text) (w : World) (props : Properties) (names : List Text)
      → (properties_at conf node w).0 ≡ returned (some props)
      → (property_names props (properties_at conf node w).1).0 ≡ returned names
      → All (λ name. rank (next_node node name) < rank node) names

  visit_property-finishes :
      {T : Type 0} (visitor : Visitor T) (conf : Configuration) (node prop_name : Text) (depth : ℕ)
      (object : T) (s : State)
      → (visit_property visitor conf node prop_name depth object s).0 ≢ unfinished
  unfolding visit_property
  visit_property-finishes visitor conf node prop_name depth object s =
      call-finishes _ _ _ (λ properties _. follow-finishes _ _ _ (λ prop _.
        call-finishes _ _ _ (λ value _. call-finishes _ _ _ (λ type _. pure-finishes _ _))))

  entered-finishes :
      {T : Type 0} (visited : Bool) (visit : Action T) (object : T) (s : State)
      → (visit s).0 ≢ unfinished
      → ((if visited then visit else pure object) s).0 ≢ unfinished
  unfolding pure
  entered-finishes true visit object s h = h
  entered-finishes false visit object s h = λ e. cc

  All-map :
      {P Q : Text → Type 0} (names : List Text)
      → ((name : Text) → P name → Q name)
      → All P names
      → All Q names
  All-map [] f h = tt
  All-map (name ∷ names) f (h, hs) = (f name h, All-map names f hs)

  -- If the rank of the nodes falls from each node to those below it, then the traversal from a property
  -- is over within any number of rounds above the rank of the node of that property.
  pub traverse_properties-finishes :
      {T : Type 0} (rank : Text → ℕ)
      → IsRanked rank
      → (rounds : ℕ) (visitor : Visitor T) (conf : Configuration) (node prop_name : Text)
        (depth : ℕ) (object : T) (s : State)
      → rank (next_node node prop_name) < rounds
      → (traverse_properties rounds visitor conf node prop_name depth object s).0 ≢ unfinished
  unfolding traverse_properties
  traverse_properties-finishes rank ranked zero visitor conf node prop_name depth object s h =
      absurd (omega arith)
  traverse_properties-finishes rank ranked (suc rounds) visitor conf node prop_name depth object s
        h =
      let below = next_node node prop_name in
      bind-finishes _ _ _
        (entered-finishes (is_visited depth node prop_name) _ object s
          (visit_property-finishes visitor conf node prop_name depth object s))
        (λ object'. call-finishes _ _ _ (λ properties e. follow-finishes _ _ _ (λ props e'.
          call-finishes _ _ _ (λ names e''.
            bind-finishes _ _ _
              (each-finishes _ names
                (All-map names
                  (λ name lower object'' t.
                    traverse_properties-finishes rank ranked rounds visitor conf below name
                      (depth + 1) object'' t (omega arith))
                  (ranked conf below _ props names (e ∙ ap returned e') e''))
                object' _)
              (λ object''. pure-finishes _ _)))))
