-- ===== src/Commands/Properties/Trees.antt =====
-- The traversal of the properties, on the tree of properties that the library shows.
use fep3_base_utilities.Prelude.{
  ℕ, zero, suc, ◌+◌, true, some, List, [], ◌∷◌, ◌≡◌, refl, Text, arith,
}
use fep3_base_utilities.Effect.{value, returned, pure, follow, ◌>>=◌}
use fep3_base_utilities.Env.{Env}
use fep3_base_utilities.PropertyPath.{next_node}
use fep3_base_utilities.Session.{State, Action, call}
use fep3_base_utilities.Commands.Properties.{
  Visitor, each, is_visited, visit_property, traverse_properties,
}

-- A property with its name, its value, its type and the properties below it.
mutual
  pub data PropertyTree : Type 0 where
    branch : Text → Text → Text → Forest → PropertyTree

  pub data Forest : Type 0 where
    bare : Forest
    grown : PropertyTree → Forest → Forest

abbrev pub name_of : PropertyTree → Text
name_of (branch name text type below) = name

abbrev names_of : Forest → List Text
names_of bare = []
names_of (grown tree more) = name_of tree ∷ names_of more

-- The tree is no higher than that.
unfoldable mutual
  pub IsWithin : ℕ → PropertyTree → Type 0
  IsWithin zero (branch name text type below) = ⊥
  IsWithin (suc height) (branch name text type below) = AreWithin height below

  pub AreWithin : ℕ → Forest → Type 0
  AreWithin height bare = Unit
  AreWithin height (grown tree more) = IsWithin height tree × AreWithin height more

-- What a visitor makes of a tree at a depth, in preorder.
unfoldable mutual
  pub folded : {T : Type 0} → Visitor T → ℕ → T → PropertyTree → T
  folded visitor depth object (branch name text type below) =
      visitor.leave depth object
        (folded_all visitor (depth + 1) (visitor.enter name text type depth object) below)

  pub folded_all : {T : Type 0} → Visitor T → ℕ → T → Forest → T
  folded_all visitor depth object bare = object
  folded_all visitor depth object (grown tree more) =
      folded_all visitor depth (folded visitor depth object tree) more

module _ ⦃env : Env⦄ where
  open env use {
    World, Configuration, Properties, properties_at, property_names, property, property_type, Json,
  }

  -- In that world, the library shows the tree at the node, and reading it changes nothing.
  unfoldable mutual
    pub Shows : Configuration → World → Text → PropertyTree → Type 0
    Shows conf w node (branch name text type below) =
        (props : Properties) × (lower : Properties) × (properties_at conf node w
          ≡ (returned (some props), w))
        × (property props name w ≡ (returned text, w))
        × (property_type props name w ≡ (returned type, w))
        × (properties_at conf (next_node node name) w ≡ (returned (some lower), w))
        × (property_names lower w ≡ (returned (names_of below), w))
        × ShowsAll conf w (next_node node name) below

    pub ShowsAll : Configuration → World → Text → Forest → Type 0
    ShowsAll conf w node bare = Unit
    ShowsAll conf w node (grown tree more) = Shows conf w node tree × ShowsAll conf w node more

  is_visited_below : (depth : ℕ) (node name : Text) → is_visited (depth + 1) node name ≡ true
  is_visited_below depth node name = ground arith

  module _ {T : Type 0} (visitor : Visitor T) (conf : Configuration) (s : State) where
    traverse_step :
        (rounds : ℕ) (node name text type : Text) (depth : ℕ) (object object' : T)
        (props lower : Properties) (names : List Text)
        → is_visited depth node name ≡ true
        → properties_at conf node s.world ≡ (returned (some props), s.world)
        → property props name s.world ≡ (returned text, s.world)
        → property_type props name s.world ≡ (returned type, s.world)
        → properties_at conf (next_node node name) s.world ≡ (returned (some lower), s.world)
        → property_names lower s.world ≡ (returned names, s.world)
        → each
            (λ name' o.
              traverse_properties rounds visitor conf (next_node node name) name' (depth + 1) o)
            names
            (visitor.enter name text type depth object)
            s
          ≡ (value object', s)
        → traverse_properties (suc rounds) visitor conf node name depth object s
          ≡ (value (visitor.leave depth object object'), s)
    unfolding traverse_properties visit_property call follow pure ◌>>=◌
    traverse_step rounds node name text type depth object object' props lower names visited at
          is_text is_type at_lower are_names visits =
        rw (visited, at, is_text, is_type, at_lower, are_names, visits) refl

    each_step :
        (visit : Text → T → Action T) (name : Text) (names : List Text)
        (object object' object'' : T)
        → visit name object s ≡ (value object', s)
        → each visit names object' s ≡ (value object'', s)
        → each visit (name ∷ names) object s ≡ (value object'', s)
    unfolding each ◌>>=◌
    each_step visit name names object object' object'' e e' = rw e e'

    mutual
      unfolding Shows IsWithin folded each pure

      pub traverse_shown :
          (tree : PropertyTree) (rounds : ℕ) (node : Text) (depth : ℕ) (object : T)
          → IsWithin rounds tree
          → Shows conf s.world node tree
          → is_visited depth node (name_of tree) ≡ true
          → traverse_properties rounds visitor conf node (name_of tree) depth object s
            ≡ (value (folded visitor depth object tree), s)
      traverse_shown (branch name text type below) zero node depth object h shown visited = absurd h
      traverse_shown (branch name text type below) (suc rounds) node depth object h
            (props, lower, at, is_text, is_type, at_lower, are_names, shown) visited =
          traverse_step rounds node name text type depth object _ props lower (names_of below)
            visited at is_text is_type at_lower are_names
            (each_shown below rounds (next_node node name) depth
              (visitor.enter name text type depth object) h shown)

      each_shown :
          (below : Forest) (rounds : ℕ) (node : Text) (depth : ℕ) (object : T)
          → AreWithin rounds below
          → ShowsAll conf s.world node below
          → each
              (λ name o. traverse_properties rounds visitor conf node name (depth + 1) o)
              (names_of below)
              object
              s
            ≡ (value (folded_all visitor (depth + 1) object below), s)
      each_shown bare rounds node depth object h shown = refl
      each_shown (grown tree more) rounds node depth object (h, hs) (shown, shown') =
          each_step _ (name_of tree) (names_of more) object _ _
            (traverse_shown tree rounds node (depth + 1) object h shown
              (is_visited_below depth node (name_of tree)))
            (each_shown more rounds node depth _ hs shown')
