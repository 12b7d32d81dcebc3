-- ===== src/Commands/Properties/Formats.antt =====
-- The two formats of a property, as functions of a tree of properties.
use fep3_base_utilities.Prelude.{
  ℕ, ◌+◌, ◌*◌, true, false, [], ◌++◌, ◌≡◌, refl, sym, ap, ◌∙◌, Text, codes, arith, append_assoc,
  append-nil, ◌==◌,
}
use fep3_base_utilities.Lexer.{c_str}
use fep3_base_utilities.Effect.{value, pure, ◌>>=◌}
use fep3_base_utilities.Env.{Env}
use fep3_base_utilities.PropertyPath.{is_empty}
use fep3_base_utilities.Session.{State}
use fep3_base_utilities.Output.{newline}
use fep3_base_utilities.Commands.Properties.{
  is_visited, json_visitor, text_visitor, blanks, property_json, append_sub_property,
  format_property, format_property_json,
}
use fep3_base_utilities.Commands.Properties.Trees.{
  PropertyTree, branch, Forest, bare, grown, name_of, IsWithin, folded, folded_all, Shows,
  traverse_shown,
}

module _ ⦃env : Env⦄ where
  open env use {Configuration, Json}

  -- The lines of a tree: one for each property, with two blanks for each level above it.
  mutual
    pub lines_of : ℕ → PropertyTree → Text
    lines_of depth (branch name text type below) =
        (blanks (depth * 2) ++ (name ++ codes " : " ++ text) ++ newline)
        ++ lines_of_all (depth + 1) below

    pub lines_of_all : ℕ → Forest → Text
    lines_of_all depth bare = []
    lines_of_all depth (grown tree more) = lines_of depth tree ++ lines_of_all depth more

  -- The JSON value of a tree: that of its property, with those of the trees below appended in their order.
  mutual
    pub json_of : PropertyTree → Json
    json_of (branch name text type below) =
        with_all (property_json name text type env.json_null) below

    pub with_all : Json → Forest → Json
    with_all parent bare = parent
    with_all parent (grown tree more) = with_all (append_sub_property parent (json_of tree)) more

  abbrev line : Text → Text → Text
  line name text = name ++ codes " : " ++ text

  mutual
    unfolding folded lines_of

    folded-lines_of :
        (tree : PropertyTree) (depth : ℕ) (stream : Text)
        → folded (text_visitor line) depth stream tree ≡ stream ++ lines_of depth tree
    folded-lines_of (branch name text type below) depth stream =
        folded_all-lines_of_all below (depth + 1) _ ∙ simp append_assoc

    folded_all-lines_of_all :
        (below : Forest) (depth : ℕ) (stream : Text)
        → folded_all (text_visitor line) depth stream below ≡ stream ++ lines_of_all depth below
    folded_all-lines_of_all bare depth stream = sym (append-nil stream)
    folded_all-lines_of_all (grown tree more) depth stream =
        rw (folded-lines_of tree depth stream) (
          folded_all-lines_of_all more depth (stream ++ lines_of depth tree)
          ∙ append_assoc stream (lines_of depth tree) (lines_of_all depth more))

  below_zero : (depth : ℕ) → ((depth + 1) == 0) ≡ false
  below_zero depth = ground arith

  mutual
    unfolding folded json_of

    folded-json_of :
        (tree : PropertyTree) (depth : ℕ) (parent : Json)
        → folded json_visitor (depth + 1) parent tree ≡ append_sub_property parent (json_of tree)
    folded-json_of (branch name text type below) depth parent = rw (below_zero depth) (
        ap (λ child. append_sub_property parent child)
          (folded_all-with_all below (depth + 1) (property_json name text type env.json_null)))

    folded_all-with_all :
        (below : Forest) (depth : ℕ) (parent : Json)
        → folded_all json_visitor (depth + 1) parent below ≡ with_all parent below
    folded_all-with_all bare depth parent = refl
    folded_all-with_all (grown tree more) depth parent =
        rw (folded-json_of tree depth parent)
          (folded_all-with_all more depth (append_sub_property parent (json_of tree)))

  folded-root : (tree : PropertyTree) → folded json_visitor 0 env.json_null tree ≡ json_of tree
  unfolding folded json_of
  folded-root (branch name text type below) =
      folded_all-with_all below 0 (property_json name text type env.json_null)

  module _ (tree : PropertyTree) (rounds : ℕ) (conf : Configuration) (node : Text) (s : State) where
    -- Where the library shows a tree of properties at a node, reading changes nothing there, the tree is no
    -- higher than the rounds, and neither the node nor the name of its property is empty: the text of the
    -- property is that of the lines of the tree, up to a zero byte, each behind two blanks for each level above
    -- it; the JSON value nests the trees in the same order; and both leave the session as it is.
    pub format_property-lines_of :
        IsWithin rounds tree
        → Shows conf s.world node tree
        → is_empty node ≡ false
        → is_empty (name_of tree) ≡ false
        → (format_property rounds conf node (name_of tree) s ≡ (value (c_str (lines_of 0 tree)), s))
          × (format_property_json rounds conf node (name_of tree) s ≡ (value (json_of tree), s))
    unfolding format_property format_property_json pure ◌>>=◌
    format_property-lines_of within shown node_there name_there =
        let visited : is_visited 0 node (name_of tree) ≡ true = ground arith in
        (
          rw
              (
                traverse_shown (text_visitor line) conf s tree rounds node 0 [] within shown
                    visited,
                folded-lines_of tree 0 [],
              )
              refl,
          rw
              (
                traverse_shown json_visitor conf s tree rounds node 0 env.json_null within shown
                    visited,
                node_there,
                folded-root tree,
              )
              refl,
        )
