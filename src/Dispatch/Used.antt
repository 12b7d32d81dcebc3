-- ===== src/Dispatch/Used.antt =====
-- What the commands remember as used properties.
use fep3_base_utilities.Prelude.{
  ℕ, false, some, List, ◌∷◌, ◌≡◌, refl, sym, ◌∙◌, Text, any, str_eq, get_elem?,
}
use mathlib.Core.Bool.{false≢true}
use fep3_base_utilities.Env.{Env}
use fep3_base_utilities.Session.{State}
use fep3_base_utilities.Session.Moves.{IsSessionFlow}
use fep3_base_utilities.Commands.Properties.Moves.{NeverNull}
use fep3_base_utilities.Dispatch.{process_commandline}
use fep3_base_utilities.Dispatch.Moves.{Runs-process_named}

-- The third word of a command line, if there is one, is none of the texts.
abbrev pub IsApart : List Text → List Text → Type 0
IsApart command_line used_properties =
    (participant : Text)
    → get_elem? command_line 2 ≡ some participant
    → any (λ used. str_eq used participant) used_properties ≡ false

module _ ⦃env : Env⦄ where
  module _ (command_line : List Text) where
    Leaves : State → State → Type 0
    Leaves s t = IsApart command_line s.used_properties → t.used_properties ≡ s.used_properties

    Leaves-moves : IsSessionFlow Leaves
    unfolding Leaves
    Leaves-moves = record {
      flow = record {
        same = λ s h. refl;
        join = λ p q h. let first = p h in q (rw first h) ∙ first;
      };
      acted = λ s w h. refl;
      printed = λ s text doc h. refl;
      remembered = λ s name h. refl;
      assigned = λ s name system h. refl;
      emplaced = λ s name system h. refl;
      auto_set = λ s b h. refl;
    }

  -- A command line leaves the used properties as they are, unless its third word, which is the name of the
  -- participant for the commands on properties, is one of them itself, if the configuration proxies hand
  -- out no null pointers.
  pub process_commandline-IsApart :
      (never : NeverNull) (rounds : ℕ) (name : Text) (arguments : List Text) (s : State)
      → IsApart (name ∷ arguments) s.used_properties
      → (process_commandline rounds (name ∷ arguments) s).1.used_properties ≡ s.used_properties
  unfolding Leaves
  process_commandline-IsApart never rounds name arguments s apart =
      (Runs-process_named (Leaves-moves (name ∷ arguments)) rounds never name arguments
          (λ cmd found b _ t h. refl)
          (λ participant at t path h unused.
            elim (false≢true (sym (unused participant at) ∙ h)) [ ])
          (λ cmd found forgetting. record { erased = λ t k h. refl; cleared = λ t h. refl })).along
        s apart
