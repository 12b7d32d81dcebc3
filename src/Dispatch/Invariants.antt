-- ===== src/Dispatch/Invariants.antt =====
-- What every command line keeps, whatever its words and whatever the libraries answer.
use fep3_base_utilities.Prelude.{
  ℕ, ◌<◌, true, List, [], ◌∷◌, ◌++◌, ◌≡◌, ◌≢◌, refl, Text, length, append_assoc, append-nil, sym,
  ◌∙◌, ap,
}
use fep3_base_utilities.Effect.{faulted}
use fep3_base_utilities.Env.{Env}
use fep3_base_utilities.SystemMap.{is_sorted}
use fep3_base_utilities.SystemMap.Laws.{is_sorted-assign, is_sorted-emplace, is_sorted-erase}
use fep3_base_utilities.Session.{State}
use fep3_base_utilities.Session.Moves.{IsSessionFlow, PrintsAll, Resets, UsesProperties}
use fep3_base_utilities.Commands.Properties.Moves.{NeverNull}
use fep3_base_utilities.Dispatch.{process_commandline}
use fep3_base_utilities.Dispatch.Moves.{Runs-process_commandline}

module _ ⦃env : Env⦄ where
  -- What holds before holds after, and what is printed or used stays.
  abbrev pub ModesAgree : State → Type 0
  ModesAgree s = s.monitor_json_mode ≡ s.json_mode

  abbrev pub IsOrdered : State → Type 0
  IsOrdered s = is_sorted s.systems ≡ true

  -- The first list stands at the front of the second.
  abbrev pub Extends : List Text → List Text → Type 0
  Extends xs ys = (added : List Text) × (ys ≡ xs ++ added)

  stays : (xs : List Text) → Extends xs xs
  stays xs = ([], sym (append-nil xs))

  Extends-join : (xs ys zs : List Text) → Extends xs ys → Extends ys zs → Extends xs zs
  Extends-join xs ys zs (a, p) (b, q) =
      (a ++ b, q ∙ (ap (λ (o : List Text). o ++ b) p ∙ append_assoc xs a b))

  pub record Keeps (s t : State) : Type 0 where
    pub modes : ModesAgree s → ModesAgree t
    pub ordered : IsOrdered s → IsOrdered t
    pub prints : Extends s.output t.output
    pub uses : Extends s.used_properties t.used_properties

  -- A change that touches neither the output nor the used properties.
  quietly :
      (s t : State)
      → (ModesAgree s → ModesAgree t)
      → (IsOrdered s → IsOrdered t)
      → t.output ≡ s.output
      → t.used_properties ≡ s.used_properties
      → Keeps s t
  quietly s t m o p u = record {
    modes = m;
    ordered = o;
    prints = ([], p ∙ sym (append-nil s.output));
    uses = ([], u ∙ sym (append-nil s.used_properties));
  }

  pub Keeps-resets : Resets Keeps
  Keeps-resets = record {
    modes = λ b s. quietly s _ (λ h. refl) (λ h. h) refl refl;
    forgets = record {
      erased = λ s name. quietly s _ (λ h. h) (is_sorted-erase name s.systems) refl refl;
      cleared = λ s. quietly s _ (λ h. h) (λ h. refl) refl refl;
    };
  }

  pub Keeps-uses : UsesProperties Keeps
  Keeps-uses participant s path h = record {
    modes = λ h. h;
    ordered = λ h. h;
    prints = stays s.output;
    uses = (path ∷ [], refl);
  }

  pub Keeps-prints : PrintsAll Keeps
  Keeps-prints s text = record {
    modes = λ h. h;
    ordered = λ h. h;
    prints = (text ∷ [], refl);
    uses = stays s.used_properties;
  }

  pub Keeps-moves : IsSessionFlow Keeps
  Keeps-moves = record {
    flow = record {
      same = λ s. quietly s s (λ h. h) (λ h. h) refl refl;
      join = λ {s} {t} {u} h k. record {
        modes = λ m. k.modes (h.modes m);
        ordered = λ o. k.ordered (h.ordered o);
        prints = Extends-join s.output t.output u.output h.prints k.prints;
        uses = Extends-join s.used_properties t.used_properties u.used_properties h.uses k.uses;
      };
    };
    acted = λ s w. quietly s _ (λ h. h) (λ h. h) refl refl;
    printed = λ s text doc. Keeps-prints s text;
    remembered = λ s name. quietly s _ (λ h. h) (λ h. h) refl refl;
    assigned =
        λ s name system. quietly s _ (λ h. h) (is_sorted-assign name system s.systems) refl refl;
    emplaced =
        λ s name system. quietly s _ (λ h. h) (is_sorted-emplace name system s.systems) refl refl;
    auto_set = λ s b. quietly s _ (λ h. h) (λ h. h) refl refl;
  }

  module _ (never : NeverNull) (rounds : ℕ) (command_line : List Text)
      (enough : 0 < length command_line) (s : State) where
    pub process_commandline-Keeps : Keeps s (process_commandline rounds command_line s).1
    process_commandline-Keeps =
        (Runs-process_commandline Keeps-moves rounds never Keeps-resets Keeps-uses command_line
            enough).along
          s

    -- A command line with at least one word never makes the tool read a token that is not there or
    -- follow a null pointer, if the configuration proxies hand out no null pointers.
    pub process_commandline-defined : (process_commandline rounds command_line s).0 ≢ faulted
    process_commandline-defined =
        (Runs-process_commandline Keeps-moves rounds never Keeps-resets Keeps-uses command_line
            enough).defined
          s
