-- ===== src/Dispatch/Documents.antt =====
-- What a command line writes in the JSON mode.
use fep3_base_utilities.Prelude.{
  All-append, ℕ, Bool, true, false, some, List, [], ◌∷◌, ◌++◌, ◌≡◌, ◌≢◌, refl, sym, ap, ◌∙◌, Text,
  codes, append_assoc, append-nil, All,
}
use mathlib.Core.Bool.{false≢true}
use fep3_base_utilities.Env.{Env}
use fep3_base_utilities.Effect.Runs.{Runs}
use fep3_base_utilities.Session.{State}
use fep3_base_utilities.Session.Moves.{Forgets, IsSessionFlow, IsDocument, SetsMode}
use fep3_base_utilities.CommandTable.{ActionFunction, ControlCommand, control_commands}
use fep3_base_utilities.Commands.Properties.Moves.{NeverNull}
use fep3_base_utilities.Dispatch.{find_command, process_commandline}
use fep3_base_utilities.Dispatch.Names.{owns, find_command-owns}
use fep3_base_utilities.Dispatch.Moves.{mode_of, Runs-process_named}

disables : ActionFunction → Bool
disables ActionFunction.disable_json_mode = true
disables _ = false

table_owns : owns disables (codes "disableJson") control_commands ≡ true
unfolding control_commands disables codes
table_owns = refl

mode_of-disables : (f : ActionFunction) → mode_of f ≡ some false → disables f ≡ true
unfolding mode_of disables
mode_of-disables ActionFunction.disable_json_mode h = refl
mode_of-disables _ h = cc

module _ ⦃env : Env⦄ where
  -- The second session is in the JSON mode, and has written documents only since the first.
  pub record Spoke (s t : State) : Type 0 where
    pub stays_json : t.json_mode ≡ true
    pub added : List Text
    pub appended : t.output ≡ s.output ++ added
    pub documents : All IsDocument added

  unfoldable pub Speaks : State → State → Type 0
  Speaks s t = s.json_mode ≡ true → Spoke s t

  quietly : (s t : State) → t.json_mode ≡ s.json_mode → t.output ≡ s.output → Speaks s t
  unfolding Speaks
  quietly s t m o h = record {
    stays_json = m ∙ h;
    added = [];
    appended = o ∙ sym (append-nil s.output);
    documents = tt;
  }

  pub Speaks-moves : IsSessionFlow Speaks
  unfolding Speaks
  Speaks-moves = record {
    flow = record {
      same = λ s. quietly s s refl refl;
      join = λ {s} {t} {u} p q h.
          let first = p h in
          let second = q first.stays_json in
          record {
            stays_json = second.stays_json;
            added = first.added ++ second.added;
            appended =
                second.appended
                ∙ (ap (λ o. o ++ second.added) first.appended
                    ∙ append_assoc s.output first.added second.added);
            documents =
                All-append IsDocument first.added second.added first.documents second.documents;
          };
    };
    acted = λ s w. quietly s _ refl refl;
    printed = λ s text doc h. record {
      stays_json = h;
      added = text ∷ [];
      appended = refl;
      documents = (doc h, tt);
    };
    remembered = λ s name. quietly s _ refl refl;
    assigned = λ s name system. quietly s _ refl refl;
    emplaced = λ s name system. quietly s _ refl refl;
    auto_set = λ s b. quietly s _ refl refl;
  }

  -- The JSON mode can be set, and it is left by no other command than disableJson.
  Speaks-sets : (b : Bool) → b ≡ true → SetsMode Speaks b
  unfolding Speaks
  Speaks-sets true e s h = record {
    stays_json = refl;
    added = [];
    appended = sym (append-nil s.output);
    documents = tt;
  }
  Speaks-sets false e s h = cc

  Speaks-forgets : Forgets Speaks
  unfolding Speaks
  Speaks-forgets = record {
    erased = λ s name. quietly s _ refl refl;
    cleared = λ s. quietly s _ refl refl;
  }

  sets_for :
      (name : Text) (cmd : ControlCommand) (b : Bool)
      → name ≢ codes "disableJson"
      → find_command name ≡ some cmd
      → mode_of cmd.action ≡ some b
      → SetsMode Speaks b
  sets_for name cmd true other found sets = Speaks-sets true refl
  sets_for name cmd false other found sets =
      let kept = find_command-owns disables (codes "disableJson") name cmd table_owns other found in
      elim (false≢true (sym kept ∙ mode_of-disables cmd.action sets)) [ ]

  pub Runs-process_commandline-Speaks :
      (never : NeverNull) (rounds : ℕ) (name : Text) (arguments : List Text)
      → name ≢ codes "disableJson"
      → Runs Speaks (process_commandline rounds (name ∷ arguments))
  unfolding Speaks
  Runs-process_commandline-Speaks never rounds name arguments other =
      Runs-process_named Speaks-moves rounds never name arguments
        (λ cmd found b. sets_for name cmd b other found)
        (λ participant at t path h. quietly t _ refl refl) (λ cmd found forgetting. Speaks-forgets)

  -- In the JSON mode every command line but those of disableJson stays in that mode, and each text that it
  -- writes is one JSON document with a line feed, whether the command succeeds or not and whatever the
  -- libraries answer or throw, if the configuration proxies hand out no null pointers.
  pub process_commandline-Spoke :
      (never : NeverNull) (rounds : ℕ) (name : Text) (arguments : List Text) (s : State)
      → name ≢ codes "disableJson"
      → s.json_mode ≡ true
      → Spoke s (process_commandline rounds (name ∷ arguments) s).1
  unfolding Speaks
  process_commandline-Spoke never rounds name arguments s other json =
      (Runs-process_commandline-Speaks never rounds name arguments other).along s json
