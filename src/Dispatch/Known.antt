-- ===== src/Dispatch/Known.antt =====
-- The systems that stay known.
use fep3_base_utilities.Prelude.{
  ℕ, Bool, true, false, not, ◌&&◌, ◌||◌, Option, none, some, List, [], ◌∷◌, ◌≡◌, refl, Text, codes,
  any, str_eq, str_eq_iff, arith, sym, ◌∙◌,
}
use mathlib.Core.Bool.{false≢true}
use fep3_base_utilities.Env.{Env}
use fep3_base_utilities.SystemMap.{SystemMap, find, assign, emplace}
use fep3_base_utilities.Session.{State}
use fep3_base_utilities.Session.Moves.{IsSessionFlow}
use fep3_base_utilities.CommandTable.{ControlCommand, control_commands}
use fep3_base_utilities.Commands.Properties.Moves.{NeverNull}
use fep3_base_utilities.Dispatch.{find_in, find_command, process_commandline}
use fep3_base_utilities.Dispatch.Moves.{may_forget, Runs-process_named}

abbrev pub is_known : {V : Type 0} → Option V → Bool
is_known none = false
is_known (some v) = true

module _ {V : Type 0} (k j : Text) (v : V) where
  known-assign :
      (m : SystemMap V) → is_known (find j m) ≡ true → is_known (find j (assign k v m)) ≡ true
  unfolding find assign
  known-assign [] h = cc
  known-assign ((i, w) ∷ m) h =
      ground (arith, str_eq_iff k j, str_eq_iff i k, str_eq_iff i j, known-assign m)

  known-emplace :
      (m : SystemMap V) → is_known (find j m) ≡ true → is_known (find j (emplace k v m)) ≡ true
  unfolding find emplace
  known-emplace [] h = cc
  known-emplace ((i, w) ∷ m) h =
      ground (arith, str_eq_iff k j, str_eq_iff i k, str_eq_iff i j, known-emplace m)

-- The names of the commands that may forget systems.
abbrev pub forgetting : List Text
forgetting = codes "exit" ∷ codes "quit" ∷ codes "shutdownSystem" ∷ codes "setSystemState" ∷ []

abbrev named_so : List ControlCommand → Bool
named_so [] = true
named_so (cmd ∷ cmds) =
    (not (may_forget cmd.action) || any (λ known. str_eq known cmd.name) forgetting)
    && named_so cmds

table_named_so : named_so control_commands ≡ true
unfolding control_commands may_forget codes
table_named_so = refl

find_in-named_so :
    (name : Text) (cmds : List ControlCommand) (cmd : ControlCommand)
    → named_so cmds ≡ true
    → find_in name cmds ≡ some cmd
    → may_forget cmd.action ≡ true
    → any (λ known. str_eq known name) forgetting ≡ true
find_in-named_so name [] cmd h e f = cc
find_in-named_so name (c ∷ cmds) cmd h e f =
    ground (arith, find_in-named_so name cmds cmd, str_eq_iff c.name name)

module _ ⦃env : Env⦄ where
  -- What is known in the first session is known in the second.
  abbrev pub StayKnown : State → State → Type 0
  StayKnown s t =
      (key : Text) → is_known (find key s.systems) ≡ true → is_known (find key t.systems) ≡ true

  Stay : State → State → Type 0
  Stay = StayKnown

  Stay-moves : IsSessionFlow Stay
  unfolding Stay
  Stay-moves = record {
    flow = record { same = λ s key h. h; join = λ p q key h. q key (p key h) };
    acted = λ s w key h. h;
    printed = λ s text doc key h. h;
    remembered = λ s name key h. h;
    assigned = λ s name system key h. known-assign name key system s.systems h;
    emplaced = λ s name system key h. known-emplace name key system s.systems h;
    auto_set = λ s b key h. h;
  }

  -- Every system that is known before a command line is known after it, under the same key, unless the
  -- command is exit, quit, shutdownSystem or setSystemState: whether the command succeeds, fails or
  -- throws, and whatever the libraries answer, if the configuration proxies hand out no null pointers.
  pub process_commandline-StayKnown :
      (never : NeverNull) (rounds : ℕ) (name : Text) (arguments : List Text) (s : State)
      → any (λ known. str_eq known name) forgetting ≡ false
      → StayKnown s (process_commandline rounds (name ∷ arguments) s).1
  unfolding Stay find_command
  process_commandline-StayKnown never rounds name arguments s other =
      (Runs-process_named Stay-moves rounds never name arguments (λ cmd found b _ t key h. h)
          (λ participant at t path used key h. h)
          (λ cmd found forgets.
            elim (false≢true (
              sym other
              ∙ find_in-named_so name control_commands cmd table_named_so found
                  forgets)) [ ])).along
        s
