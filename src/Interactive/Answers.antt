-- ===== src/Interactive/Answers.antt =====
-- What a client is told of a message that fails.
use fep3_base_utilities.Prelude.{ℕ, List, [], ◌∷◌, ◌<◌, ◌≤◌, ◌≡◌, ◌≢◌, refl, Text, codes, arith}
use fep3_base_utilities.Numbers.{ℤ, pos}
use fep3_base_utilities.Effect.{
  Outcome, value, raised, exited, faulted, unfinished, pure, try_catch, recover, go_on, ◌>>=◌,
}
use fep3_base_utilities.Env.{Env}
use fep3_base_utilities.Session.{State}
use fep3_base_utilities.Output.{generic_error, write_error}
use fep3_base_utilities.Output.Reports.{
  written, Longer-moves, Longer-resets, Longer-uses, Reports-write_error,
}
use fep3_base_utilities.Output.Values.{write_error-value}
use fep3_base_utilities.Commands.Properties.Moves.{NeverNull}
use fep3_base_utilities.Dispatch.{process_commandline}
use fep3_base_utilities.Dispatch.Moves.{Runs-process_commandline}
use fep3_base_utilities.Dispatch.Reports.{process_commandline-written}
use fep3_base_utilities.Interactive.{execute_message}

-- A result other than 0, or an exception.
abbrev pub Fails : Outcome ℤ → Type 0
Fails (value n) = n ≢ pos 0
Fails (raised what) = Unit
Fails _ = ⊥

module _ ⦃env : Env⦄ where
  answered_lem :
      (word : Text) (r : Outcome ℤ) (s t : State)
      → ((n : ℤ) → r ≡ value n → n ≢ pos 0 → written s < written t)
      → written s ≤ written t
      → Fails r
      → written s
        < written
            (recover
              (go_on r (λ n. pure tt) t).0
              (λ what. write_error word what generic_error [])
              (go_on r (λ n. pure tt) t).1).1
  unfolding pure
  answered_lem word (value n) s t told longer fails = told n refl fails
  answered_lem word (raised what) s t told longer fails =
      let answer =
        (Reports-write_error word what generic_error []).told t tt
          (write_error-value word what generic_error [] t) refl in
      omega (arith, answer)
  answered_lem word (exited n) s t told longer fails = absurd fails
  answered_lem word faulted s t told longer fails = absurd fails
  answered_lem word unfinished s t told longer fails = absurd fails

  -- A message whose command has a result other than 0 or throws, unless its first word is "help", is
  -- answered with at least one text, if the configuration proxies hand out no null pointers.
  pub execute_message-written :
      (never : NeverNull) (rounds : ℕ) (name : Text) (arguments : List Text) (s : State)
      → name ≢ codes "help"
      → Fails (process_commandline rounds (name ∷ arguments) s).0
      → written s < written (execute_message rounds (name ∷ arguments) s).1
  unfolding execute_message try_catch ◌>>=◌
  execute_message-written never rounds name arguments s other fails =
      let (r, t) = process_commandline rounds (name ∷ arguments) s in
      answered_lem name r s t
        (λ n e. process_commandline-written rounds never name arguments s n other e)
        ((Runs-process_commandline Longer-moves rounds never Longer-resets Longer-uses
            (name ∷ arguments) (omega arith)).along
          s)
        fails
