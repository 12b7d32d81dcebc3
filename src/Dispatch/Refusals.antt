-- ===== src/Dispatch/Refusals.antt =====
-- The command lines that are refused before a handler runs, and the help for an unknown command.
use fep3_base_utilities.Prelude.{
  ℕ, none, some, List, [], ◌∷◌, ◌≡◌, refl, Text, codes, length, Bool-cases, inl, inr, Option,
  if◌then◌else◌,
}
use fep3_base_utilities.Numbers.{ℤ, pos, negsuc}
use fep3_base_utilities.Effect.{value, gets, token, pure, ◌>>=◌, ◌>>◌}
use fep3_base_utilities.Env.{Env}
use fep3_base_utilities.Session.{State, write_output}
use fep3_base_utilities.CommandTable.{ControlCommand, control_commands}
use fep3_base_utilities.Output.{CmdStatus, input_error, write_error}
use fep3_base_utilities.Output.Values.{write_error-value}
use fep3_base_utilities.Dispatch.{
  find_command, wrong_count, help, help_on, run_action, process_found, process_commandline,
}

-- The result for a command line that is refused: -2 for an unknown command, -3 for a wrong number of
-- arguments.
abbrev pub refusal : List Text → Option ControlCommand → Option ℤ
refusal command_line none = some (negsuc 1)
refusal command_line (some cmd) =
    if wrong_count (length command_line) cmd then some (negsuc 2) else none

module _ ⦃env : Env⦄ where
  -- The second session differs from the first one in nothing but the output.
  abbrev pub JustWrites : State → State → Type 0
  JustWrites s t = t ≡ record s { output = t.output }

  write_error-JustWrites :
      (action text : Text) (status : CmdStatus) (reason : Text) (s : State)
      → JustWrites s (write_error action text status reason s).1
  unfolding write_error write_output pure gets ◌>>=◌
  write_error-JustWrites action text status [] s = elim (Bool-cases s.json_mode) [
    | inl e ↦ rw e refl
    | inr e ↦ rw e refl
  ]
  write_error-JustWrites action text status (c ∷ reason) s = elim (Bool-cases s.json_mode) [
    | inl e ↦ rw e refl
    | inr e ↦ rw e refl
  ]

  write_error_first :
      (action text : Text) (n m : ℤ) (s : State)
      → some n ≡ some m
      → ((write_error action text input_error [] >> pure n) s).0 ≡ value m
        × JustWrites s ((write_error action text input_error [] >> pure n) s).1
  unfolding pure ◌>>=◌
  write_error_first action text n m s h =
      rw (write_error-value action text input_error [] s)
        (cc, write_error-JustWrites action text input_error [] s)

  module _ (rounds : ℕ) (name : Text) where
    pub process_found-refused :
        (ts : List Text) (candidate : Option ControlCommand) (n : ℤ) (s : State)
        → refusal (name ∷ ts) candidate ≡ some n
        → ((process_found rounds (name ∷ ts) name candidate s).0 ≡ value n)
          × JustWrites s (process_found rounds (name ∷ ts) name candidate s).1
    unfolding process_found pure ◌>>=◌
    process_found-refused ts none n s h = write_error_first _ _ _ n s h
    process_found-refused ts (some cmd) n s h =
        elim (Bool-cases (wrong_count (length (name ∷ ts)) cmd)) [
          | inl e ↦ rw e (write_error_first _ _ _ n s (rw e at h))
          | inr e ↦ (let no : none ≡ some n = rw e at h in cc)
        ]

    -- A help for a command that does not exist fails and tells nothing.
    pub process_commandline-help_unknown :
        (s : State)
        → find_command name ≡ none
        → process_commandline rounds (codes "help" ∷ name ∷ []) s ≡ (value (pos 1), s)
    unfolding process_commandline process_found run_action help help_on find_command codes
        control_commands token pure ◌>>=◌
    process_commandline-help_unknown s h = rw h refl
