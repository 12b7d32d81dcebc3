-- ===== src/Server/Prompt.antt =====
-- The loop of the command line, with the completions that linenoise asks for.
use fep3_base_utilities.Prelude.{
  ◌++◌, ℕ, List, [], ◌∷◌, ◌≡◌, ◌≢◌, refl, none, some, Option, false, Bool, Text, All, arith,
}
use fep3_base_utilities.Lexer.{c_str, parse_line, parse_words, get_next_word}
use fep3_base_utilities.Effect.{faulted, value, raised, exited, unfinished, Outcome, go_on, ◌>>=◌}
use fep3_base_utilities.Effect.Runs.{Runs, Runs-pure, Runs-bind, Runs-modify, runs_rules}
use fep3_base_utilities.Env.{Env}
use fep3_base_utilities.Session.{State, Action, new_session, write_output}
use fep3_base_utilities.Session.Moves.{
  IsSessionFlow, Resets, UsesProperties, PrintsAll, Runs-write_any,
}
use fep3_base_utilities.Commands.Properties.Moves.{NeverNull}
use fep3_base_utilities.Completion.{command_completion, complete_tokens}
use fep3_base_utilities.Completion.Quiet.{command_completion-IsQuiet}
use fep3_base_utilities.Dispatch.Moves.{Runs-process_commandline}
use fep3_base_utilities.Dispatch.Invariants.{
  ModesAgree, IsOrdered, Keeps-moves, Keeps-resets, Keeps-uses, Keeps-prints,
}
use fep3_base_utilities.Interactive.{
  Event, asks, returns, typed, interrupted, ended, read_line, complete_line, add_to_history,
  print_welcome_message, execute_tokens, on_line, read_commands, read_input_from_source,
}
use fep3_base_utilities.Interactive.Survival.{Runs-write_shutdown_message}
use fep3_base_utilities.Server.{interactive_loop_cli}

-- Completions are asked for only where the line has a byte, which is not zero.
abbrev pub AsksSomething : Event → Type 0
AsksSomething (asks []) = ⊥
AsksSomething (asks (c ∷ line)) = c ≢ 0
AsksSomething (returns input) = Unit

-- The input does not end there.
abbrev pub GoesOn : Event → Type 0
GoesOn (returns ended) = ⊥
GoesOn _ = Unit

module _ ⦃env : Env⦄ (never : NeverNull) (rounds : ℕ) {R : State → State → Type 0}
    (moves : IsSessionFlow R) (resets : Resets R) (uses : UsesProperties R) where
  Runs-command_completion : (c : ℕ) (line : Text) → c ≢ 0 → Runs R (command_completion (c ∷ line))
  Runs-command_completion c line h = record {
    along = λ s.
        rw (command_completion-IsQuiet c line s h).1
          (moves.acted s (command_completion (c ∷ line) s).1.world);
    defined = λ s. (command_completion-IsQuiet c line s h).0;
  }

  Runs-add_to_history : (line : Text) → Runs R (add_to_history line)
  unfolding add_to_history
  Runs-add_to_history line =
      Runs-modify moves.flow _ (λ s. moves.acted s (env.history_add (c_str line) s.world))

  Runs-execute_tokens :
      (line : Text) (words : List Text) → Runs R (execute_tokens rounds line words)
  unfolding execute_tokens
  Runs-execute_tokens line [] = Runs-pure moves.flow tt
  Runs-execute_tokens line (word ∷ words) =
      Runs-bind moves.flow _ _ (Runs-add_to_history line) (λ _.
        Runs-bind moves.flow _ _
          (Runs-process_commandline moves rounds never resets uses (word ∷ words) (omega arith))
          (λ n. Runs-pure moves.flow tt))

  Runs-on_line :
      (line : Option Text) (rest : Action (Unit {0}))
      → Runs R rest
      → Runs R (on_line rounds line rest)
  unfolding on_line
  Runs-on_line none rest h = Runs-pure moves.flow tt
  Runs-on_line (some line) rest h =
      Runs-bind moves.flow _ _ (Runs-execute_tokens line (parse_line line false)) (λ _. h)

  Runs-read_commands :
      (events : List Event) → All AsksSomething events → Runs R (read_commands rounds events)
  unfolding read_commands complete_line
  Runs-read_commands [] h = Runs-pure moves.flow tt
  Runs-read_commands (asks [] ∷ events) (h, hs) = absurd h
  Runs-read_commands (asks (c ∷ line) ∷ events) (h, hs) =
      Runs-bind moves.flow _ _
        (Runs-bind moves.flow _ _ (Runs-command_completion c line h)
          (λ list. Runs-pure moves.flow _))
        (λ _. Runs-read_commands events hs)
  Runs-read_commands (returns input ∷ events) (h, hs) =
      Runs-on_line (read_line input) _ (Runs-read_commands events hs)

  Runs-interactive_loop_cli :
      PrintsAll R
      → (events : List Event) → All AsksSomething events
      → Runs R (interactive_loop_cli rounds events)
  unfolding interactive_loop_cli read_input_from_source print_welcome_message
  Runs-interactive_loop_cli prints events h =
      Runs-bind moves.flow _ _
        (Runs-bind moves.flow _ _ (search (runs_rules, Runs-write_any))
          (λ _. Runs-read_commands events h))
        (λ _. Runs-write_shutdown_message moves.flow prints false)

module _ ⦃env : Env⦄ (rounds : ℕ) where
  module _ (never : NeverNull) (events : List Event) (json_mode : Bool) (world : env.World)
      (asked : All AsksSomething events) where
    abbrev finished : Outcome (Unit {0}) × State
    finished = interactive_loop_cli rounds events (new_session json_mode world)

    -- From the start of the command line to its last message, whatever is typed: nothing undefined
    -- happens, the log monitor is in the mode of the tool, and each known system stands once, in the
    -- order of the keys, if completions are asked for only where the line starts with a byte other than
    -- zero, and the configuration proxies hand out no null pointers.
    pub interactive_loop_cli-new_session :
        (finished.0 ≢ faulted) × ModesAgree finished.1 × IsOrdered finished.1
    interactive_loop_cli-new_session =
        let runs =
          Runs-interactive_loop_cli never rounds Keeps-moves Keeps-resets Keeps-uses Keeps-prints
            events asked in
        let start = new_session json_mode world in
        (runs.defined start, (runs.along start).modes refl, (runs.along start).ordered refl)

  after_first :
      {A : Type 0} (r : Outcome A) (rest rest' : Action (Unit {0})) (t : State)
      → ((u : State) → (rest u).0 ≡ value tt → (rest' u).0 ≡ faulted)
      → (go_on r (λ _. rest) t).0 ≡ value tt
      → (go_on r (λ _. rest') t).0 ≡ faulted
  after_first (value a) rest rest' t h e = h t e
  after_first (raised what) rest rest' t h e = cc
  after_first (exited n) rest rest' t h e = cc
  after_first faulted rest rest' t h e = cc
  after_first unfinished rest rest' t h e = cc

  module _ (events : List Event) where
    -- Whatever comes before: if it is done, then the completion on an empty line is reached.
    read_commands-faulted :
        (before : List Event) (s : State)
        → All GoesOn before
        → (read_commands rounds before s).0 ≡ value tt
        → (read_commands rounds (before ++ asks [] ∷ events) s).0 ≡ faulted
    unfolding read_commands on_line read_line complete_line command_completion complete_tokens
        parse_line parse_words get_next_word c_str ◌>>=◌
    read_commands-faulted [] s h e = refl
    read_commands-faulted (asks input ∷ before) s (h, hs) e =
        after_first (complete_line input s).0 _ _ (complete_line input s).1
          (λ u. read_commands-faulted before u hs) e
    read_commands-faulted (returns (typed line) ∷ before) s (h, hs) e =
        after_first (execute_tokens rounds line (parse_line line false) s).0 _ _
          (execute_tokens rounds line (parse_line line false) s).1
          (λ u. read_commands-faulted before u hs) e
    read_commands-faulted (returns interrupted ∷ before) s (h, hs) e =
        after_first (execute_tokens rounds [] (parse_line [] false) s).0 _ _
          (execute_tokens rounds [] (parse_line [] false) s).1
          (λ u. read_commands-faulted before u hs) e
    read_commands-faulted (returns ended ∷ before) s (h, hs) e = absurd h

    -- After any events that are done and do not end the input, a completion that is asked for on an empty
    -- line is undefined behaviour.
    pub interactive_loop_cli-faulted :
        (before : List Event) (s : State)
        → All GoesOn before
        → (read_input_from_source rounds before s).0 ≡ value tt
        → (interactive_loop_cli rounds (before ++ asks [] ∷ events) s).0 ≡ faulted
    unfolding interactive_loop_cli read_input_from_source print_welcome_message write_output ◌>>=◌
    interactive_loop_cli-faulted before s h e =
        rw (read_commands-faulted before (print_welcome_message s).1 h e) refl
