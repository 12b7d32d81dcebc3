-- ===== src/Interactive/Documents.antt =====
-- The JSON mode over the messages of a connection.
use fep3_base_utilities.Prelude.{ℕ, true, List, [], ◌∷◌, ◌≡◌, ◌≢◌, false, Text, codes, All}
use fep3_base_utilities.Lexer.{parse_line}
use fep3_base_utilities.Effect.Runs.{Runs, Runs-pure, Runs-bind, Runs-try_catch}
use fep3_base_utilities.Env.{Env}
use fep3_base_utilities.Session.{State}
use fep3_base_utilities.Output.Moves.{Runs-write_error}
use fep3_base_utilities.Commands.Properties.Moves.{NeverNull}
use fep3_base_utilities.Dispatch.Documents.{
  Spoke, Speaks, Speaks-moves, Runs-process_commandline-Speaks,
}
use fep3_base_utilities.Interactive.{execute_message, read_messages}

-- The command is not the one that leaves the JSON mode.
abbrev pub StaysJson : List Text → Type 0
StaysJson [] = Unit
StaysJson (name ∷ arguments) = name ≢ codes "disableJson"

module _ ⦃env : Env⦄ (never : NeverNull) (rounds : ℕ) where
  pub Runs-execute_message-Speaks :
      (words : List Text) → StaysJson words → Runs Speaks (execute_message rounds words)
  unfolding execute_message
  Runs-execute_message-Speaks [] h = Runs-pure Speaks-moves.flow tt
  Runs-execute_message-Speaks (name ∷ arguments) h =
      Runs-try_catch Speaks-moves.flow _ _
        (Runs-bind Speaks-moves.flow _ _
          (Runs-process_commandline-Speaks never rounds name arguments h)
          (λ n. Runs-pure Speaks-moves.flow tt))
        (λ what. Runs-write_error Speaks-moves _ _ _ _)

  Runs-read_messages :
      (inputs : List Text)
      → All (λ input. StaysJson (parse_line input false)) inputs
      → Runs Speaks (read_messages rounds inputs)
  unfolding read_messages
  Runs-read_messages [] h = Runs-pure Speaks-moves.flow tt
  Runs-read_messages (input ∷ inputs) (h, hs) =
      Runs-bind Speaks-moves.flow _ _ (Runs-execute_message-Speaks (parse_line input false) h)
        (λ _. Runs-read_messages inputs hs)

  pub read_messages-Spoke :
      (inputs : List Text) (s : State)
      → All (λ input. StaysJson (parse_line input false)) inputs
      → s.json_mode ≡ true
      → Spoke s (read_messages rounds inputs s).1
  unfolding Speaks
  read_messages-Spoke inputs s h json = (Runs-read_messages inputs h).along s json
