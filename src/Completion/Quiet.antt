-- ===== src/Completion/Quiet.antt =====
-- A completion leaves the session alone.
use fep3_base_utilities.Prelude.{
  ℕ, true, Option, none, some, List, map, [], ◌∷◌, ◌≡◌, ◌≢◌, refl, Text, length, get_elem?,
}
use fep3_base_utilities.Lexer.{parse_line}
use fep3_base_utilities.Lexer.Tokens.{parse_line-token}
use fep3_base_utilities.Effect.{
  Outcome, value, raised, faulted, Answer, returned, thrown, pure, gets, go_on, exited, unfinished,
  ◌>>=◌,
}
use fep3_base_utilities.Env.{Env, Call}
use fep3_base_utilities.SystemMap.{find}
use fep3_base_utilities.Session.{State, answered, call}
use fep3_base_utilities.CommandTable.{
  ArgumentCompletionFunction, no_completion, command_name_completion, connected_systems_completion,
  connected_participants_completion, used_properties_completion, possible_systems_state_completion,
  ArgumentHandler, ControlCommand,
}
use fep3_base_utilities.Dispatch.{find_command}
use fep3_base_utilities.Completion.{
  complete_connected_systems, complete_participants_of, complete_connected_participants,
  complete_used_properties, complete, completions, last_of, without_last, completed_lines,
  complete_argument, complete_command, complete_tokens, command_completion,
}

module _ ⦃env : Env⦄ where
  -- The run is defined, and the second session differs from the first one in nothing but the world.
  abbrev pub IsQuiet : {A : Type 0} → Outcome A × State → State → Type 0
  IsQuiet (r, t) s = (r ≢ faulted) × (t ≡ record s { world = t.world })

  answered-IsQuiet :
      {A : Type 0} (r : Answer A) (w : env.World) (s : State)
      → IsQuiet (answered r (record s { world = w })) s
  answered-IsQuiet (returned a) w s = (λ h. cc, refl)
  answered-IsQuiet (thrown what) w s = (λ h. cc, refl)

  go_on-IsQuiet :
      {A B : Type 0} (f : A → B) (r : Outcome A) (t s : State)
      → IsQuiet (r, t) s
      → IsQuiet (go_on r (λ a. pure (f a)) t) s
  unfolding pure
  go_on-IsQuiet f (value a) t s (d, q) = (λ h. cc, q)
  go_on-IsQuiet f (raised what) t s (d, q) = (λ h. cc, q)
  go_on-IsQuiet f (exited n) t s (d, q) = (λ h. cc, q)
  go_on-IsQuiet f faulted t s (d, q) = absurd (d refl)
  go_on-IsQuiet f unfinished t s (d, q) = (λ h. cc, q)

  call-IsQuiet :
      {A B : Type 0} (c : Call env.World A) (f : A → B) (s : State)
      → IsQuiet ((call c >>= λ a. pure (f a)) s) s
  unfolding call ◌>>=◌
  call-IsQuiet c f s =
      let (r, w) = c s.world in
      let (o, t) = answered r (record s { world = w }) in
      go_on-IsQuiet f o t s (answered-IsQuiet r w s)

  participants-IsQuiet :
      (word_prefix : Text) (found_system : Option env.System) (s : State)
      → IsQuiet (complete_participants_of word_prefix found_system s) s
  unfolding complete_participants_of pure
  participants-IsQuiet word_prefix none s = (λ h. cc, refl)
  participants-IsQuiet word_prefix (some system) s =
      call-IsQuiet (env.participants_of system)
        (λ parts. completions word_prefix (map env.participant_name parts)) s

  complete-IsQuiet :
      (f : ArgumentCompletionFunction) (word_prefix : Text) (s : State)
      → IsQuiet (complete f word_prefix s) s
  unfolding complete complete_connected_systems complete_connected_participants
      complete_used_properties pure gets ◌>>=◌
  complete-IsQuiet no_completion word_prefix s = (λ h. cc, refl)
  complete-IsQuiet command_name_completion word_prefix s = (λ h. cc, refl)
  complete-IsQuiet connected_systems_completion word_prefix s = (λ h. cc, refl)
  complete-IsQuiet connected_participants_completion word_prefix s =
      participants-IsQuiet word_prefix (find s.last_system_name_used s.systems) s
  complete-IsQuiet used_properties_completion word_prefix s = (λ h. cc, refl)
  complete-IsQuiet possible_systems_state_completion word_prefix s = (λ h. cc, refl)

  module _ (name token : Text) (tokens : List Text) (s : State) where
    argument-IsQuiet :
        (argument : Option ArgumentHandler)
        → IsQuiet (complete_argument name token tokens argument s) s
    unfolding complete_argument pure ◌>>=◌
    argument-IsQuiet none = (λ h. cc, refl)
    argument-IsQuiet (some argument) =
        let (o, t) = complete argument.completion (last_of token tokens) s in
        go_on-IsQuiet (λ exec. completed_lines (name ∷ without_last token tokens) exec) o t s
          (complete-IsQuiet argument.completion (last_of token tokens) s)

    command-IsQuiet :
        (cmd : Option ControlCommand) → IsQuiet (complete_command name token tokens cmd s) s
    unfolding complete_command pure
    command-IsQuiet none = (λ h. cc, refl)
    command-IsQuiet (some cmd) = argument-IsQuiet (get_elem? cmd.arguments (length tokens))

  tokens-IsQuiet :
      (tokens : List Text) (s : State) → tokens ≢ [] → IsQuiet (complete_tokens tokens s) s
  unfolding complete_tokens pure
  tokens-IsQuiet [] s h = absurd (h refl)
  tokens-IsQuiet (name ∷ []) s h = (λ e. cc, refl)
  tokens-IsQuiet (name ∷ token ∷ tokens) s h =
      command-IsQuiet name token tokens s (find_command name)

  -- The completion of a line that starts with a byte other than zero does nothing undefined, and
  -- changes nothing of the session but the world of the libraries.
  pub command_completion-IsQuiet :
      (c : ℕ) (line : Text) (s : State) → c ≢ 0 → IsQuiet (command_completion (c ∷ line) s) s
  unfolding command_completion
  command_completion-IsQuiet c line s h =
      tokens-IsQuiet (parse_line (c ∷ line) true) s (parse_line-token c line h)
