-- ===== src/Completion.antt =====
-- The completion of a command line: the completion functions of src/fep_control_tool/fep_control.cpp
-- and commandCompletion of src/fep_control_tool/fep_control_commandline.cpp.
pub mod Offers
pub mod Quiet
use fep3_base_utilities.Prelude.{
  ℕ, true, Option, none, some, List, [], ◌∷◌, ◌++◌, map, Text, codes, length, get_elem?, select,
  starts_with,
}
use fep3_base_utilities.Quoting.{quote_name_if_necessary}
use fep3_base_utilities.Lexer.{parse_line}
use fep3_base_utilities.Effect.{faulted, pure, gets, ◌>>=◌}
use fep3_base_utilities.Env.{Env}
use fep3_base_utilities.SystemMap.{SystemMap, find}
use fep3_base_utilities.Session.{Action, call}
use fep3_base_utilities.CommandTable.{
  ArgumentHandler, ArgumentCompletionFunction, ControlCommand, control_commands,
}
use fep3_base_utilities.Dispatch.{find_command}

-- The loop of every completion function: the names that begin with the prefix.
unfoldable pub completions : Text → List Text → List Text
completions word_prefix names = select (λ name. starts_with word_prefix name) names

unfoldable pub keys : {V : Type 0} → SystemMap V → List Text
keys [] = []
keys ((name, system) ∷ m) = name ∷ keys m

unfoldable pub possible_states : List Text
possible_states =
    codes "shutdowned"
    ∷ codes "unloaded"
    ∷ codes "loaded"
    ∷ codes "initialized"
    ∷ codes "paused"
    ∷ codes "running"
    ∷ []

unfoldable pub complete_command_name : Text → List Text
complete_command_name word_prefix = completions word_prefix (map (λ cmd. cmd.name) control_commands)

module _ ⦃env : Env⦄ where
  open env use {System, participants_of, participant_name, files_here, join}

  unfoldable pub complete_local_files : Text → Action (List Text)
  complete_local_files word_prefix = do
    file_list ← call files_here
    pure (completions word_prefix file_list)

  unfoldable pub complete_connected_systems : Text → Action (List Text)
  complete_connected_systems word_prefix = gets (λ s. completions word_prefix (keys s.systems))

  unfoldable pub complete_participants_of : Text → Option System → Action (List Text)
  complete_participants_of word_prefix none = pure []
  complete_participants_of word_prefix (some system) = do
    parts ← call (participants_of system)
    pure (completions word_prefix (map participant_name parts))

  unfoldable pub complete_connected_participants : Text → Action (List Text)
  complete_connected_participants word_prefix = do
    found_system ← gets (λ s. find s.last_system_name_used s.systems)
    complete_participants_of word_prefix found_system

  unfoldable pub complete_used_properties : Text → Action (List Text)
  complete_used_properties word_prefix = gets (λ s. completions word_prefix s.used_properties)

  -- The call through the pointer to a member function.
  unfoldable pub complete : ArgumentCompletionFunction → Text → Action (List Text)
  complete ArgumentCompletionFunction.no_completion word_prefix = pure []
  complete ArgumentCompletionFunction.command_name_completion word_prefix =
      pure (complete_command_name word_prefix)
  complete ArgumentCompletionFunction.connected_systems_completion word_prefix =
      complete_connected_systems word_prefix
  complete ArgumentCompletionFunction.connected_participants_completion word_prefix =
      complete_connected_participants word_prefix
  complete ArgumentCompletionFunction.used_properties_completion word_prefix =
      complete_used_properties word_prefix
  complete ArgumentCompletionFunction.possible_systems_state_completion word_prefix =
      pure (completions word_prefix possible_states)

  -- The tokens before the last one, in quotation where it is needed, and each completion behind them.
  unfoldable pub completed_lines : List Text → List Text → List Text
  completed_lines input_tokens exec =
      let command_prefix =
        join (map quote_name_if_necessary input_tokens) (codes " ") ++ codes " " in
      map (λ word_completion. command_prefix ++ quote_name_if_necessary word_completion) exec

  -- `input_tokens.pop_back()` on the token `t` and those behind it
  abbrev pub without_last : Text → List Text → List Text
  without_last t [] = []
  without_last t (u ∷ tokens) = t ∷ without_last u tokens

  -- `input_tokens.back()`
  abbrev pub last_of : Text → List Text → Text
  last_of t [] = t
  last_of t (u ∷ tokens) = last_of u tokens

  unfoldable pub complete_argument :
      Text → Text → List Text → Option ArgumentHandler → Action (List Text)
  complete_argument name token tokens none = pure []
  complete_argument name token tokens (some argument) = do
    exec ← complete argument.completion (last_of token tokens)
    pure (completed_lines (name ∷ without_last token tokens) exec)

  -- The argument at which the last token stands: of two tokens it is the first.
  unfoldable pub complete_command :
      Text → Text → List Text → Option ControlCommand → Action (List Text)
  complete_command name token tokens none = pure []
  complete_command name token tokens (some cmd) =
      complete_argument name token tokens (get_elem? cmd.arguments (length tokens))

  -- The first token of an empty list is read where the line has no token.
  unfoldable pub complete_tokens : List Text → Action (List Text)
  complete_tokens [] s = (faulted, s)
  complete_tokens (name ∷ []) s = pure (complete_command_name (quote_name_if_necessary name)) s
  complete_tokens (name ∷ token ∷ tokens) s =
      complete_command name token tokens (find_command name) s

  unfoldable pub command_completion : Text → Action (List Text)
  command_completion input = complete_tokens (parse_line input true)
