-- ===== src/Interactive.antt =====
-- src/fep_control_tool/fep_control_commandline.cpp and src/fep_control_tool/fep_control_websocket.cpp:
-- the loops that read command lines, and the calls of linenoise in
-- src/fep_control_tool/linenoise_wrapper.cpp.
pub mod Survival
pub mod Answers
pub mod Documents
use fep3_base_utilities.Prelude.{
  ℕ, Bool, true, false, Option, none, some, List, [], ◌∷◌, ◌++◌, Text, codes, if◌then◌else◌, map,
  length, ◌==◌, not, suc,
}
use fep3_base_utilities.Lexer.{c_str, parse_line}
use fep3_base_utilities.Effect.{pure, gets, modify, try_catch, ◌>>=◌, ◌>>◌}
use fep3_base_utilities.Env.{Env}
use fep3_base_utilities.Session.{Action, write_output}
use fep3_base_utilities.Output.{generic_error, newline, write_error}
use fep3_base_utilities.Completion.{command_completion}
use fep3_base_utilities.Dispatch.{process_commandline}

-- `linenoiseCompletions`: `none` stands for a null pointer, and each text for a copy on the heap.
pub record Completions : Type 0 where
  pub len : ℕ
  pub cvec : Option (List Text)

-- The loop of `callback`, which duplicates each completion up to its first zero.
unfoldable pub completions_of : List Text → Completions
completions_of completion_list = record {
  len = length completion_list;
  cvec =
      if length completion_list == 0 then none else some (map (λ text. c_str text) completion_list);
}

-- What line_noise keeps: the function that `callback` calls, its flag, and how often it has registered
-- `callback` with linenoise.
pub record LineNoise (F : Type 0) : Type 0 where
  pub cpp_callback_function : Option F
  pub callback_initialized : Bool
  pub registrations : ℕ

unfoldable pub set_callback : {F : Type 0} → F → LineNoise F → LineNoise F
set_callback callback_function l = record {
  cpp_callback_function = some callback_function;
  callback_initialized = true;
  registrations = if not l.callback_initialized then suc l.registrations else l.registrations;
}

-- What `linenoise` returns: a line, a null pointer with errno EAGAIN (CTRL-C), or another null pointer.
pub data Input : Type 0 where
  typed : Text → Input
  interrupted : Input
  ended : Input

-- `none` stands for the result false.
unfoldable pub read_line : Input → Option Text
read_line (typed line) = some line
read_line interrupted = some []
read_line ended = none

-- What happens at the prompt: linenoise asks for completions of the text so far, or it returns.
pub data Event : Type 0 where
  asks : Text → Event
  returns : Input → Event

module _ ⦃env : Env⦄ where
  -- `callback`, which hands the completions to linenoise.
  unfoldable pub complete_line : Text → Action Completions
  complete_line input = do
    completion_list ← command_completion input
    pure (completions_of completion_list)

  unfoldable pub add_to_history : Text → Action (Unit {0})
  add_to_history line = modify (λ s. record s { world = env.history_add (c_str line) s.world })

  -- printWelcomeMessage, which writes to the stream behind the sink.
  unfoldable pub print_welcome_message : Action (Unit {0})
  print_welcome_message = do
    write_output
        (codes "******************************************************************" ++ newline)
    write_output
        (codes "* Welcome to FEP Control(c) 2021 VW Group                        *" ++ newline)
    write_output
        (codes "*  use help to print help                                        *" ++ newline)
    write_output
        (codes "******************************************************************" ++ newline)

module _ ⦃env : Env⦄ (rounds : ℕ) where
  unfoldable pub execute_tokens : Text → List Text → Action (Unit {0})
  execute_tokens line [] = pure tt
  execute_tokens line (word ∷ words) = do
    add_to_history line
    process_commandline rounds (word ∷ words)
    pure tt

  -- One round: the rest of the loop is not reached after the result false.
  unfoldable pub on_line : Option Text → Action (Unit {0}) → Action (Unit {0})
  on_line none rest = pure tt
  on_line (some line) rest = do execute_tokens line (parse_line line false); rest

  -- The loop over what happens at the prompt; an empty line is passed over.
  unfoldable pub read_commands : List Event → Action (Unit {0})
  read_commands [] = pure tt
  read_commands (asks input ∷ events) = do complete_line input; read_commands events
  read_commands (returns input ∷ events) = on_line (read_line input) (read_commands events)

  unfoldable pub read_input_from_source : List Event → Action (Unit {0})
  read_input_from_source events = do print_welcome_message; read_commands events

  -- One message of a client: an exception of the command is written back to it.
  unfoldable pub execute_message : List Text → Action (Unit {0})
  execute_message [] = pure tt
  execute_message (word ∷ words) =
      try_catch (do process_commandline rounds (word ∷ words); pure tt)
        (λ what. write_error word what generic_error [])

  -- The messages of a connection, up to its end.
  unfoldable pub read_messages : List Text → Action (Unit {0})
  read_messages [] = pure tt
  read_messages (input ∷ inputs) = do execute_message (parse_line input false); read_messages inputs

module _ ⦃env : Env⦄ where
  -- writeShutdownMessage of the command line and of the websocket, which differ in a line feed.
  unfoldable pub write_shutdown_message : Bool → Action (Unit {0})
  write_shutdown_message websocket = do
    json ← gets (λ s. s.json_mode)
    write_output (
        if json
        then codes "{\"action\" : \"applicationShutdown\"}"
        else if websocket
        then codes "bye"
        else codes "bye" ++ newline)
