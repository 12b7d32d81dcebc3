-- ===== src/Server/Exceptions.antt =====
-- What an exception of a command does to the tool on the command line and to a connection.
use fep3_base_utilities.Prelude.{ℕ, false, List, [], ◌∷◌, ◌≡◌, refl, Text, codes}
use fep3_base_utilities.Lexer.{c_str, parse_line}
use fep3_base_utilities.Effect.{raised, thrown, pure, token, try_catch, modify, ◌>>=◌, ◌>>◌}
use fep3_base_utilities.Env.{Env}
use fep3_base_utilities.Session.{State, write_output, call}
use fep3_base_utilities.Output.{generic_error, write_error}
use fep3_base_utilities.Output.Values.{write_error-value}
use fep3_base_utilities.CommandTable.{control_commands}
use fep3_base_utilities.Lookup.{real_name, remember}
use fep3_base_utilities.Commands.Systems.{discover_system}
use fep3_base_utilities.Dispatch.{find_command, run_action, process_found, process_commandline}
use fep3_base_utilities.Interactive.{
  Event, returns, typed, add_to_history, read_line, print_welcome_message, execute_tokens, on_line,
  read_commands, read_input_from_source, execute_message, read_messages,
}
use fep3_base_utilities.Server.{interactive_loop_cli}

module _ ⦃env : Env⦄ (rounds : ℕ) where
  open env use {World, discover_system_named, history_add}

  process_commandline-thrown :
      (name what : Text) (s : State) (w : World)
      → discover_system_named (real_name name) s.world ≡ (thrown what, w)
      → process_commandline rounds (codes "discoverSystem" ∷ name ∷ []) s
        ≡ (raised what, record s { last_system_name_used = name; world = w })
  unfolding process_commandline process_found find_command control_commands codes run_action token
      discover_system remember modify call ◌>>=◌
  process_commandline-thrown name what s w e = rw e refl

  -- Where a typed line and a message ask for the discovery of a system, and the library throws: the
  -- exception leaves the reading thread of the command line, and so ends the tool without its last message;
  -- on a websocket the exception is written to the client, and the next messages are read.
  pub interactive_loop_cli-thrown :
      (line name what : Text) (events : List Event) (messages : List Text) (s : State) (v w : World)
      → parse_line line false ≡ codes "discoverSystem" ∷ name ∷ []
      → discover_system_named (real_name name) (history_add (c_str line) s.world) ≡ (thrown what, v)
      → discover_system_named (real_name name) s.world ≡ (thrown what, w)
      → ((interactive_loop_cli rounds (returns (typed line) ∷ events) s).0 ≡ raised what)
        × (read_messages rounds (line ∷ messages) s
            ≡ read_messages rounds messages
                (write_error
                  (codes "discoverSystem")
                  what
                  generic_error
                  []
                  (record s { last_system_name_used = name; world = w })).1)
  unfolding interactive_loop_cli read_input_from_source print_welcome_message write_output
      read_commands on_line read_line execute_tokens read_messages execute_message try_catch pure
      add_to_history modify ◌>>=◌
  interactive_loop_cli-thrown line name what events messages s v w words d e = (
    rw
        (
          words,
          process_commandline-thrown name what ((print_welcome_message >> add_to_history line) s).1
              v d,
        )
        refl,
    rw (words, process_commandline-thrown name what s w e, write_error-value) refl,
  )
