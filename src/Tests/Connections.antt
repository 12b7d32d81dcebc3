-- ===== src/Tests/Connections.antt =====
-- Connections and the prompt on the libraries of the tests.
use fep3_base_utilities.Prelude.{
  ℕ, true, false, none, some, List, [], ◌∷◌, ◌++◌, ◌≡◌, ◌≢◌, refl, Text, codes, All,
}
use fep3_base_utilities.Effect.{value, faulted, returned, thrown, Outcome}
use fep3_base_utilities.Lexer.{parse_line, parse_words, get_next_word, c_str}
use fep3_base_utilities.Quoting.{un_escape}
use fep3_base_utilities.Effect.{pure, ◌>>=◌}
use fep3_base_utilities.Completion.{command_completion, complete_tokens}
use fep3_base_utilities.Interactive.{
  print_welcome_message, read_commands, complete_line, on_line, read_line, execute_tokens,
}
use fep3_base_utilities.Session.{write_output}
use fep3_base_utilities.Session.{new_session}
use fep3_base_utilities.Session.Moves.{IsDocument}
use fep3_base_utilities.Commands.Properties.Moves.{NeverNull}
use fep3_base_utilities.Dispatch.Invariants.{ModesAgree, IsOrdered}
use fep3_base_utilities.Interactive.{
  Event, asks, returns, typed, ended, read_messages, read_input_from_source, LineNoise,
  set_callback, completions_of,
}
use fep3_base_utilities.Interactive.Documents.{StaysJson}
use fep3_base_utilities.Interactive.Survival.{Survives}
use fep3_base_utilities.Server.{
  interactive_loop_cli, Process, Stage, starting, accepted, staged, messaged, accept, begin,
  message, Reach, start, later,
}
use fep3_base_utilities.Server.Documents.{NeverPlain, Pure, Reach-Pure}
use fep3_base_utilities.Server.Prompt.{
  interactive_loop_cli-new_session, interactive_loop_cli-faulted,
}
use fep3_base_utilities.Websocket.{
  SocketLibrary, Connection, ErrorCode, Failure, new_connection, lost_note, read_input_from_socket,
}
use fep3_base_utilities.Websocket.Commands.{read_input_from_socket-read_messages}
use fep3_base_utilities.Websocket.Delivery.{
  IsUp, read_input_from_socket-received, read_input_from_socket-IsDocument,
}
use fep3_base_utilities.Tests.Libraries.{demo}

-- A socket that is up holds what was written, and one that is down throws.
abbrev up_sockets : SocketLibrary
up_sockets = record { Socket = List Text; socket_write = λ text k. (returned tt, k ++ text ∷ []) }

abbrev down_sockets : SocketLibrary
down_sockets = record {
  Socket = List Text;
  socket_write = λ text k. (thrown (codes "broken pipe"), k);
}

never : NeverNull ⦃env = demo⦄
never conf node w = λ h. cc

is_up : IsUp ⦃sockets = up_sockets⦄ (λ k. k)
is_up = record { writes = λ text k. refl; delivers = λ text k. refl }

abbrev lost : Failure
lost = record { code = ErrorCode.eof; what = codes "End of file" }

abbrev messages : List Text
messages = codes "loadSystem alpha" ∷ codes "help help" ∷ []

abbrev unheard : Connection ℕ Text (List Text)
unheard = new_connection ⦃env = demo⦄ ⦃sockets = down_sockets⦄ false 0 []

abbrev heard : Connection ℕ Text (List Text)
heard = new_connection ⦃env = demo⦄ ⦃sockets = up_sockets⦄ true 0 []

abbrev down_run : Outcome (Unit {0}) × Connection ℕ Text (List Text)
down_run = read_input_from_socket ⦃env = demo⦄ ⦃sockets = down_sockets⦄ 5 none messages lost unheard

abbrev up_run : Outcome (Unit {0}) × Connection ℕ Text (List Text)
up_run = read_input_from_socket ⦃env = demo⦄ ⦃sockets = up_sockets⦄ 5 none messages lost heard

read_input_from_socket-read_messages_example :
    (down_run.0 ≡ (read_messages ⦃env = demo⦄ 5 messages unheard.session).0)
    × (down_run.1.session ≡ (read_messages ⦃env = demo⦄ 5 messages unheard.session).1)
    × Survives ⦃env = demo⦄ down_run.0
    × ((read_messages ⦃env = demo⦄ 5 messages unheard.session).0 ≡ value tt
        → (lines : List Text) × (down_run.1.console ≡ lines ++ lost_note lost ∷ []))
read_input_from_socket-read_messages_example =
    read_input_from_socket-read_messages ⦃env = demo⦄ ⦃sockets = down_sockets⦄ 5 messages lost
      unheard

read_input_from_socket-received_example :
    (added : List Text) × (up_run.1.session.output ≡ heard.session.output ++ added)
    × (up_run.1.socket ≡ heard.socket ++ added)
read_input_from_socket-received_example =
    read_input_from_socket-received ⦃env = demo⦄ ⦃sockets = up_sockets⦄ is_up never 5 messages lost
      heard

message_words :
    (parse_line (codes "loadSystem alpha") false ≡ codes "loadSystem" ∷ codes "alpha" ∷ [])
    × (parse_line (codes "help help") false ≡ codes "help" ∷ codes "help" ∷ [])
unfolding codes parse_line parse_words get_next_word c_str un_escape
message_words = (refl, refl)

other_words : (codes "loadSystem" ≢ codes "disableJson") × (codes "help" ≢ codes "disableJson")
unfolding codes
other_words = ((λ h. cc), (λ h. cc))

stays : All (λ input. StaysJson (parse_line input false)) messages
stays =
    let (first, second) = message_words in
    let (load, help) = other_words in rw (first, second) (load, (help, tt))

read_input_from_socket-IsDocument_example :
    (added : List Text) × (up_run.1.socket ≡ heard.socket ++ added)
    × All (IsDocument ⦃env = demo⦄) added
read_input_from_socket-IsDocument_example =
    read_input_from_socket-IsDocument ⦃env = demo⦄ ⦃sockets = up_sockets⦄ is_up never 5 messages
      lost heard stays refl

-- A tab behind `lo`, a command, and the end of the input.
abbrev events : List Event
events = asks (b'l' ∷ codes "o") ∷ returns (typed (codes "loadSystem alpha")) ∷ returns ended ∷ []

interactive_loop_cli-new_session_example :
    ((interactive_loop_cli ⦃env = demo⦄ 5 events (new_session ⦃env = demo⦄ false 0)).0 ≢ faulted)
    × ModesAgree ⦃env = demo⦄
        (interactive_loop_cli ⦃env = demo⦄ 5 events (new_session ⦃env = demo⦄ false 0)).1
    × IsOrdered ⦃env = demo⦄
        (interactive_loop_cli ⦃env = demo⦄ 5 events (new_session ⦃env = demo⦄ false 0)).1
interactive_loop_cli-new_session_example =
    interactive_loop_cli-new_session ⦃env = demo⦄ 5 never events false 0 ((λ h. cc), (tt, (tt, tt)))

abbrev before : List Event
before = asks (b'l' ∷ []) ∷ returns (typed []) ∷ []

before_done :
    (read_input_from_source ⦃env = demo⦄ 5 before (new_session ⦃env = demo⦄ false 0)).0 ≡ value tt
unfolding read_input_from_source ◌>>=◌ print_welcome_message write_output read_commands
    complete_line command_completion complete_tokens parse_line parse_words get_next_word c_str pure
    on_line read_line execute_tokens
before_done = refl

interactive_loop_cli-faulted_example :
    (interactive_loop_cli ⦃env = demo⦄ 5
      (before ++ asks [] ∷ events)
      (new_session ⦃env = demo⦄ false 0)).0
    ≡ faulted
interactive_loop_cli-faulted_example =
    interactive_loop_cli-faulted ⦃env = demo⦄ 5 events before (new_session ⦃env = demo⦄ false 0)
      (tt, (tt, tt)) before_done

-- The callback is registered once, and the last function that was set is called.
abbrev untouched : LineNoise ℕ
untouched = record { cpp_callback_function = none; callback_initialized = false; registrations = 0 }

set_twice :
    set_callback 2 (set_callback 1 untouched)
    ≡ record { cpp_callback_function = some 2; callback_initialized = true; registrations = 1 }
unfolding set_callback
set_twice = refl

no_completions : (completions_of []).cvec ≡ none
unfolding completions_of
no_completions = refl

-- A client comes and sends a message.
abbrev one_reading : Process ⦃env = demo⦄
one_reading =
    staged ⦃env = demo⦄ 0 Stage.reading (accepted ⦃env = demo⦄ true (starting ⦃env = demo⦄ true 0))

abbrev one_asked : Process ⦃env = demo⦄
one_asked = messaged ⦃env = demo⦄ 5 0 (codes "help help") one_reading

one_asked-Reach : Reach ⦃env = demo⦄ 5 true 0 one_asked
unfolding accepted staged
one_asked-Reach =
    later (later (later start refl (accept refl)) refl (begin 0 refl)) refl
      (message 0 (codes "help help") refl)

never_plain : NeverPlain ⦃env = demo⦄ one_asked-Reach
unfolding one_asked-Reach
never_plain =
    let (_, words) = message_words in let (_, help) = other_words in (((tt, tt), tt), rw words help)

Reach-Pure_example : Pure ⦃env = demo⦄ (one_asked.session 0)
Reach-Pure_example = Reach-Pure ⦃env = demo⦄ never 5 one_asked-Reach never_plain 0
