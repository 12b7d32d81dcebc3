-- ===== src/Websocket.antt =====
-- src/fep_control_tool/fep_control_websocket.cpp: one connection of the websocket server, with what it
-- shows on the console of the server. The socket is Boost's: what a write does to it is a parameter, and
-- what the reads give is a list of messages and the failure behind them.
pub mod Commands
pub mod Delivery
use fep3_base_utilities.Prelude.{
  ℕ, Bool, false, Option, none, some, List, [], ◌∷◌, ◌++◌, Text, codes, length, drop,
}
use fep3_base_utilities.Lexer.{parse_line}
use fep3_base_utilities.Effect.{
  Effect, Outcome, value, raised, Answer, returned, thrown, pure, modify, try_catch, go_on, ◌>>=◌,
  ◌>>◌,
}
use fep3_base_utilities.Env.{Env, Call}
use fep3_base_utilities.Session.{Session, State, Action, new_session}
use fep3_base_utilities.Interactive.{execute_message, write_shutdown_message}

-- The codes of `boost::system::system_error` that the sources tell apart.
pub data ErrorCode : Type 0 where
  eof connection_reset closed operation_aborted other_code : ErrorCode

-- A `system_error` that the handshake or a read throws: its code, and its `what()`.
pub record Failure : Type 0 where
  pub code : ErrorCode
  pub what : Text

-- What the handler of `system_error` shows.
unfoldable pub lost_note : Failure → Text
lost_note failure = by_code failure.code
  where
    by_code : ErrorCode → Text
    by_code ErrorCode.eof = codes "***Lost connection to client.***"
    by_code ErrorCode.connection_reset = codes "***Lost connection to client.***"
    by_code ErrorCode.closed = codes "***Client closed connection gracefully.***"
    by_code ErrorCode.operation_aborted = codes "***Lost connection to client. Read aborted***"
    by_code ErrorCode.other_code = codes "General Boost error reading from client: " ++ failure.what

-- Boost's stream: a write changes it, and may throw.
pub record SocketLibrary : Type 1 where
  pub Socket : Type 0
  pub socket_write : Text → Call Socket (Unit {0})

-- An instance of FepControlWebsocket, with the lines that it has put on the console.
pub record Connection (W S K : Type 0) : Type 0 where
  pub session : Session W S
  pub console : List Text
  pub socket : K

module _ ⦃env : Env⦄ where
  -- The texts that the second session has written since the first.
  unfoldable pub written_since : State → State → List Text
  written_since s t = drop (length s.output) t.output

module _ ⦃env : Env⦄ ⦃sockets : SocketLibrary⦄ where
  open env use {World, System}
  open sockets use {Socket, socket_write}

  abbrev pub Peer : Type 0
  Peer = Connection World System Socket

  abbrev pub Io : Type 0 → Type 0
  Io A = Effect Peer A

  -- FepControlWebsocket(socket, json_mode)
  abbrev pub new_connection : Bool → World → Socket → Peer
  new_connection json_mode world socket = record {
    session = new_session json_mode world;
    console = [];
    socket = socket;
  }

  -- `std::cout << line << std::endl`
  unfoldable pub log_line : Text → Io (Unit {0})
  log_line line = modify (λ c. record c { console = c.console ++ line ∷ [] })

  abbrev pub answered_by : Peer → Answer (Unit {0}) × Socket → Outcome (Unit {0}) × Peer
  answered_by c (returned a, k) = (value a, record c { socket = k })
  answered_by c (thrown what, k) = (raised what, record c { socket = k })

  -- `_socket.write(boost::asio::buffer(output))`
  unfoldable pub send : Text → Io (Unit {0})
  send output c = answered_by c (socket_write output c.socket)

  unfoldable pub write_output_to_sink : Text → Io (Unit {0})
  write_output_to_sink output = do
    log_line (codes "--> " ++ output)
    try_catch (send output) (λ what. do
      log_line (codes "***Cannot write to client.***")
      log_line what
      log_line (codes " Tried to write: " ++ output))

  unfoldable pub write_all_to_sink : List Text → Io (Unit {0})
  write_all_to_sink [] = pure tt
  write_all_to_sink (output ∷ outputs) = do write_output_to_sink output; write_all_to_sink outputs

  -- A method of FepControl: each text that it writes goes to the sink of this class.
  unfoldable pub with_sink : {A : Type 0} → Action A → Io A
  with_sink m c =
      let (r, t) = m c.session in
      (write_all_to_sink (written_since c.session t) >>= λ _ d. (r, d)) (record c { session = t })

  module _ (rounds : ℕ) where
    -- One round of the loop, behind the read.
    unfoldable pub on_message : Text → Io (Unit {0})
    on_message input = do
      log_line (codes "<-- " ++ input)
      with_sink (execute_message rounds (parse_line input false))

    unfoldable pub read_loop : List Text → Io (Unit {0})
    read_loop [] = pure tt
    read_loop (input ∷ inputs) = do on_message input; read_loop inputs

    -- readInputFromSource, on whether the handshake fails, the messages that are read, and the failure
    -- of the read behind them.
    unfoldable pub read_input_from_socket : Option Failure → List Text → Failure → Io (Unit {0})
    read_input_from_socket (some refused) inputs failure = log_line (lost_note refused)
    read_input_from_socket none inputs failure = do read_loop inputs; log_line (lost_note failure)
