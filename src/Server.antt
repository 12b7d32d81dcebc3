-- ===== src/Server.antt =====
-- src/fep_control_tool/fep_control_tool.cpp: ActiveWebsocketConnections, interactiveLoopWebsocket and
-- interactiveLoopCLI. The threads of the websocket server take their steps in any order: the thread that
-- accepts connections, one thread for each connection, main, the signals, and the threads of the library
-- that write log messages. A step is what a thread does up to the next point where others can see it.
pub mod Connections
pub mod Invariant
pub mod Shutdown
pub mod Exceptions
pub mod Prompt
pub mod Documents
use fep3_base_utilities.Prelude.{
  ℕ, suc, Bool, true, false, not, Option, none, some, List, [], ◌∷◌, ◌++◌, ◌≡◌, Text, length,
  select, ◌==◌, if◌then◌else◌,
}
use fep3_base_utilities.Lexer.{parse_line}
use fep3_base_utilities.Effect.{Outcome, value, raised, exited, faulted, unfinished, ◌>>=◌, ◌>>◌}
use fep3_base_utilities.Env.{Env}
use fep3_base_utilities.Session.{Session, Action, new_session}
use fep3_base_utilities.Output.{on_log}
use fep3_base_utilities.Interactive.{
  Event, read_input_from_source, execute_message, write_shutdown_message,
}

-- The instances are numbered in the order in which they are made. A number stands for the pointers to
-- its instance.
unfoldable pub add_connection : ℕ → List ℕ → List ℕ
add_connection instance active_connections = active_connections ++ instance ∷ []

-- The idiom of erase and remove: every equal pointer goes.
unfoldable pub remove_connection : ℕ → List ℕ → List ℕ
remove_connection instance active_connections = select (λ i. not (i == instance)) active_connections

-- Where the thread of a connection stands: not yet there, added to the list, in its loop, behind its
-- loop, removed from the list, or in a command that never returns.
pub data Stage : Type 0 where
  absent added reading left removed hanging : Stage

-- Where main stands: in its loop, at the instances to which it still writes, behind them.
pub data MainStage : Type 0 where
  waiting : MainStage
  saying_bye : List ℕ → MainStage
  finished : MainStage

-- What the console of Windows tells a process.
pub data ControlEvent : Type 0 where
  ctrl_c ctrl_close ctrl_break ctrl_logoff ctrl_shutdown other_event : ControlEvent

-- How the process ended: main returned, `exit` was called, an exception left a thread, it has
-- undefined behaviour in a command, or the sockets of open connections have lost their io_context, so
-- that what their threads do next is undefined.
pub data Ending : Type 0 where
  main_returned : Ending
  exit_called : ℕ → Ending
  terminated : Ending
  undefined_behaviour : Ending
  dangling_sockets : Ending

pub record Server (W S : Type 0) : Type 0 where
  pub shutdown_requested : Bool
  -- the thread that accepts connections is in its loop
  pub listening : Bool
  pub active_connections : List ℕ
  -- the number of instances made so far
  pub instances : ℕ
  pub stage : ℕ → Stage
  pub session : ℕ → Session W S
  pub main : MainStage
  pub ending : Option Ending
  -- the world outside, which the sessions share
  pub shared : W

abbrev pub update : {A : Type 0} → (ℕ → A) → ℕ → A → ℕ → A
update f i a j = if i == j then a else f j

module _ ⦃env : Env⦄ where
  open env use {World, System}

  abbrev pub Process : Type 0
  Process = Server World System

  abbrev pub starting : Bool → World → Process
  starting json_mode world = record {
    shutdown_requested = false;
    listening = true;
    active_connections = [];
    instances = 0;
    stage = λ i. absent;
    session = λ i. new_session json_mode world;
    main = waiting;
    ending = none;
    shared = world;
  }

  -- A client has connected: an instance is made and added.
  unfoldable pub accepted : Bool → Process → Process
  accepted json_mode v = record v {
    active_connections = add_connection v.instances v.active_connections;
    instances = suc v.instances;
    stage = update v.stage v.instances added;
    session = update v.session v.instances (new_session json_mode v.shared);
  }

  -- The acceptor cannot be made or throws: the exception is caught behind the loop. On the way the
  -- io_context is destroyed, which the sockets of open connections still use.
  unfoldable pub accept_failed : Process → Process
  accept_failed v = record v {
    listening = false;
    ending = if length v.active_connections == 0 then v.ending else some dangling_sockets;
  }

  -- The thread of a connection goes from one stage to the next.
  unfoldable pub staged : ℕ → Stage → Process → Process
  staged i st v = record v { stage = update v.stage i st }

  -- What becomes of the process after a message.
  abbrev pub after_message : ℕ → Outcome (Unit {0}) → Process → Process
  after_message i (value a) v = v
  after_message i (raised what) v = record v { ending = some terminated }
  after_message i (exited n) v = record v { ending = some (exit_called n) }
  after_message i faulted v = record v { ending = some undefined_behaviour }
  after_message i unfinished v = staged i hanging v

  -- A method of one instance runs in the world that all share.
  unfoldable pub run_in : {A : Type 0} → ℕ → Action A → Process → Outcome A × Process
  run_in i m v =
      let (r, t) = m (record (v.session i) { world = v.shared }) in
      (r, record v { session = update v.session i t; shared = t.world })

  -- A message of the client, up to the next read.
  unfoldable pub messaged : ℕ → ℕ → Text → Process → Process
  messaged rounds i input v =
      let (r, w) = run_in i (execute_message rounds (parse_line input false)) v in
      after_message i r w

  -- The thread behind its loop removes its instance.
  unfoldable pub unlisted : ℕ → Process → Process
  unlisted i v = record v {
    active_connections = remove_connection i v.active_connections;
    stage = update v.stage i removed;
  }

  -- The signal handlers of Linux.
  unfoldable pub signalled : Process → Process
  signalled v = record v { shutdown_requested = true }

  -- The control handler of Windows, with whether the event was handled: on the command line CTRL-C does
  -- not end the tool.
  unfoldable pub ctrl_handler : Bool → ControlEvent → Process → Bool × Process
  ctrl_handler websocket ctrl_c v = (true, if websocket then signalled v else v)
  ctrl_handler websocket ctrl_close v = (true, signalled v)
  ctrl_handler websocket ctrl_break v = (false, v)
  ctrl_handler websocket ctrl_logoff v = (false, v)
  ctrl_handler websocket ctrl_shutdown v = (false, v)
  ctrl_handler websocket other_event v = (false, v)

  unfoldable pub logged : ℕ → ℕ → Text → Text → Text → Process → Process
  logged i severity_level participant_name logger_name message v =
      (run_in i (on_log severity_level participant_name logger_name message) v).1

  -- main: the loop that waits, the copy of the list, a message for each instance, and the return.
  abbrev pub main_turn : MainStage → Process → Process
  main_turn waiting v =
      if v.shutdown_requested then record v { main = saying_bye v.active_connections } else v
  main_turn (saying_bye []) v = record v { main = finished; ending = some main_returned }
  main_turn (saying_bye (i ∷ is)) v = record ((run_in i (write_shutdown_message true) v).1) {
    main = saying_bye is;
  }
  main_turn finished v = v

  -- A process that has ended stays as it is.
  abbrev pub unless_ended : Option Ending → Process → Process → Process
  unless_ended none v w = w
  unless_ended (some e) v w = v

  unfoldable pub main_step : Process → Process
  main_step v = unless_ended v.ending v (main_turn v.main v)

  abbrev pub is_alive : Stage → Bool
  is_alive absent = false
  is_alive removed = false
  is_alive _ = true

  -- One step of one thread.
  pub data Step (rounds : ℕ) (json_mode : Bool) (v : Process) : Process → Type 0 where
    accept : v.listening ≡ true → Step rounds json_mode v (accepted json_mode v)
    fail : v.listening ≡ true → Step rounds json_mode v (accept_failed v)
    begin : (i : ℕ) → v.stage i ≡ added → Step rounds json_mode v (staged i reading v)
    message :
        (i : ℕ) (input : Text)
        → v.stage i ≡ reading
        → Step rounds json_mode v (messaged rounds i input v)
    leave : (i : ℕ) → v.stage i ≡ reading → Step rounds json_mode v (staged i left v)
    unlist : (i : ℕ) → v.stage i ≡ left → Step rounds json_mode v (unlisted i v)
    signal : Step rounds json_mode v (signalled v)
    control : (event : ControlEvent) → Step rounds json_mode v (ctrl_handler true event v).1
    log :
        (i severity_level : ℕ) (participant_name logger_name message : Text)
        → is_alive (v.stage i) ≡ true
        → Step rounds json_mode v (logged i severity_level participant_name logger_name message v)
    turn : Step rounds json_mode v (main_step v)

  -- What a process that goes on can become.
  pub data Reach (rounds : ℕ) (json_mode : Bool) (world : World) : Process → Type 0 where
    start : Reach rounds json_mode world (starting json_mode world)
    later :
        {v w : Process}
        → Reach rounds json_mode world v
        → v.ending ≡ none
        → Step rounds json_mode v w
        → Reach rounds json_mode world w

  -- interactiveLoopCLI: the reading thread sets `shutdown_requested` when it is done, and a signal between
  -- two events sets it behind the first of them, as the end of the events does.
  unfoldable pub interactive_loop_cli : ℕ → List Event → Action (Unit {0})
  interactive_loop_cli rounds events = do
    read_input_from_source rounds events
    write_shutdown_message false
