-- ===== src/Lib.antt =====
-- The FEP control tool: src/fep_control_tool, a program that reads command lines and drives FEP
-- systems with them.
--
-- The parts and their files:
-- - Quoting and Lexer: src/fep_control_tool/control_tool_common_helper.h (quoteNameIfNecessary,
--   unEscape) and src/fep_control_tool/helper.cpp (skipWhitespaces, getNextWord, parseLine). A string
--   is the list of its bytes, and isspace is that of the "C" locale. The
--   files below Lexer hold the proofs: Lexer/Names and Lexer/Readings on the word that a quoted name
--   begins, Lexer/Exact on lines of quoted names.
-- - States: resolveSystemState and getStateFromString of src/fep_control_tool/helper.cpp.
-- - Effect: what a method does, as a function from a session to an outcome and a session. The outcome
--   is a value, an exception, the end of the process, undefined behaviour, or `unfinished`. In
--   Effect/Runs a method runs within a relation on sessions that is reflexive and transitive.
-- - Env: the code that the tool calls and that does not stand in the repository, as a record of types
--   and calls: the FEP system library, jsoncpp, the JSON-RPC client, a_util, linenoise and the file system. A
--   call takes a world, changes it, and returns or throws. Nothing is assumed of the calls but what
--   the theorems name.
-- - SystemMap: the std::map of the known systems, as a list in the order of its keys, with the four
--   operations that the sources call; SystemMap/Laws has what the other proofs use of them.
-- - Session: the members of FepControl (src/fep_control_tool/fep_control.h) and of Monitor
--   (src/fep_control_tool/monitor.h), with what was written so far and the world.
-- - Output: JsonObject, writeNote, writeNotes, writeError and writeException of
--   src/fep_control_tool/fep_control.cpp, and Monitor::onLog of src/fep_control_tool/monitor.cpp.
-- - Lookup: discoverSystemByName, getConnectedOrDiscoveredSystem and getParticipant of
--   src/fep_control_tool/fep_control.cpp.
-- - Commands: the handlers of src/fep_control_tool/fep_control.cpp, in the files Systems,
--   Participants, Aggregated, Timing, Modes, Rpc and Properties. Session/Moves lists the changes that
--   they make to a session, and the file Moves of each follows its handlers along them. PropertyPath
--   cuts property paths. Commands/Properties/Trees writes the tree of the properties as a tree, and
--   Commands/Properties/Formats sets what the code writes of it against a recursion on that tree.
-- - CommandTable and Dispatch: getControlCommands, findCommand, help and processCommandline of
--   src/fep_control_tool/fep_control.cpp. The files below Dispatch are on whole command lines: Unknown,
--   Refusals, Arguments and Reports on failures, Invariants, Documents, Used and Known on what is kept,
--   Transitions, Machines, Discovery and Priorities on what the commands do. Arguments has a list of the
--   commands with their numbers of arguments, which stands beside the table.
-- - Interactive: readInputFromSource of src/fep_control_tool/fep_control_commandline.cpp, what
--   src/fep_control_tool/linenoise_wrapper.cpp does between it and linenoise, and one message of a
--   websocket connection. What happens at the prompt is a list of events: linenoise asks for completions,
--   or it returns.
-- - Websocket: FepControlWebsocket of src/fep_control_tool/fep_control_websocket.cpp, with the console of
--   the server. The socket of Boost is the record SocketLibrary, and what the handshake and the reads give
--   are arguments. Each text that a command writes goes to the sink, all of them behind the command.
-- - Completion: the completion functions of src/fep_control_tool/fep_control.cpp and commandCompletion of
--   src/fep_control_tool/fep_control_commandline.cpp.
-- - Program: parseAndExecuteCommandline and main of src/fep_control_tool/fep_control_tool.cpp, with the
--   result of an executed command and the choice between the end of the program and its two loops.
-- - Server: ActiveWebsocketConnections, interactiveLoopWebsocket, interactiveLoopCLI, the signal handler
--   of Linux and the control handler of Windows, of src/fep_control_tool/fep_control_tool.cpp. The
--   threads are a step relation: Step is one step of one of them, and Reach holds the states that any
--   order of steps leads to. A command of a client is one step, and so is the writing of a log message
--   or of the message of the shutdown. Where the acceptor throws while connections are open, the process
--   counts as ended, since their sockets have lost their io_context.
-- - Numbers: std::stoi and std::to_string on an int of 32 bits, for the priorities.
-- - Output/Reports, Lookup/Reports, the file Reports of each part of Commands, and Dispatch/Reports: a
--   judgement that an action which fails has written something, with a rule for each way to build one.
-- - Tests: the libraries of a small concrete Env, and the theorems on concrete inputs.
--
-- How they work together: an input loop parses a line to words (Lexer) and gives them to
-- processCommandline (Dispatch), which looks the first word up in the table, checks the number of
-- the words and calls the handler (Commands). The handler looks its system up (Lookup), calls the
-- libraries (Env) and writes its result or its error (Output). All of it changes one Session.
--
-- Names are those of the sources in lower case with underscores: changeStateMethod is
-- change_state_method. Assertions are compiled out, as in a release build. processCommandline on no
-- word at all, a token behind the last one and a null pointer that is followed are undefined
-- behaviour.
--
-- Bounds: parse_words runs on rounds, one more than the line has characters, which a theorem shows to
-- be enough. traverse_properties runs on rounds that are an argument of the commands, since the tree
-- of the properties is the library's and the recursion of the code has no bound; where they are not
-- enough the outcome is `unfinished`, and a theorem gives rounds that are enough for a tree that ends.
--
-- Not modelled: the acceptor and the notes on the console of src/fep_control_tool/fep_control_tool.cpp,
-- the interleaving of the steps within one command, the mutex around the sink, the pause behind the last
-- message of a connection, and src/fep_control_tool/linenoise, which is a library of another project.
pub mod Prelude
pub mod Quoting
pub mod Lexer
pub mod States
pub mod Effect
pub mod Numbers
pub mod Env
pub mod SystemMap
pub mod Session
pub mod Output
pub mod Lookup
pub mod PropertyPath
pub mod CommandTable
pub mod Commands
pub mod Dispatch
pub mod Interactive
pub mod Completion
pub mod Program
pub mod Server
pub mod Websocket
mod Tests
