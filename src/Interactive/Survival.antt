-- ===== src/Interactive/Survival.antt =====
-- A websocket session outlives its commands.
use fep3_base_utilities.Prelude.{ℕ, Bool, false, List, [], ◌∷◌, Text, ◌≡◌, ◌≢◌, refl, arith}
use fep3_base_utilities.Numbers.{ℤ}
use fep3_base_utilities.Lexer.{parse_line}
use fep3_base_utilities.Effect.{
  Outcome, value, raised, exited, faulted, unfinished, pure, recover, go_on, try_catch, ◌>>=◌,
}
use fep3_base_utilities.Effect.Runs.{IsFlow, runs_rules, Runs, Runs-bind, Runs-pure, Runs-try_catch}
use fep3_base_utilities.Env.{Env}
use fep3_base_utilities.Session.{State, Action, new_session}
use fep3_base_utilities.Session.Moves.{
  IsSessionFlow, Resets, UsesProperties, PrintsAll, Runs-write_any,
}
use fep3_base_utilities.Output.{generic_error}
use fep3_base_utilities.Output.Values.{write_error-value}
use fep3_base_utilities.Output.Moves.{Runs-write_error}
use fep3_base_utilities.Commands.Properties.Moves.{NeverNull}
use fep3_base_utilities.Dispatch.{process_commandline}
use fep3_base_utilities.Dispatch.Moves.{Runs-process_commandline}
use fep3_base_utilities.Dispatch.Invariants.{
  ModesAgree, IsOrdered, Keeps-moves, Keeps-resets, Keeps-uses,
}
use fep3_base_utilities.Interactive.{execute_message, read_messages, write_shutdown_message}

module _ ⦃env : Env⦄ where
  -- The outcome is none that an exception makes.
  abbrev pub Survives : Outcome (Unit {0}) → Type 0
  Survives (raised what) = ⊥
  Survives _ = Unit

  -- A handler that returns leaves no exception.
  recover-Survives :
      (r : Outcome ℤ) (handle : Text → Action (Unit {0})) (t : State)
      → ((what : Text) (u : State) → (handle what u).0 ≡ value tt)
      → Survives (recover (go_on r (λ n. pure tt) t).0 handle (go_on r (λ n. pure tt) t).1).0
  unfolding pure
  recover-Survives (value n) handle t h = tt
  recover-Survives (raised what) handle t h = rw (h what t) tt
  recover-Survives (exited n) handle t h = tt
  recover-Survives faulted handle t h = tt
  recover-Survives unfinished handle t h = tt

  go_on-Survives :
      (r : Outcome (Unit {0})) (k : Action (Unit {0})) (t : State)
      → Survives r
      → ((u : State) → Survives (k u).0)
      → Survives (go_on r (λ _. k) t).0
  go_on-Survives (value a) k t h hk = hk t
  go_on-Survives (raised what) k t h hk = h
  go_on-Survives (exited n) k t h hk = tt
  go_on-Survives faulted k t h hk = tt
  go_on-Survives unfinished k t h hk = tt

  module _ (rounds : ℕ) where
    pub execute_message-Survives :
        (words : List Text) (s : State) → Survives (execute_message rounds words s).0
    unfolding execute_message pure try_catch ◌>>=◌
    execute_message-Survives [] s = tt
    execute_message-Survives (word ∷ words) s =
        let (r, t) = process_commandline rounds (word ∷ words) s in
        recover-Survives r _ t (λ what u. write_error-value word what generic_error [] u)

    -- Whatever a client sends and whatever the libraries throw meanwhile, no exception ends the loop
    -- over the messages of the connection.
    pub read_messages-Survives :
        (inputs : List Text) (s : State) → Survives (read_messages rounds inputs s).0
    unfolding read_messages pure ◌>>=◌
    read_messages-Survives [] s = tt
    read_messages-Survives (input ∷ inputs) s =
        let (r, t) = execute_message rounds (parse_line input false) s in
        go_on-Survives r _ t (execute_message-Survives (parse_line input false) s)
          (read_messages-Survives inputs)

  pub Runs-write_shutdown_message :
      {R : State → State → Type 0}
      → IsFlow R
      → PrintsAll R
      → (websocket : Bool) → Runs R (write_shutdown_message websocket)
  unfolding write_shutdown_message
  Runs-write_shutdown_message flow prints websocket = search (runs_rules, Runs-write_any)

  module _ (never : NeverNull) (rounds : ℕ) {R : State → State → Type 0} (moves : IsSessionFlow R)
      (resets : Resets R) (uses : UsesProperties R) where
    pub Runs-execute_message : (words : List Text) → Runs R (execute_message rounds words)
    unfolding execute_message
    Runs-execute_message [] = Runs-pure moves.flow tt
    Runs-execute_message (word ∷ words) =
        Runs-try_catch moves.flow _ _
          (Runs-bind moves.flow _ _
            (Runs-process_commandline moves rounds never resets uses (word ∷ words) (omega arith))
            (λ n. Runs-pure moves.flow tt))
          (λ what. Runs-write_error moves _ _ _ _)

    Runs-read_messages : (inputs : List Text) → Runs R (read_messages rounds inputs)
    unfolding read_messages
    Runs-read_messages [] = Runs-pure moves.flow tt
    Runs-read_messages (input ∷ inputs) =
        Runs-bind moves.flow _ _ (Runs-execute_message (parse_line input false))
          (λ _. Runs-read_messages inputs)

  module _ (never : NeverNull) (rounds : ℕ) (inputs : List Text) (json_mode : Bool)
      (world : env.World) where
    abbrev finished : Outcome (Unit {0}) × State
    finished = read_messages rounds inputs (new_session json_mode world)

    -- From the start of a connection, whatever the client sends: nothing undefined happens, the log
    -- monitor is in the mode of the tool, and each known system stands once, in the order of the keys,
    -- if the configuration proxies hand out no null pointers.
    pub read_messages-new_session :
        (finished.0 ≢ faulted) × ModesAgree finished.1 × IsOrdered finished.1
    read_messages-new_session =
        let runs = Runs-read_messages never rounds Keeps-moves Keeps-resets Keeps-uses inputs in
        let start = new_session json_mode world in
        (runs.defined start, (runs.along start).modes refl, (runs.along start).ordered refl)
