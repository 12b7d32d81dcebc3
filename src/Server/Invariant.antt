-- ===== src/Server/Invariant.antt =====
-- What holds in every state that the websocket server reaches.
use fep3_base_utilities.Prelude.{
  ℕ, ◌≤◌, Bool, true, false, Option, some, [], ◌∷◌, ◌≡◌, ◌≢◌, refl, Text, ◌==◌, if◌then◌else◌,
  arith, Bool-cases, inl, inr, none, length,
}
use fep3_base_utilities.Lexer.{parse_line}
use fep3_base_utilities.Effect.{Outcome, value, raised, exited, faulted, unfinished}
use fep3_base_utilities.Effect.Runs.{Runs}
use fep3_base_utilities.Env.{Env}
use fep3_base_utilities.Session.{Action, new_session}
use fep3_base_utilities.Output.{on_log}
use fep3_base_utilities.Output.Moves.{Runs-on_log}
use fep3_base_utilities.Commands.Properties.Moves.{NeverNull}
use fep3_base_utilities.Dispatch.Invariants.{
  ModesAgree, IsOrdered, Keeps, Keeps-moves, Keeps-resets, Keeps-uses, Keeps-prints,
}
use fep3_base_utilities.Interactive.{execute_message, write_shutdown_message}
use fep3_base_utilities.Interactive.Survival.{
  Survives, execute_message-Survives, Runs-execute_message, Runs-write_shutdown_message,
}
use fep3_base_utilities.Server.Connections.{
  is_listed, is_unique, is_listed-add, is_unique-add, is_listed-remove, is_unique-remove,
}
use fep3_base_utilities.Server.{
  Stage, absent, reading, left, hanging, MainStage, waiting, saying_bye, finished, Ending,
  main_returned, exit_called, terminated, undefined_behaviour, dangling_sockets, unless_ended,
  update, Process, starting, accepted, staged, after_message, run_in, messaged, unlisted, signalled,
  logged, main_turn, main_step, is_alive, Step, accept, fail, accept_failed, begin, message, leave,
  unlist, signal, control, log, turn, ControlEvent, ctrl_c, ctrl_close, ctrl_handler, Reach, start,
  later,
}

-- What holds of all values and of the new one holds behind the update.
pub update-all :
    {A : Type 0} (P : A → Type 0) (f : ℕ → A) (i : ℕ) (a : A)
    → P a
    → ((j : ℕ) → P (f j))
    → (j : ℕ) → P (update f i a j)
update-all P f i a h hs j = elim (Bool-cases (i == j)) [ inl e ↦ rw e h | inr e ↦ rw e (hs j) ]

module _ ⦃env : Env⦄ where
  open env use {World}

  -- The process was not ended by an exception that left a thread, and has no undefined behaviour in a
  -- command; sockets lose their io_context only where the acceptor has thrown.
  abbrev pub IsClean : Bool → Option Ending → Type 0
  IsClean listening (some terminated) = ⊥
  IsClean listening (some undefined_behaviour) = ⊥
  IsClean listening (some dangling_sockets) = listening ≡ false
  IsClean listening _ = Unit

  pub record Inv (v : Process) : Type 0 where
    -- the list holds the instances whose threads are not yet through, each once
    pub listed : (i : ℕ) → is_listed i v.active_connections ≡ is_alive (v.stage i)
    pub once : is_unique v.active_connections ≡ true
    pub unborn : (i : ℕ) → v.instances ≤ i → v.stage i ≡ absent
    -- every session is as a command line needs it
    pub agree : (i : ℕ) → ModesAgree (v.session i)
    pub ordered : (i : ℕ) → IsOrdered (v.session i)
    pub clean : IsClean v.listening v.ending

  Inv-starting : (json_mode : Bool) (world : World) → Inv (starting json_mode world)
  Inv-starting json_mode world = record {
    listed = λ i. refl;
    once = refl;
    unborn = λ i h. refl;
    agree = λ i. refl;
    ordered = λ i. refl;
    clean = tt;
  }

  Inv-accepted : (json_mode : Bool) (v : Process) → Inv v → Inv (accepted json_mode v)
  unfolding accepted
  Inv-accepted json_mode v inv = record {
    listed = λ i. ground (arith, is_listed-add i v.instances v.active_connections, inv.listed i);
    once =
        is_unique-add v.instances v.active_connections
          (ground (arith, inv.listed v.instances, inv.unborn v.instances)) inv.once;
    unborn = λ i h. ground (arith, inv.unborn i);
    agree =
        update-all ModesAgree v.session v.instances (new_session json_mode v.shared) refl inv.agree;
    ordered =
        update-all IsOrdered v.session v.instances (new_session json_mode v.shared) refl
          inv.ordered;
    clean = inv.clean;
  }

  IsClean-accept_failed :
      (b listening : Bool) (ending : Option Ending)
      → IsClean listening ending
      → IsClean false (if b then ending else some dangling_sockets)
  IsClean-accept_failed false listening ending h = refl
  IsClean-accept_failed true listening none h = tt
  IsClean-accept_failed true listening (some main_returned) h = tt
  IsClean-accept_failed true listening (some (exit_called n)) h = tt
  IsClean-accept_failed true listening (some terminated) h = absurd h
  IsClean-accept_failed true listening (some undefined_behaviour) h = absurd h
  IsClean-accept_failed true listening (some dangling_sockets) h = refl

  Inv-accept_failed : (v : Process) → Inv v → Inv (accept_failed v)
  unfolding accept_failed
  Inv-accept_failed v inv = record {
    listed = inv.listed;
    once = inv.once;
    unborn = inv.unborn;
    agree = inv.agree;
    ordered = inv.ordered;
    clean = IsClean-accept_failed (length v.active_connections == 0) v.listening v.ending inv.clean;
  }

  -- A stage that is neither the first nor the last is changed to such a stage.
  Inv-staged :
      (i : ℕ) (st : Stage) (v : Process)
      → is_alive (v.stage i) ≡ true
      → is_alive st ≡ true
      → Inv v
      → Inv (staged i st v)
  unfolding staged
  Inv-staged i st v before after inv = record {
    listed = λ j. ground (arith, inv.listed j);
    once = inv.once;
    unborn = λ j h. ground (arith, inv.unborn j);
    agree = inv.agree;
    ordered = inv.ordered;
    clean = inv.clean;
  }

  Inv-unlisted : (i : ℕ) (v : Process) → v.stage i ≡ left → Inv v → Inv (unlisted i v)
  unfolding unlisted
  Inv-unlisted i v before inv = record {
    listed = λ j. ground (arith, is_listed-remove j i v.active_connections, inv.listed j);
    once = is_unique-remove i v.active_connections inv.once;
    unborn = λ j h. ground (arith, inv.unborn j);
    agree = inv.agree;
    ordered = inv.ordered;
    clean = inv.clean;
  }

  -- What a method of one instance does that keeps a session well-formed.
  Inv-run_in :
      {A : Type 0} (i : ℕ) (m : Action A) (v : Process)
      → Runs Keeps m
      → Inv v
      → Inv (run_in i m v).1
  unfolding run_in
  Inv-run_in i m v runs inv = record {
    listed = inv.listed;
    once = inv.once;
    unborn = inv.unborn;
    agree =
        update-all ModesAgree v.session i (m (record (v.session i) { world = v.shared })).1
          ((runs.along (record (v.session i) { world = v.shared })).modes (inv.agree i)) inv.agree;
    ordered =
        update-all IsOrdered v.session i (m (record (v.session i) { world = v.shared })).1
          ((runs.along (record (v.session i) { world = v.shared })).ordered (inv.ordered i))
          inv.ordered;
    clean = inv.clean;
  }

  -- What main and the signals change.
  Inv-with :
      (requested : Bool) (main : MainStage) (ending : Option Ending) (v : Process)
      → IsClean v.listening ending
      → Inv v
      → Inv (record v { shutdown_requested = requested; main = main; ending = ending })
  Inv-with requested main ending v clean inv = record {
    listed = inv.listed;
    once = inv.once;
    unborn = inv.unborn;
    agree = inv.agree;
    ordered = inv.ordered;
    clean = clean;
  }

  Inv-unless_ended : (e : Option Ending) (v w : Process) → Inv v → Inv w → Inv (unless_ended e v w)
  Inv-unless_ended none v w hv hw = hw
  Inv-unless_ended (some e) v w hv hw = hv

  Inv-if : (b : Bool) (v w : Process) → Inv v → Inv w → Inv (if b then v else w)
  Inv-if true v w hv hw = hv
  Inv-if false v w hv hw = hw

  Inv-after_message :
      (i : ℕ) (r : Outcome (Unit {0})) (v : Process)
      → Survives r
      → r ≢ faulted
      → is_alive (v.stage i) ≡ true
      → Inv v
      → Inv (after_message i r v)
  Inv-after_message i (value a) v h d alive inv = inv
  Inv-after_message i (raised what) v h d alive inv = absurd h
  Inv-after_message i (exited n) v h d alive inv =
      Inv-with v.shutdown_requested v.main (some (exit_called n)) v tt inv
  Inv-after_message i faulted v h d alive inv = absurd (d refl)
  Inv-after_message i unfinished v h d alive inv = Inv-staged i hanging v alive refl inv

  module _ (never : NeverNull) (rounds : ℕ) where
    Inv-messaged :
        (i : ℕ) (input : Text) (v : Process)
        → v.stage i ≡ reading
        → Inv v
        → Inv (messaged rounds i input v)
    unfolding messaged run_in
    Inv-messaged i input v before inv =
        let words = parse_line input false in
        let s = record (v.session i) { world = v.shared } in
        let runs = Runs-execute_message never rounds Keeps-moves Keeps-resets Keeps-uses words in
        let moved : Inv (run_in i (execute_message rounds words) v).1 =
          Inv-run_in i (execute_message rounds words) v runs inv in
        let alive : is_alive (v.stage i) ≡ true = rw before refl in
        Inv-after_message i (execute_message rounds words s).0
          (run_in i (execute_message rounds words) v).1 (execute_message-Survives rounds words s)
          (runs.defined s) alive moved

    Inv-main_turn : (stage : MainStage) (v : Process) → Inv v → Inv (main_turn stage v)
    Inv-main_turn waiting v inv =
        Inv-if v.shutdown_requested _ v
          (Inv-with v.shutdown_requested (saying_bye v.active_connections) v.ending v inv.clean inv)
          inv
    Inv-main_turn (saying_bye []) v inv =
        Inv-with v.shutdown_requested finished (some main_returned) v tt inv
    Inv-main_turn (saying_bye (i ∷ is)) v inv =
        let told = (run_in i (write_shutdown_message true) v).1 in
        let runs = Runs-write_shutdown_message Keeps-moves.flow Keeps-prints true in
        let moved : Inv told = Inv-run_in i (write_shutdown_message true) v runs inv in
        Inv-with told.shutdown_requested (saying_bye is) told.ending told moved.clean moved
    Inv-main_turn finished v inv = inv

    Inv-ctrl_handler :
        (event : ControlEvent) (v : Process) → Inv v → Inv (ctrl_handler true event v).1
    unfolding ctrl_handler signalled
    Inv-ctrl_handler ctrl_c v inv = Inv-with true v.main v.ending v inv.clean inv
    Inv-ctrl_handler ctrl_close v inv = Inv-with true v.main v.ending v inv.clean inv
    Inv-ctrl_handler _ v inv = inv

    Step-Inv : {json_mode : Bool} {v w : Process} → Step rounds json_mode v w → Inv v → Inv w
    unfolding signalled logged main_step
    Step-Inv {json_mode} {v} (accept e) inv = Inv-accepted json_mode v inv
    Step-Inv {json_mode} {v} (fail e) inv = Inv-accept_failed v inv
    Step-Inv {json_mode} {v} (begin i e) inv = Inv-staged i reading v (rw e refl) refl inv
    Step-Inv {json_mode} {v} (message i input e) inv = Inv-messaged i input v e inv
    Step-Inv {json_mode} {v} (leave i e) inv = Inv-staged i left v (rw e refl) refl inv
    Step-Inv {json_mode} {v} (unlist i e) inv = Inv-unlisted i v e inv
    Step-Inv {json_mode} {v} signal inv = Inv-with true v.main v.ending v inv.clean inv
    Step-Inv {json_mode} {v} (control event) inv = Inv-ctrl_handler event v inv
    Step-Inv {json_mode} {v} (log i level participant logger text e) inv =
        Inv-run_in i (on_log level participant logger text) v
          (Runs-on_log Keeps-moves.flow Keeps-prints level participant logger text) inv
    Step-Inv {json_mode} {v} turn inv =
        Inv-unless_ended v.ending v (main_turn v.main v) inv (Inv-main_turn v.main v inv)

    -- In every state that the server reaches, whatever the clients send, in whatever order the threads take
    -- their steps and whatever the libraries answer: the list holds just the instances whose threads are
    -- not yet through, each once; no number that was not given to an instance has a thread; in every
    -- session the log monitor is in the mode of the tool and the known systems are in order; and the
    -- process was not ended by an exception and has no undefined behaviour in a command, and sockets
    -- lose their io_context only where the acceptor has thrown. The configuration proxies have to hand
    -- out no null pointers.
    pub Reach-Inv :
        {json_mode : Bool} {world : World} {v : Process} → Reach rounds json_mode world v → Inv v
    Reach-Inv {json_mode} {world} start = Inv-starting json_mode world
    Reach-Inv (later r going step) = Step-Inv step (Reach-Inv r)
