-- ===== src/Server/Documents.antt =====
-- What the clients of a server in the JSON mode are sent.
use fep3_base_utilities.Prelude.{
  All-append, if◌then◌else◌, ℕ, Bool, true, false, ◌⊎◌, inl, inr, List, [], ◌∷◌, ◌≡◌, refl, sym,
  ◌∙◌, Text, codes, All,
}
use fep3_base_utilities.Prelude.{Option, none, some}
use fep3_base_utilities.Lexer.{parse_line}
use fep3_base_utilities.Effect.{Outcome, value, raised, exited, faulted, unfinished, gets, ◌>>=◌}
use fep3_base_utilities.Env.{Env}
use fep3_base_utilities.Session.{State, Action, new_session, write_output}
use fep3_base_utilities.Session.Moves.{IsDocument, compact}
use fep3_base_utilities.Output.{on_log}
use fep3_base_utilities.Commands.Properties.Moves.{NeverNull}
use fep3_base_utilities.Dispatch.Invariants.{Keeps-moves, Keeps-resets, Keeps-uses}
use fep3_base_utilities.Dispatch.Documents.{Speaks}
use fep3_base_utilities.Interactive.{execute_message, write_shutdown_message}
use fep3_base_utilities.Interactive.Survival.{Runs-execute_message}
use fep3_base_utilities.Interactive.Documents.{StaysJson, Runs-execute_message-Speaks}
use fep3_base_utilities.Server.{
  MainStage, waiting, saying_bye, finished, Process, accepted, after_message, run_in, messaged,
  logged, main_turn, main_step, unless_ended, Ending, Step, accept, fail, accept_failed, begin,
  message, leave, unlist, signal, control, log, turn, ctrl_c, ctrl_close, ctrl_handler, Reach,
  start, later, signalled, staged, unlisted,
}
use fep3_base_utilities.Server.Invariant.{update-all}

module _ ⦃env : Env⦄ where
  open env use {World}

  -- A JSON document with a line feed, or the last message, which has none.
  abbrev pub IsSaid : Text → Type 0
  IsSaid text = IsDocument text ⊎ (text ≡ codes "{\"action\" : \"applicationShutdown\"}")

  -- In both JSON modes, and nothing else was written.
  pub record Pure (s : State) : Type 0 where
    pub json : s.json_mode ≡ true
    pub monitor : s.monitor_json_mode ≡ true
    pub said : All IsSaid s.output

  All-IsSaid : (texts : List Text) → All IsDocument texts → All IsSaid texts
  All-IsSaid [] h = tt
  All-IsSaid (text ∷ texts) (h, hs) = (inl h, All-IsSaid texts hs)

  Pure-on_log :
      (level : ℕ) (participant logger text : Text) (s : State)
      → Pure s
      → Pure (on_log level participant logger text s).1
  unfolding on_log write_output gets ◌>>=◌
  Pure-on_log level participant logger text s h = rw h.monitor (record {
    json = h.json;
    monitor = refl;
    said = All-append IsSaid s.output _ h.said (inl (compact _), tt);
  })

  Pure-write_shutdown_message : (s : State) → Pure s → Pure (write_shutdown_message true s).1
  unfolding write_shutdown_message write_output gets ◌>>=◌
  Pure-write_shutdown_message s h = rw h.json (record {
    json = refl;
    monitor = h.monitor;
    said = All-append IsSaid s.output _ h.said (inr refl, tt);
  })

  Pure-execute_message :
      NeverNull
      → (rounds : ℕ) (words : List Text) (s : State) → StaysJson words
      → Pure s
      → Pure (execute_message rounds words s).1
  unfolding Speaks
  Pure-execute_message never rounds words s stays h =
      let spoke = (Runs-execute_message-Speaks never rounds words stays).along s h.json in
      let keeps =
        (Runs-execute_message never rounds Keeps-moves Keeps-resets Keeps-uses words).along s in
      record {
        json = spoke.stays_json;
        monitor = keeps.modes (h.monitor ∙ sym h.json) ∙ spoke.stays_json;
        said = rw spoke.appended (
            All-append IsSaid s.output spoke.added h.said (All-IsSaid spoke.added spoke.documents));
      }

  AllPure : Process → Type 0
  AllPure v = (i : ℕ) → Pure (v.session i)

  Pure-world : (w : World) (s : State) → Pure s → Pure (record s { world = w })
  Pure-world w s h = record { json = h.json; monitor = h.monitor; said = h.said }

  AllPure-run_in :
      {A : Type 0} (i : ℕ) (m : Action A) (v : Process)
      → ((s : State) → Pure s → Pure (m s).1)
      → AllPure v
      → AllPure (run_in i m v).1
  unfolding AllPure run_in
  AllPure-run_in i m v keeps h =
      update-all Pure v.session i _ (keeps _ (Pure-world v.shared (v.session i) (h i))) h

  AllPure-after_message :
      (i : ℕ) (r : Outcome (Unit {0})) (v : Process) → AllPure v → AllPure (after_message i r v)
  unfolding AllPure staged
  AllPure-after_message i (value a) v h = h
  AllPure-after_message i (raised what) v h = h
  AllPure-after_message i (exited n) v h = h
  AllPure-after_message i faulted v h = h
  AllPure-after_message i unfinished v h = h

  AllPure-if : (b : Bool) (v w : Process) → AllPure v → AllPure w → AllPure (if b then v else w)
  AllPure-if true v w hv hw = hv
  AllPure-if false v w hv hw = hw

  AllPure-main_turn : (stage : MainStage) (v : Process) → AllPure v → AllPure (main_turn stage v)
  unfolding AllPure
  AllPure-main_turn waiting v h = AllPure-if v.shutdown_requested _ v h h
  AllPure-main_turn (saying_bye []) v h = h
  AllPure-main_turn (saying_bye (i ∷ is)) v h =
      AllPure-run_in i (write_shutdown_message true) v Pure-write_shutdown_message h
  AllPure-main_turn finished v h = h

  AllPure-unless_ended :
      (e : Option Ending) (v w : Process) → AllPure v → AllPure w → AllPure (unless_ended e v w)
  AllPure-unless_ended none v w hv hw = hw
  AllPure-unless_ended (some e) v w hv hw = hv

  -- No message of the step leaves the JSON mode.
  abbrev pub KeepsJson :
      {rounds : ℕ} {json_mode : Bool} {v w : Process} → Step rounds json_mode v w → Type 0
  KeepsJson (message i input e) = StaysJson (parse_line input false)
  KeepsJson _ = Unit

  abbrev pub NeverPlain :
      {rounds : ℕ} {json_mode : Bool} {world : World} {v : Process}
      → Reach rounds json_mode world v
      → Type 0
  NeverPlain start = Unit
  NeverPlain (later r going step) = NeverPlain r × KeepsJson step

  module _ (never : NeverNull) (rounds : ℕ) where
    Step-AllPure :
        {v w : Process} (step : Step rounds true v w) → KeepsJson step → AllPure v → AllPure w
    unfolding AllPure accept_failed signalled staged unlisted logged messaged accepted main_step
        ctrl_handler
    Step-AllPure {v} (accept e) k h =
        update-all Pure v.session v.instances (new_session true v.shared)
          (record { json = refl; monitor = refl; said = tt }) h
    Step-AllPure (fail e) k h = h
    Step-AllPure (begin i e) k h = h
    Step-AllPure {v} (message i input e) k h =
        let words = parse_line input false in
        AllPure-after_message i _ _ (
          AllPure-run_in i (execute_message rounds words) v
            (λ s. Pure-execute_message never rounds words s k) h)
    Step-AllPure (leave i e) k h = h
    Step-AllPure (unlist i e) k h = h
    Step-AllPure signal k h = h
    Step-AllPure (control ctrl_c) k h = h
    Step-AllPure (control ctrl_close) k h = h
    Step-AllPure (control _) k h = h
    Step-AllPure {v} (log i level participant logger text e) k h =
        AllPure-run_in i (on_log level participant logger text) v
          (Pure-on_log level participant logger text) h
    Step-AllPure {v} turn k h =
        AllPure-unless_ended v.ending v (main_turn v.main v) h (AllPure-main_turn v.main v h)

    -- In every state that a server in the JSON mode reaches, in whatever order the threads take their steps,
    -- if no client has sent disableJson: every connection is in the JSON mode, its log monitor too, and what
    -- it has written, the log messages and the last message included, are JSON documents, all but the last
    -- message with a line feed. The configuration proxies have to hand out no null pointers.
    pub Reach-Pure :
        {world : World} {v : Process} (reach : Reach rounds true world v)
        → NeverPlain reach
        → (i : ℕ) → Pure (v.session i)
    unfolding AllPure
    Reach-Pure start k i = record { json = refl; monitor = refl; said = tt }
    Reach-Pure (later r going step) (ks, k) i = Step-AllPure step k (Reach-Pure r ks) i
