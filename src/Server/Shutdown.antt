-- ===== src/Server/Shutdown.antt =====
-- How the websocket server ends.
use fep3_base_utilities.Prelude.{
  ℕ, zero, suc, ◌-◌, ◌≤◌, ◌<◌, Bool, true, false, none, some, List, [], ◌∷◌, ◌++◌, ◌≡◌, refl, ◌∙◌,
  ◌⊎◌, inl, inr, Text, codes, length, ◌==◌, ==_iff, if◌then◌else◌, arith, Bool-cases, Option-cases,
  ap, sym,
}
use fep3_base_utilities.Effect.{Outcome, value, raised, exited, faulted, unfinished, gets, ◌>>=◌}
use fep3_base_utilities.Env.{Env}
use fep3_base_utilities.Session.{State, write_output}
use fep3_base_utilities.Interactive.{write_shutdown_message}
use fep3_base_utilities.Server.{control, ControlEvent, ctrl_c, ctrl_close, ctrl_handler}
use fep3_base_utilities.Server.{
  MainStage, waiting, saying_bye, finished, main_returned, Process, update, run_in, main_turn,
  main_step, unless_ended, Ending, after_message, accepted, staged, messaged, unlisted, signalled,
  logged, Step, Reach, later, accept, fail, accept_failed, begin, message, leave, unlist, signal,
  log, turn,
}
use fep3_base_utilities.Server.Connections.{is_listed, is_unique}
use fep3_base_utilities.Server.Invariant.{Reach-Inv}
use fep3_base_utilities.Commands.Properties.Moves.{NeverNull}

-- The message at the shutdown.
abbrev pub goodbye : Bool → Text
goodbye json_mode =
    if json_mode then codes "{\"action\" : \"applicationShutdown\"}" else codes "bye"

module _ ⦃env : Env⦄ where
  open env use {World}

  -- main takes that many steps.
  pub main_steps : ℕ → Process → Process
  main_steps zero v = v
  main_steps (suc n) v = main_steps n (main_step v)

  main_step-going : (v : Process) → v.ending ≡ none → main_step v ≡ main_turn v.main v
  unfolding main_step
  main_step-going v h = ap (λ e. unless_ended e v (main_turn v.main v)) h

  main_step-ended : (v : Process) (e : Ending) → v.ending ≡ some e → main_step v ≡ v
  unfolding main_step
  main_step-ended v e h = ap (λ e. unless_ended e v (main_turn v.main v)) h

  -- What a session has written once main is through with these instances.
  abbrev pub said_to : List ℕ → ℕ → State → List Text
  said_to instances i s =
      if is_listed i instances then s.output ++ goodbye s.json_mode ∷ [] else s.output

  said_to-cons :
      (is : List ℕ) (i j : ℕ) (f : ℕ → State) (w : env.World)
      → is_listed i is ≡ false
      → said_to is j (
          update f i
            (record (f i) { world = w; output = (f i).output ++ goodbye (f i).json_mode ∷ [] })
            j)
        ≡ said_to (i ∷ is) j (f j)
  said_to-cons is i j f w h = elim (Bool-cases (i == j)) [
    | inl e ↦ rw e (rw (← (==_iff i j).0 e, h) refl)
    | inr e ↦ rw e refl
  ]

  saying_lem :
      (is : List ℕ) (v : Process)
      → is_unique is ≡ true
      → v.ending ≡ none
      → ((main_steps (suc (length is)) (record v { main = saying_bye is })).ending
          ≡ some main_returned)
        × ((i : ℕ)
            → ((main_steps (suc (length is)) (record v { main = saying_bye is })).session i).output
              ≡ said_to is i (v.session i))
  unfolding main_steps run_in write_shutdown_message write_output gets ◌>>=◌
  saying_lem [] v u going =
      let step = main_step-going (record v { main = saying_bye [] }) going in
      (ap (λ w. w.ending) step, λ i. ap (λ w. (w.session i).output) step)
  saying_lem (i ∷ is) v u going =
      let step = main_step-going (record v { main = saying_bye (i ∷ is) }) going in
      let (ends, says) =
        saying_lem is ((run_in i (write_shutdown_message true) v).1) (ground arith) going in
      let fresh : is_listed i is ≡ false = ground arith in
      (
        ap (λ w. (main_steps (suc (length is)) w).ending) step ∙ ends,
        λ j.
            ap (λ w. ((main_steps (suc (length is)) w).session j).output) step
            ∙ says j
            ∙ said_to-cons is i j v.session v.shared fresh,
      )

  if_true : {A : Type 0} (b : Bool) (x y : A) → b ≡ true → (if b then x else y) ≡ x
  if_true true x y h = refl
  if_true false x y h = cc

  main_turn-waiting :
      (stage : MainStage) (v : Process)
      → stage ≡ waiting
      → v.shutdown_requested ≡ true
      → main_turn stage v ≡ record v { main = saying_bye v.active_connections }
  main_turn-waiting waiting v e h = if_true v.shutdown_requested _ v h
  main_turn-waiting (saying_bye is) v e h = cc
  main_turn-waiting finished v e h = cc

  main_step-waiting :
      (v : Process)
      → v.main ≡ waiting
      → v.shutdown_requested ≡ true
      → v.ending ≡ none
      → main_step v ≡ record v { main = saying_bye v.active_connections }
  main_step-waiting v e h going = main_step-going v going ∙ main_turn-waiting v.main v e h

  -- Where main takes its steps alone, the process goes on being one that the threads can reach.
  Reach-main_step :
      {rounds : ℕ} {json_mode : Bool} {world : World} (v : Process)
      → Reach rounds json_mode world v
      → Reach rounds json_mode world (main_step v)
  Reach-main_step {rounds} {json_mode} {world} v r = elim (Option-cases v.ending) [
    | inl e ↦ later r e turn
    | inr (ending, e) ↦ rw (main_step-ended v ending e) r
  ]

  Reach-main_steps :
      {rounds : ℕ} {json_mode : Bool} {world : World} (n : ℕ) (v : Process)
      → Reach rounds json_mode world v
      → Reach rounds json_mode world (main_steps n v)
  unfolding main_steps
  Reach-main_steps zero v r = r
  Reach-main_steps (suc n) v r = Reach-main_steps n (main_step v) (Reach-main_step v r)

  -- From every state that the server reaches with the process going on, a shutdown requested and main
  -- still in its loop: if from there on main alone takes steps and the other threads take none, then
  -- within as many steps as there are connections and two more the server reaches a state in which main
  -- has returned; and by then each connection in the list has been sent the one message of the shutdown,
  -- in the mode of its session, and no other session has written anything. The configuration proxies
  -- have to hand out no null pointers.
  pub main_steps-goodbye :
      (never : NeverNull) {rounds : ℕ} {json_mode : Bool} {world : World} {v : Process}
      → Reach rounds json_mode world v
      → v.main ≡ waiting
      → v.shutdown_requested ≡ true
      → v.ending ≡ none
      → Reach rounds json_mode world (main_steps (suc (suc (length v.active_connections))) v)
        × ((main_steps (suc (suc (length v.active_connections))) v).ending ≡ some main_returned)
        × ((i : ℕ)
            → ((main_steps (suc (suc (length v.active_connections))) v).session i).output
              ≡ said_to v.active_connections i (v.session i))
  unfolding main_steps
  main_steps-goodbye never {rounds} {v = v} reached in_loop requested going =
      let after : main_step v ≡ record v { main = saying_bye v.active_connections } =
        main_step-waiting v in_loop requested going in
      let (ends, says) =
        saying_lem v.active_connections v (Reach-Inv never rounds reached).once going in
      (
        Reach-main_steps (suc (suc (length v.active_connections))) v reached,
        rw (after, main_steps) ends,
        rw (after, main_steps) says,
      )

  main-after_message :
      (i : ℕ) (r : Outcome (Unit {0})) (v : Process) → (after_message i r v).main ≡ v.main
  unfolding staged
  main-after_message i (value a) v = refl
  main-after_message i (raised what) v = refl
  main-after_message i (exited n) v = refl
  main-after_message i faulted v = refl
  main-after_message i unfinished v = refl

  main-ctrl_handler :
      (event : ControlEvent) (v : Process) → (ctrl_handler true event v).1.main ≡ v.main
  unfolding ctrl_handler signalled
  main-ctrl_handler ctrl_c v = refl
  main-ctrl_handler ctrl_close v = refl
  main-ctrl_handler _ v = refl

  -- A step is one of main, or leaves main where it stands.
  Step-main :
      {rounds : ℕ} {json_mode : Bool} {v w : Process}
      → Step rounds json_mode v w
      → (w ≡ main_step v) ⊎ (w.main ≡ v.main)
  unfolding accepted accept_failed staged messaged run_in unlisted signalled logged
  Step-main (accept e) = inr refl
  Step-main (fail e) = inr refl
  Step-main (begin i e) = inr refl
  Step-main {rounds} {v = v} (message i input e) = inr (main-after_message i _ _)
  Step-main (leave i e) = inr refl
  Step-main (unlist i e) = inr refl
  Step-main signal = inr refl
  Step-main {v = v} (control event) = inr (main-ctrl_handler event v)
  Step-main (log i level participant logger text e) = inr refl
  Step-main turn = inl refl

  -- A run of the process from one state to another, with the number of steps that are known to be main's.
  pub data Goes (rounds : ℕ) (json_mode : Bool) (v : Process) : ℕ → Process → Type 0 where
    stay : Goes rounds json_mode v zero v
    by_main :
        {n : ℕ} {w : Process}
        → Goes rounds json_mode v n w
        → w.ending ≡ none
        → Goes rounds json_mode v (suc n) (main_step w)
    by_any :
        {n : ℕ} {w x : Process}
        → Goes rounds json_mode v n w
        → w.ending ≡ none
        → Step rounds json_mode w x
        → Goes rounds json_mode v n x

  -- main is still at some of the instances, with no more of them left than this.
  abbrev Left : ℕ → MainStage → Type 0
  Left bound stage = (rest : List ℕ) × ((stage ≡ saying_bye rest) × (length rest ≤ bound))

  main_turn-saying :
      (stage : MainStage) (rest : List ℕ) (v : Process)
      → stage ≡ saying_bye rest
      → (main_turn stage v).ending ≡ none
      → Left (length rest - 1) (main_turn stage v).main × (0 < length rest)
  main_turn-saying waiting rest v e h = cc
  main_turn-saying finished rest v e h = cc
  main_turn-saying (saying_bye []) rest v e h = cc
  main_turn-saying (saying_bye (i ∷ is)) [] v e h = cc
  main_turn-saying (saying_bye (i ∷ is)) (j ∷ rest) v e h =
      let same : is ≡ rest = cc in ((is, (refl, rw same (omega arith))), omega arith)

  main_step-saying :
      (v : Process) (rest : List ℕ)
      → v.main ≡ saying_bye rest
      → (main_step v).ending ≡ none
      → Left (length rest - 1) (main_step v).main × (0 < length rest)
  main_step-saying v rest at_rest h = elim (Option-cases v.ending) [
    | inl e ↦
        let step = main_step-going v e in
        rw step (main_turn-saying v.main rest v at_rest (rw step at h))
    | inr (ending, e) ↦
        (let no : some ending ≡ none =
            sym e ∙ ap (λ w. w.ending) (sym (main_step-ended v ending e)) ∙ h in
          cc)
  ]

  Goes-Left :
      {rounds : ℕ} {json_mode : Bool} {v w : Process} {n : ℕ} (is : List ℕ)
      → v.main ≡ saying_bye is
      → Goes rounds json_mode v n w
      → w.ending ≡ none
      → (n ≤ length is) × Left (length is - n) w.main
  Goes-Left is e stay h = (omega arith, (is, (e, omega arith)))
  Goes-Left is e (by_main {w = w} g going) h =
      let (few, (rest, (at_rest, short))) = Goes-Left is e g going in
      let ((rest', (at_rest', short')), positive) = main_step-saying w rest at_rest h in
      (omega arith, (rest', (at_rest', omega arith)))
  Goes-Left is e (by_any {w = w} {x = x} g going st) h =
      let (few, (rest, (at_rest, short))) = Goes-Left is e g going in
      elim (Step-main st) [
        | inl p ↦
            let (rest', (at_rest', short')) = (main_step-saying w rest at_rest (rw p at h)).0 in
            (few, (rest', (rw p at_rest', omega arith)))
        | inr p ↦ (few, (rest, (p ∙ at_rest, short)))
      ]

  -- Once main is at the instances to which it writes, then whatever the other threads do in between,
  -- main takes at most as many steps as there are instances before the step in which it returns.
  pub Goes-le-length :
      {rounds : ℕ} {json_mode : Bool} {v w : Process} {n : ℕ} (is : List ℕ)
      → v.main ≡ saying_bye is
      → Goes rounds json_mode v n w
      → w.ending ≡ none
      → n ≤ length is
  Goes-le-length is e g h = (Goes-Left is e g h).0
