-- ===== src/Output/Reports.antt =====
-- A judgement on actions: an action that returns a value which stands for a failure has written something.
-- There is one rule for each way to build an action.
use fep3_base_utilities.Prelude.{
  ℕ, ◌≤◌, ◌<◌, Bool, true, false, not, Option, none, some, List, [], ◌∷◌, ◌++◌, ◌≡◌, refl,
  Bool-cases, inl, inr, Text, length, length-append, if◌then◌else◌, arith,
}
use fep3_base_utilities.Effect.{
  Outcome, value, raised, exited, faulted, unfinished, pure, raise, stop_process, gets, try_catch,
  recover, go_on, ◌>>=◌,
}
use fep3_base_utilities.Effect.Runs.{
  Runs, Runs-pure, Runs-raise, Runs-stop_process, Runs-if, Runs-try_catch, Runs-bind,
}
use fep3_base_utilities.Env.{Env}
use fep3_base_utilities.Session.{State, Action, write_output}
use fep3_base_utilities.Session.Moves.{IsSessionFlow, Resets, UsesProperties, Runs-write_any}
use fep3_base_utilities.Output.{CmdStatus, write_error, write_exception}
use fep3_base_utilities.Output.Moves.{Runs-write_error, Runs-write_exception}

module _ ⦃env : Env⦄ where
  -- The number of texts that a session has written.
  abbrev pub written : State → ℕ
  written s = length s.output

  abbrev pub Longer : State → State → Type 0
  Longer s t = written s ≤ written t

  pub Longer-moves : IsSessionFlow Longer
  Longer-moves = record {
    flow = record { same = λ s. omega arith; join = λ p q. omega arith };
    acted = λ s w. omega arith;
    printed = λ s text doc. omega (arith, length-append s.output (text ∷ []));
    remembered = λ s name. omega arith;
    assigned = λ s name system. omega arith;
    emplaced = λ s name system. omega arith;
    auto_set = λ s b. omega arith;
  }

  pub Longer-resets : Resets Longer
  Longer-resets = record {
    modes = λ b s. omega arith;
    forgets = record { erased = λ s name. omega arith; cleared = λ s. omega arith };
  }

  pub Longer-uses : UsesProperties Longer
  Longer-uses participant s path h = omega arith

  pub record Reports {A : Type 0} (fails : A → Bool) (m : Action A) : Type 0 where
    pub runs : Runs Longer m
    pub told :
        (s : State) (a : A) → (m s).0 ≡ value a → fails a ≡ true → written s < written (m s).1

  -- The values that stand for a failure: false, the end of a search, any value.
  abbrev pub is_none : {A : Type 0} → Option A → Bool
  is_none none = true
  is_none (some a) = false

  abbrev pub always : {A : Type 0} → A → Bool
  always a = true

  module _ {A : Type 0} (fails : A → Bool) where
    pub Reports-pure : (a : A) → fails a ≡ false → Reports fails (pure a)
    unfolding pure
    Reports-pure a h = record {
      runs = Runs-pure Longer-moves.flow a;
      told = λ s b e f. let same : fails a ≡ fails b = cc in cc;
    }

    pub Reports-raise : (what : Text) → Reports fails (raise what)
    unfolding raise
    Reports-raise what = record { runs = Runs-raise Longer-moves.flow what; told = λ s b e f. cc }

    pub Reports-stop_process : (n : ℕ) → Reports fails (stop_process n)
    unfolding stop_process
    Reports-stop_process n = record {
      runs = Runs-stop_process Longer-moves.flow n;
      told = λ s b e f. cc;
    }

    pub Reports-if :
        (b : Bool) (m n : Action A)
        → Reports fails m
        → Reports fails n
        → Reports fails (if b then m else n)
    Reports-if true m n hm hn = hm
    Reports-if false m n hm hn = hn

    recover_told :
        (r : Outcome A) (handle : Text → Action A) (s t : State) (a : A)
        → ((b : A) → r ≡ value b → fails b ≡ true → written s < written t)
        → written s ≤ written t
        → ((what : Text) → Reports fails (handle what))
        → (recover r handle t).0 ≡ value a
        → fails a ≡ true
        → written s < written (recover r handle t).1
    recover_told (value b) handle s t a told longer h e f = told a e f
    recover_told (raised what) handle s t a told longer h e f =
        omega (arith, longer, (h what).told t a e f)
    recover_told (exited n) handle s t a told longer h e f = cc
    recover_told faulted handle s t a told longer h e f = cc
    recover_told unfinished handle s t a told longer h e f = cc

    pub Reports-try_catch :
        (m : Action A) (handle : Text → Action A)
        → Reports fails m
        → ((what : Text) → Reports fails (handle what))
        → Reports fails (try_catch m handle)
    unfolding try_catch
    Reports-try_catch m handle hm hh = record {
      runs = Runs-try_catch Longer-moves.flow m handle hm.runs (λ what. (hh what).runs);
      told =
          λ s a e f. recover_told (m s).0 handle s (m s).1 a (hm.told s) (hm.runs.along s) hh e f;
    }

  module _ {A B : Type 0} where
    go_on_told :
        (early : A → Bool) (fails : B → Bool) (r : Outcome A) (k : A → Action B) (s t : State)
        (b : B)
        → ((a : A) → r ≡ value a → early a ≡ true → written s < written t)
        → written s ≤ written t
        → ((a : A) → Runs Longer (k a))
        → ((a : A) → early a ≡ false → Reports fails (k a))
        → (go_on r k t).0 ≡ value b
        → fails b ≡ true
        → written s < written (go_on r k t).1
    go_on_told early fails (value a) k s t b told longer runs later e f =
        elim (Bool-cases (early a)) [
          | inl h ↦ omega (arith, told a refl h, (runs a).along t)
          | inr h ↦ omega (arith, longer, (later a h).told t b e f)
        ]
    go_on_told early fails (raised what) k s t b told longer runs later e f = cc
    go_on_told early fails (exited n) k s t b told longer runs later e f = cc
    go_on_told early fails faulted k s t b told longer runs later e f = cc
    go_on_told early fails unfinished k s t b told longer runs later e f = cc

    -- If the first action fails early, and that is told, the second one need not tell it.
    pub Reports-bind_early :
        (early : A → Bool) (fails : B → Bool) (m : Action A) (k : A → Action B)
        → Reports early m
        → ((a : A) → Runs Longer (k a))
        → ((a : A) → early a ≡ false → Reports fails (k a))
        → Reports fails (m >>= k)
    unfolding ◌>>=◌
    Reports-bind_early early fails m k hm runs later = record {
      runs = unfold ◌>>=◌ in Runs-bind Longer-moves.flow m k hm.runs runs;
      told = λ s b e f.
          go_on_told early fails (m s).0 k s (m s).1 b (hm.told s) (hm.runs.along s) runs later e f;
    }

    pub Reports-bind :
        (fails : B → Bool) (m : Action A) (k : A → Action B)
        → Runs Longer m
        → ((a : A) → Reports fails (k a))
        → Reports fails (m >>= k)
    Reports-bind fails m k runs h =
        Reports-bind_early (λ a. false) fails m k (record { runs = runs; told = λ s a e f. cc })
          (λ a. (h a).runs) (λ a _. h a)

    -- What was told once is told.
    pub Reports-told :
        (fails : B → Bool) (m : Action A) (k : A → Action B)
        → Reports always m
        → ((a : A) → Runs Longer (k a))
        → Reports fails (m >>= k)
    Reports-told fails m k h runs = Reports-bind_early always fails m k h runs (λ a e. cc)

  return_late :
      (b : Bool) (done missing : Action Bool)
      → Reports not done
      → not b ≡ false
      → Reports not (if b then done else missing)
  return_late true done missing h e = h
  return_late false done missing h e = cc

  -- The early return of false.
  pub Reports-return :
      (m done missing : Action Bool)
      → Reports not m
      → Reports not done
      → Runs Longer missing
      → Reports not (m >>= λ b. if b then done else missing)
  Reports-return m done missing hm hd runs =
      Reports-bind_early not not m _ hm (λ b. Runs-if Longer-moves.flow b done missing hd.runs runs)
        (λ b. return_late b done missing hd)

  more : (xs : List Text) (x : Text) → length xs < length (xs ++ x ∷ [])
  more xs x = omega (arith, length-append xs (x ∷ []))

  written-write_error :
      (action error : Text) (status : CmdStatus) (reason : Text) (s : State)
      → written s < written (write_error action error status reason s).1
  unfolding write_error write_output pure gets ◌>>=◌
  written-write_error action error status reason s = grind (arith, more)

  written-write_exception :
      (action exception : Text) (status : CmdStatus) (what : Text) (s : State)
      → written s < written (write_exception action exception status what s).1
  unfolding write_exception write_output gets ◌>>=◌
  written-write_exception action exception status what s = grind (arith, more)

  pub Reports-write_error :
      (action error : Text) (status : CmdStatus) (reason : Text)
      → Reports always (write_error action error status reason)
  Reports-write_error action error status reason = record {
    runs = Runs-write_error Longer-moves action error status reason;
    told = λ s a e f. written-write_error action error status reason s;
  }

  pub Reports-write_exception :
      (action exception : Text) (status : CmdStatus) (what : Text)
      → Reports always (write_exception action exception status what)
  Reports-write_exception action exception status what = record {
    runs = Runs-write_exception Longer-moves action exception status what;
    told = λ s a e f. written-write_exception action exception status what s;
  }

  pub Runs-write_output : (text : Text) → Runs Longer (write_output text)
  Runs-write_output text =
      Runs-write_any (λ s text'. omega (arith, length-append s.output (text' ∷ []))) text

pub ruleset report_rules = (
  Runs-write_output, Reports-pure, Reports-raise, Reports-stop_process, Reports-if,
  Reports-try_catch, Reports-bind, Reports-told, Reports-return, Reports-write_error,
  Reports-write_exception, Longer-moves,
)
