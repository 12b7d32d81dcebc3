-- ===== src/Effect/Runs.antt =====
-- A judgement on actions with one rule for each way to build an action: whatever the action does, the
-- state changes along a relation, and nothing undefined happens.
use fep3_base_utilities.Prelude.{
  ℕ, ◌<◌, Bool, true, false, Option, none, some, List, [], ◌∷◌, Text, ◌≡◌, ◌≢◌, refl, if◌then◌else◌,
  arith, length, get_elem?,
}
use fep3_base_utilities.Effect.{
  Effect, Outcome, value, raised, exited, faulted, unfinished, pure, raise, stop_process, gets,
  give_up, modify, token, present, try_catch, recover, go_on, ◌>>=◌,
}

pub record IsFlow {S : Type 0} (R : S → S → Type 0) : Type 0 where
  pub same : (s : S) → R s s
  pub join : {s t u : S} → R s t → R t u → R s u

pub record Runs {S A : Type 0} (R : S → S → Type 0) (m : Effect S A) : Type 0 where
  pub along : (s : S) → R s (m s).1
  pub defined : (s : S) → (m s).0 ≢ faulted

pub in_range : (ts : List Text) (i : ℕ) → i < length ts → get_elem? ts i ≢ none
in_range [] i h = absurd (omega arith)
in_range (t ∷ ts) ℕ.zero h = cc
in_range (t ∷ ts) (ℕ.suc i) h = in_range ts i (omega arith)

module _ {S : Type 0} {R : S → S → Type 0} (flow : IsFlow R) where
  module _ {A : Type 0} where
    pub Runs-pure : (a : A) → Runs R (pure a)
    unfolding pure
    Runs-pure a = record { along = flow.same; defined = λ s. cc }

    pub Runs-raise : (what : Text) → Runs R (raise {A = A} what)
    unfolding raise
    Runs-raise what = record { along = flow.same; defined = λ s. cc }

    pub Runs-stop_process : (n : ℕ) → Runs R (stop_process {A = A} n)
    unfolding stop_process
    Runs-stop_process n = record { along = flow.same; defined = λ s. cc }

    pub Runs-give_up : Runs R (give_up {A = A})
    unfolding give_up
    Runs-give_up = record { along = flow.same; defined = λ s. cc }

    pub Runs-gets : (f : S → A) → Runs R (gets f)
    unfolding gets
    Runs-gets f = record { along = flow.same; defined = λ s. cc }

    pub Runs-if : (b : Bool) (m n : Effect S A) → Runs R m → Runs R n → Runs R (if b then m else n)
    Runs-if true m n hm hn = hm
    Runs-if false m n hm hn = hn

    -- The second branch may use that the test failed.
    pub Runs-if_false :
        (b : Bool) (m n : Effect S A)
        → Runs R m
        → (b ≡ false → Runs R n)
        → Runs R (if b then m else n)
    Runs-if_false true m n hm hn = hm
    Runs-if_false false m n hm hn = hn refl

    recover_along :
        (r : Outcome A) (handle : Text → Effect S A) (s t : S)
        → ((what : Text) → Runs R (handle what))
        → R s t
        → R s (recover r handle t).1
    recover_along (value a) handle s t h p = p
    recover_along (raised what) handle s t h p = flow.join p ((h what).along t)
    recover_along (exited n) handle s t h p = p
    recover_along faulted handle s t h p = p
    recover_along unfinished handle s t h p = p

    recover_defined :
        (r : Outcome A) (handle : Text → Effect S A) (t : S)
        → ((what : Text) → Runs R (handle what))
        → r ≢ faulted
        → (recover r handle t).0 ≢ faulted
    recover_defined (value a) handle t h p = p
    recover_defined (raised what) handle t h p = (h what).defined t
    recover_defined (exited n) handle t h p = p
    recover_defined faulted handle t h p = p
    recover_defined unfinished handle t h p = p

    pub Runs-try_catch :
        (m : Effect S A) (handle : Text → Effect S A)
        → Runs R m
        → ((what : Text) → Runs R (handle what))
        → Runs R (try_catch m handle)
    unfolding try_catch
    Runs-try_catch m handle hm hh = record {
      along = λ s. recover_along (m s).0 handle s (m s).1 hh (hm.along s);
      defined = λ s. recover_defined (m s).0 handle (m s).1 hh (hm.defined s);
    }

  present_defined : (o : Option Text) (s : S) → o ≢ none → (present o s).0 ≢ faulted
  present_defined none s h = absurd (h refl)
  present_defined (some t) s h = cc

  present_same : (o : Option Text) (s : S) → R s (present o s).1
  present_same none s = flow.same s
  present_same (some t) s = flow.same s

  -- A token that is there can be read.
  pub Runs-token : (tokens : List Text) (i : ℕ) → i < length tokens → Runs R (token tokens i)
  unfolding token
  Runs-token tokens i h = record {
    along = λ s. present_same (get_elem? tokens i) s;
    defined = λ s. present_defined (get_elem? tokens i) s (in_range tokens i h);
  }

  pub Runs-modify : (f : S → S) → ((s : S) → R s (f s)) → Runs R (modify f)
  unfolding modify
  Runs-modify f h = record { along = h; defined = λ s. cc }

  module _ {A B : Type 0} where
    go_on_along :
        (r : Outcome A) (f : A → Effect S B) (s t : S)
        → ((a : A) → Runs R (f a))
        → R s t
        → R s (go_on r f t).1
    go_on_along (value a) f s t h p = flow.join p ((h a).along t)
    go_on_along (raised what) f s t h p = p
    go_on_along (exited n) f s t h p = p
    go_on_along faulted f s t h p = p
    go_on_along unfinished f s t h p = p

    go_on_defined :
        (r : Outcome A) (f : A → Effect S B) (t : S)
        → ((a : A) → Runs R (f a))
        → r ≢ faulted
        → (go_on r f t).0 ≢ faulted
    go_on_defined (value a) f t h p = (h a).defined t
    go_on_defined (raised what) f t h p = cc
    go_on_defined (exited n) f t h p = cc
    go_on_defined faulted f t h p = absurd (p refl)
    go_on_defined unfinished f t h p = cc

    pub Runs-bind :
        (m : Effect S A) (f : A → Effect S B)
        → Runs R m
        → ((a : A) → Runs R (f a))
        → Runs R (m >>= f)
    unfolding ◌>>=◌
    Runs-bind m f hm hf = record {
      along = λ s. go_on_along (m s).0 f s (m s).1 hf (hm.along s);
      defined = λ s. go_on_defined (m s).0 f (m s).1 hf (hm.defined s);
    }

  module _ {A : Type 0} (k : Text → Effect S A) where
    after_token :
        (o : Option Text) (s : S)
        → o ≢ none
        → ((x : Text) → o ≡ some x → Runs R (k x))
        → R s (go_on (present o s).0 k (present o s).1).1
          × ((go_on (present o s).0 k (present o s).1).0 ≢ faulted)
    after_token none s there h = absurd (there refl)
    after_token (some x) s there h = ((h x refl).along s, (h x refl).defined s)

    -- What comes behind may use which token was read.
    pub Runs-token-bind :
        (tokens : List Text) (i : ℕ)
        → i < length tokens
        → ((x : Text) → get_elem? tokens i ≡ some x → Runs R (k x))
        → Runs R (token tokens i >>= k)
    unfolding token ◌>>=◌
    Runs-token-bind tokens i there h = record {
      along = λ s. (after_token (get_elem? tokens i) s (in_range tokens i there) h).0;
      defined = λ s. (after_token (get_elem? tokens i) s (in_range tokens i there) h).1;
    }

pub ruleset runs_rules = (
  Runs-pure, Runs-raise, Runs-stop_process, Runs-give_up, Runs-gets, Runs-if, Runs-try_catch,
  Runs-token, Runs-modify, Runs-bind,
)
