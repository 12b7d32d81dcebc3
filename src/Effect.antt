-- ===== src/Effect.antt =====
-- What a method of the tool does: it reads and changes the session, and it returns a value, throws,
-- ends the process, or has undefined behaviour.
pub mod Runs
use fep3_base_utilities.Prelude.{ℕ, Option, none, some, List, Text, get_elem?}

pub data Outcome (A : Type 0) : Type 0 where
  value : A → Outcome A
  -- a `std::exception` and its `what()`
  raised : Text → Outcome A
  -- `exit(n)`
  exited : ℕ → Outcome A
  -- undefined behaviour: a read behind the end of the tokens, a null pointer that is followed
  faulted : Outcome A
  -- a recursion that is not over within the rounds of the model
  unfinished : Outcome A

-- A call of a library, which may throw.
pub data Answer (A : Type 0) : Type 0 where
  returned : A → Answer A
  thrown : Text → Answer A

abbrev pub Effect : Type 0 → Type 0 → Type 0
Effect S A = S → Outcome A × S

module _ {S A : Type 0} where
  unfoldable pub pure : A → Effect S A
  pure a s = (value a, s)

  unfoldable pub raise : Text → Effect S A
  raise what s = (raised what, s)

  unfoldable pub stop_process : ℕ → Effect S A
  stop_process n s = (exited n, s)

  unfoldable pub gets : (S → A) → Effect S A
  gets f s = (value (f s), s)

  unfoldable pub give_up : Effect S A
  give_up s = (unfinished, s)

  -- `*p`, for a pointer that may be null
  unfoldable pub follow : Option A → Effect S A
  follow none s = (faulted, s)
  follow (some a) s = (value a, s)

  -- `try { m } catch (const std::exception& e) { handle(e.what()) }`
  abbrev pub recover : Outcome A → (Text → Effect S A) → Effect S A
  recover (value a) handle s = (value a, s)
  recover (raised what) handle s = handle what s
  recover (exited n) handle s = (exited n, s)
  recover faulted handle s = (faulted, s)
  recover unfinished handle s = (unfinished, s)

  unfoldable pub try_catch : Effect S A → (Text → Effect S A) → Effect S A
  try_catch m handle s = let (r, s') = m s in recover r handle s'

unfoldable pub modify : {S : Type 0} → (S → S) → Effect S (Unit {0})
modify f s = (value tt, f s)

-- `*(first + i)`: a read in the range of the tokens, or undefined behaviour.
module _ {S : Type 0} where
  abbrev pub present : Option Text → Effect S Text
  present none s = (faulted, s)
  present (some t) s = (value t, s)

  unfoldable pub token : List Text → ℕ → Effect S Text
  token tokens i = present (get_elem? tokens i)

module _ {S A B : Type 0} where
  abbrev pub go_on : Outcome A → (A → Effect S B) → Effect S B
  go_on (value a) f s = f a s
  go_on (raised what) f s = (raised what, s)
  go_on (exited n) f s = (exited n, s)
  go_on faulted f s = (faulted, s)
  go_on unfinished f s = (unfinished, s)

  infixl 5 ◌>>=◌ ◌>>◌
  unfoldable pub ◌>>=◌ : Effect S A → (A → Effect S B) → Effect S B
  ◌>>=◌ m f s = let (r, s') = m s in go_on r f s'

  abbrev pub ◌>>◌ : Effect S A → Effect S B → Effect S B
  m >> k = m >>= λ _. k
