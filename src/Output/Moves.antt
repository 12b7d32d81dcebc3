-- ===== src/Output/Moves.antt =====
-- The functions that write notes and errors only print.
use fep3_base_utilities.Prelude.{ℕ, List, [], ◌∷◌, Text}
use fep3_base_utilities.Effect.Runs.{IsFlow, Runs, Runs-bind, runs_rules}
use fep3_base_utilities.Env.{Env}
use fep3_base_utilities.Session.{State}
use fep3_base_utilities.Session.Moves.{IsSessionFlow, PrintsAll, Runs-write_any, session_rules}
use fep3_base_utilities.Output.{
  CmdStatus, Attribute, write_note, write_attribute, write_notes, write_each, write_notes_vec,
  write_error, write_exception, on_log,
}

module _ ⦃env : Env⦄ {R : State → State → Type 0} (moves : IsSessionFlow R) where
  pub Runs-write_note : (action note : Text) → Runs R (write_note action note)
  unfolding write_note
  Runs-write_note action note = let flow = moves.flow in search session_rules

  pub Runs-write_attribute : (action : Text) (a : Attribute) → Runs R (write_attribute action a)
  unfolding write_attribute
  Runs-write_attribute action (name, value) = let flow = moves.flow in search session_rules

  pub Runs-write_notes :
      (action : Text) (attributes : List Attribute) → Runs R (write_notes action attributes)
  unfolding write_notes
  Runs-write_notes action attributes = let flow = moves.flow in search session_rules

  pub Runs-write_each :
      (action : Text) (vec : List (List Attribute)) → Runs R (write_each action vec)
  unfolding write_each
  Runs-write_each action [] = let flow = moves.flow in search session_rules
  Runs-write_each action (attributes ∷ vec) =
      Runs-bind moves.flow _ _ (Runs-write_notes action attributes)
        (λ _. Runs-write_each action vec)

  pub Runs-write_notes_vec :
      (action : Text) (vec : List (List Attribute)) → Runs R (write_notes_vec action vec)
  unfolding write_notes_vec
  Runs-write_notes_vec action vec = let flow = moves.flow in search (session_rules, Runs-write_each)

  pub Runs-write_error :
      (action error : Text) (status : CmdStatus) (reason : Text)
      → Runs R (write_error action error status reason)
  unfolding write_error
  Runs-write_error action error status reason =
      let flow = moves.flow in search session_rules depth 9

  pub Runs-write_exception :
      (action exception : Text) (status : CmdStatus) (what : Text)
      → Runs R (write_exception action exception status what)
  unfolding write_exception
  Runs-write_exception action exception status what = let flow = moves.flow in search session_rules

-- The log monitor goes by its own mode.
pub Runs-on_log :
    ⦃env : Env⦄ {R : State → State → Type 0}
    → IsFlow R
    → PrintsAll R
    → (severity_level : ℕ) (participant_name logger_name message : Text)
    → Runs R (on_log severity_level participant_name logger_name message)
unfolding on_log
Runs-on_log flow prints severity_level participant_name logger_name message =
    search (runs_rules, Runs-write_any)

pub ruleset output_rules = (
  session_rules, Runs-write_note, Runs-write_attribute, Runs-write_notes, Runs-write_notes_vec,
  Runs-write_error, Runs-write_exception,
)
