-- ===== src/Output/Values.antt =====
-- Writing an error returns.
use fep3_base_utilities.Prelude.{◌≡◌, Text, arith}
use fep3_base_utilities.Effect.{value, pure, gets, ◌>>=◌}
use fep3_base_utilities.Env.{Env}
use fep3_base_utilities.Session.{State, write_output}
use fep3_base_utilities.Output.{CmdStatus, write_error, write_note, write_exception}

pub write_error-value :
    ⦃env : Env⦄ (action error : Text) (status : CmdStatus) (reason : Text) (s : State)
    → (write_error action error status reason s).0 ≡ value tt
unfolding write_error write_output pure gets ◌>>=◌
write_error-value action error status reason s = ground arith

module _ ⦃env : Env⦄ (action note : Text) (s : State) where
  pub write_note-value : (write_note action note s).0 ≡ value tt
  unfolding write_note write_output gets ◌>>=◌
  write_note-value = ground arith

  -- A note leaves the known systems alone.
  pub systems-write_note : (write_note action note s).1.systems ≡ s.systems
  unfolding write_note write_output gets ◌>>=◌
  systems-write_note = ground arith

pub write_exception-value :
    ⦃env : Env⦄ (action exception : Text) (status : CmdStatus) (what : Text) (s : State)
    → (write_exception action exception status what s).0 ≡ value tt
unfolding write_exception write_output gets ◌>>=◌
write_exception-value action exception status what s = ground arith
