-- ===== src/Commands/Timing.antt =====
-- src/fep_control_tool/fep_control.cpp: the commands on the timing of a system.
pub mod Moves
pub mod Reports
use fep3_base_utilities.Prelude.{Bool, true, false, List, ◌++◌, Text, codes}
use fep3_base_utilities.Effect.{Effect, pure, try_catch, token, ◌>>=◌, ◌>>◌}
use fep3_base_utilities.Env.{Env}
use fep3_base_utilities.Session.{Session, State, Action, call}
use fep3_base_utilities.Output.{systemtiming_error, write_note, write_attribute, write_exception}
use fep3_base_utilities.Lookup.{remember, with_system}

module _ ⦃env : Env⦄ where
  open env use {
    configure_clock_sync_only_interpolation, configure_discrete_steps, configure_no_master,
    timing_masters_of, join,
  }

  -- The handler that the four commands share but for their first words.
  unfoldable pub timing_failed : Text → Text → Text → Text → Action Bool
  timing_failed action cannot name what = do
    write_exception action (cannot ++ codes " for '" ++ name ++ codes "'") systemtiming_error what
    pure false

  unfoldable pub configure_system_timing_system_time : List Text → Action Bool
  configure_system_timing_system_time tokens = do
    action ← token tokens 0
    master_name ← token tokens 2
    name ← token tokens 1
    with_system name action λ entry.
        try_catch
          (do
            call (configure_clock_sync_only_interpolation entry.1 master_name (codes "100"))
            write_note action (codes "successfully set SystemTimingSystemTime")
            pure true)
          (timing_failed action (codes "cannot set timing") name)

  unfoldable pub configure_system_timing_discrete : List Text → Action Bool
  configure_system_timing_discrete tokens = do
    action ← token tokens 0
    name ← token tokens 1
    master_name ← token tokens 2
    factor ← token tokens 3
    step_size ← token tokens 4
    with_system name action λ entry.
        try_catch
          (do
            call (configure_discrete_steps entry.1 master_name step_size factor)
            write_note action (codes "successfully set SystemTimingDiscrete")
            pure true)
          (timing_failed action (codes "cannot set timing") name)

  unfoldable pub configure_system_time_no_sync : List Text → Action Bool
  configure_system_time_no_sync tokens = do
    action ← token tokens 0
    name ← token tokens 1
    with_system name action λ entry.
        try_catch
          (do
            remember name
            call (configure_no_master entry.1)
            write_note action (codes "successfully set SystemTimeNoSync")
            pure true)
          (timing_failed action (codes "cannot set timing") name)

  unfoldable pub get_current_timing_master : List Text → Action Bool
  get_current_timing_master tokens = do
    action ← token tokens 0
    name ← token tokens 1
    with_system name action λ entry.
        try_catch
          (do
            masters ← call (timing_masters_of entry.1)
            write_attribute action (codes "timing_masters", join masters (codes ","))
            pure true)
          (timing_failed action (codes "cannot get timing master") name)
