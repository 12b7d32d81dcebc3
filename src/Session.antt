-- ===== src/Session.antt =====
-- The members of FepControl in src/fep_control_tool/fep_control.h and of its Monitor in
-- src/fep_control_tool/monitor.h, with what was written to the sink and the world outside.
pub mod Moves
use fep3_base_utilities.Prelude.{Bool, false, List, [], ◌∷◌, ◌++◌, Text, codes}
use fep3_base_utilities.Effect.{Effect, Outcome, value, raised, Answer, returned, thrown}
use fep3_base_utilities.Env.{Env, Call}
use fep3_base_utilities.SystemMap.{SystemMap}

pub record Session (W S : Type 0) : Type 0 where
  -- `_json_mode`, and the member of the same name of `monitor`
  pub json_mode : Bool
  pub monitor_json_mode : Bool
  -- `_connected_or_discovered_systems`
  pub systems : SystemMap S
  -- `_auto_discovery_of_systems`
  pub auto_discovery : Bool
  pub last_system_name_used : Text
  pub used_properties : List Text
  -- the texts given to `writeOutputToSink`, in their order
  pub output : List Text
  pub world : W

module _ ⦃env : Env⦄ where
  open env use {World, System}

  abbrev pub State : Type 0
  State = Session World System

  abbrev pub Action : Type 0 → Type 0
  Action A = Effect State A

  -- `FepControl(json_mode)`: the default member values, and the mode for the monitor too.
  abbrev pub new_session : Bool → World → State
  new_session json_mode world = record {
    json_mode = json_mode;
    monitor_json_mode = json_mode;
    systems = [];
    auto_discovery = false;
    last_system_name_used = [];
    used_properties =
        codes "clock/main_clock" ∷ codes "clock/step_size" ∷ codes "clock/time_factor" ∷ [];
    output = [];
    world = world;
  }

  abbrev pub answered : {A : Type 0} → Answer A → State → Outcome A × State
  answered (returned a) s = (value a, s)
  answered (thrown what) s = (raised what, s)

  -- A call of a library: what it throws is an exception here.
  unfoldable pub call : {A : Type 0} → Call World A → Action A
  call c s = let (r, w) = c s.world in answered r (record s { world = w })

  -- `writeOutput(args...)`: the arguments are put together, and one text goes to the sink.
  unfoldable pub write_output : Text → Action (Unit {0})
  write_output text s = (value tt, record s { output = s.output ++ text ∷ [] })
