-- ===== src/Tests/Sessions.antt =====
-- Sessions on the libraries of the tests.
use fep3_base_utilities.Prelude.{
  ℕ, true, false, none, some, List, [], ◌∷◌, ◌≡◌, ◌≢◌, refl, Text, codes, arith, if◌then◌else◌,
  str_eq,
}
use fep3_base_utilities.Numbers.{pos}
use fep3_base_utilities.Effect.{value, faulted}
use fep3_base_utilities.SystemMap.{find}
use fep3_base_utilities.Session.{Session, new_session}
use fep3_base_utilities.CommandTable.{ActionFunction, ControlCommand, control_commands, on_system}
use fep3_base_utilities.Lookup.{empty_system_name, connected_system}
use fep3_base_utilities.Lookup.Unknown.{reported}
use fep3_base_utilities.Lookup.Discovery.{
  discovered, connected_system-discovered, connected_system-unnamed,
}
use fep3_base_utilities.Commands.Systems.{shutdown_system}
use fep3_base_utilities.Commands.Systems.Shutdown.{shutdown_system-erases, shutdown_system-unnamed}
use fep3_base_utilities.Commands.Properties.Moves.{NeverNull}
use fep3_base_utilities.Dispatch.{find_command, process_commandline}
use fep3_base_utilities.Dispatch.Invariants.{process_commandline-defined}
use fep3_base_utilities.Output.Reports.{written}
use fep3_base_utilities.Prelude.{ap, ◌<◌}
use fep3_base_utilities.Dispatch.Reports.{process_commandline-written}
use fep3_base_utilities.Dispatch.Documents.{Spoke, process_commandline-Spoke}
use fep3_base_utilities.Prelude.{sym}
use fep3_base_utilities.Effect.{token, ◌>>=◌}
use fep3_base_utilities.Dispatch.{process_found, run_action}
use fep3_base_utilities.Commands.Systems.{discover_system}
use fep3_base_utilities.Lookup.{remember}
use fep3_base_utilities.Session.{call}
use fep3_base_utilities.Dispatch.Used.{IsApart, process_commandline-IsApart}
use fep3_base_utilities.Interactive.{execute_message}
use fep3_base_utilities.Interactive.Answers.{execute_message-written}
use fep3_base_utilities.Dispatch.Unknown.{process_commandline-unknown}
use fep3_base_utilities.Dispatch.Refusals.{process_commandline-help_unknown}
use fep3_base_utilities.Dispatch.Known.{StayKnown, process_commandline-StayKnown}
use fep3_base_utilities.Tests.Libraries.{demo, alpha, beta, nameless}

abbrev fresh : Session ℕ Text
fresh = new_session ⦃env = demo⦄ false 0

-- A session that knows a system, and one that discovers what it does not know.
abbrev knowing : Session ℕ Text
knowing = record fresh { systems = (alpha, alpha) ∷ [] }

abbrev seeking : Session ℕ Text
seeking = record fresh { auto_discovery = true }

abbrev with_nameless : Session ℕ Text
with_nameless = record fresh { systems = (empty_system_name, nameless) ∷ [] }

abbrev load_alpha : List Text
load_alpha = codes "loadSystem" ∷ alpha ∷ []

never : NeverNull ⦃env = demo⦄
never conf node w = λ h. cc

process_commandline-defined_example :
    (process_commandline ⦃env = demo⦄ 5 load_alpha knowing).0 ≢ faulted
process_commandline-defined_example =
    process_commandline-defined ⦃env = demo⦄ never 5 load_alpha (omega arith) knowing

process_commandline-StayKnown_example :
    StayKnown ⦃env = demo⦄ knowing
      (process_commandline ⦃env = demo⦄ 5 (codes "discoverAllSystems" ∷ []) knowing).1
unfolding codes
process_commandline-StayKnown_example =
    process_commandline-StayKnown ⦃env = demo⦄ never 5 (codes "discoverAllSystems") [] knowing refl

-- The command of the table with that name.
abbrev load_system_command : ControlCommand
load_system_command = record {
  name = codes "loadSystem";
  description = codes "loads the given system";
  action = ActionFunction.load_system;
  arguments = on_system;
  last_optional_parameters = 0;
  hidden = false;
}

process_commandline-unknown_example :
    process_commandline ⦃env = demo⦄ 5 (codes "loadSystem" ∷ beta ∷ []) knowing
    ≡ (value (pos 1), reported ⦃env = demo⦄ beta (codes "loadSystem") knowing)
unfolding codes find_command control_commands find
process_commandline-unknown_example =
    process_commandline-unknown ⦃env = demo⦄ 5 (codes "loadSystem") beta knowing refl refl
      load_system_command [] refl refl refl

process_commandline-written_example :
    written ⦃env = demo⦄ knowing
    < written ⦃env = demo⦄
        (process_commandline ⦃env = demo⦄ 5 (codes "loadSystem" ∷ beta ∷ []) knowing).1
unfolding codes find_command control_commands find
process_commandline-written_example =
    process_commandline-written ⦃env = demo⦄ 5 never (codes "loadSystem") (beta ∷ []) knowing
      (pos 1) (λ h. cc)
      (ap (λ o. o.0)
        (process_commandline-unknown ⦃env = demo⦄ 5 (codes "loadSystem") beta knowing refl refl
          load_system_command [] refl refl refl))
      (λ h. cc)

-- A session in the JSON mode, whose log monitor is in that mode too.
abbrev in_json : Session ℕ Text
in_json = record (new_session ⦃env = demo⦄ true 0) { systems = (alpha, alpha) ∷ [] }

process_commandline-Spoke_example :
    Spoke ⦃env = demo⦄ in_json
      (process_commandline ⦃env = demo⦄ 5 (codes "loadSystem" ∷ beta ∷ []) in_json).1
unfolding codes
process_commandline-Spoke_example =
    process_commandline-Spoke ⦃env = demo⦄ never 5 (codes "loadSystem") (beta ∷ []) in_json
      (λ h. cc) refl

-- A property of a participant that is shown for the first time.
abbrev property_line : List Text
property_line = alpha ∷ codes "driver" ∷ codes "speed" ∷ []

property_line-IsApart :
    IsApart
      (codes "getParticipantProperty" ∷ property_line)
      (new_session ⦃env = demo⦄ false 0).used_properties
unfolding codes
property_line-IsApart participant h =
    let name : codes "driver" ≡ participant = cc in rw (sym name) refl

process_commandline-IsApart_example :
    (process_commandline ⦃env = demo⦄ 5
      (codes "getParticipantProperty" ∷ property_line)
      knowing).1.used_properties
    ≡ knowing.used_properties
process_commandline-IsApart_example =
    process_commandline-IsApart ⦃env = demo⦄ never 5 (codes "getParticipantProperty") property_line
      knowing property_line-IsApart

execute_message-written_example :
    written ⦃env = demo⦄ knowing
    < written ⦃env = demo⦄
        (execute_message ⦃env = demo⦄ 5 (codes "discoverSystem" ∷ codes "down" ∷ []) knowing).1
unfolding codes find_command control_commands process_commandline token process_found run_action
    discover_system remember call ◌>>=◌
execute_message-written_example =
    execute_message-written ⦃env = demo⦄ never 5 (codes "discoverSystem") (codes "down" ∷ [])
      knowing (λ h. cc) tt

process_commandline-help_unknown_example :
    process_commandline ⦃env = demo⦄ 5 (codes "help" ∷ codes "nothing" ∷ []) knowing
    ≡ (value (pos 1), knowing)
unfolding codes find_command control_commands
process_commandline-help_unknown_example =
    process_commandline-help_unknown ⦃env = demo⦄ 5 (codes "nothing") knowing refl

-- A client that names an unknown system and ends its message within a quotation.
abbrev messages : List Text
messages = codes "loadSystem beta" ∷ codes "nonsense \"x" ∷ codes "discoverSystem down" ∷ []

connected_system-discovered_example :
    connected_system ⦃env = demo⦄ beta (codes "loadSystem") seeking
    ≡ (value (some (beta, beta)), discovered ⦃env = demo⦄ beta beta beta 0 seeking)
unfolding codes find
connected_system-discovered_example =
    connected_system-discovered ⦃env = demo⦄ beta (codes "loadSystem") seeking beta 0 refl refl refl
      refl refl

connected_system-unnamed_example :
    connected_system ⦃env = demo⦄ empty_system_name (codes "loadSystem") seeking ≡ (
      value none,
      reported ⦃env = demo⦄ empty_system_name
          (codes "loadSystem")
          (discovered ⦃env = demo⦄ empty_system_name [] nameless 0 seeking),
    )
unfolding codes find
connected_system-unnamed_example =
    connected_system-unnamed ⦃env = demo⦄ (codes "loadSystem") seeking nameless 0 refl refl refl
      refl

shutdown_system-erases_example :
    ((shutdown_system ⦃env = demo⦄ (codes "shutdownSystem" ∷ alpha ∷ []) knowing).0 ≡ value true)
    × (find alpha
          (shutdown_system ⦃env = demo⦄ (codes "shutdownSystem" ∷ alpha ∷ []) knowing).1.systems
        ≡ (if str_eq alpha alpha then none else find alpha knowing.systems))
unfolding codes find
shutdown_system-erases_example =
    shutdown_system-erases ⦃env = demo⦄ (codes "shutdownSystem") alpha [] knowing alpha 1 refl refl
      alpha

shutdown_system-unnamed_example :
    ((shutdown_system ⦃env = demo⦄
        (codes "shutdownSystem" ∷ empty_system_name ∷ [])
        with_nameless).0
      ≡ value true)
    × (find empty_system_name
          (shutdown_system ⦃env = demo⦄
            (codes "shutdownSystem" ∷ empty_system_name ∷ [])
            with_nameless).1.systems
        ≡ some nameless)
unfolding codes find
shutdown_system-unnamed_example =
    shutdown_system-unnamed ⦃env = demo⦄ (codes "shutdownSystem") [] with_nameless nameless 1 refl
      refl refl
