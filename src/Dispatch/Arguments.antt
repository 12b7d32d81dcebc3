-- ===== src/Dispatch/Arguments.antt =====
-- The numbers of arguments that the commands take, written out, and the refusal of all others.
use fep3_base_utilities.Prelude.{
  ℕ, ◌-◌, ◌&&◌, Option, none, some, List, [], ◌∷◌, ◌≡◌, ◌≢◌, Text, codes, length, leb, str_eq,
  if◌then◌else◌,
}
use fep3_base_utilities.Numbers.{ℤ, negsuc}
use fep3_base_utilities.Effect.{Outcome, value}
use fep3_base_utilities.Env.{Env}
use fep3_base_utilities.Session.{State}
use fep3_base_utilities.CommandTable.{ControlCommand}
use fep3_base_utilities.Dispatch.Refusals.{JustWrites}

-- A command's name, with the least and the greatest number of its arguments.
abbrev Arity : Type 0
Arity = Text × ℕ × ℕ

unfoldable pub arities : List Arity
arities =
    (codes "exit", 0, 0)
    ∷ (codes "quit", 0, 0)
    ∷ (codes "discoverAllSystems", 0, 0)
    ∷ (codes "discoverSystem", 1, 1)
    ∷ (codes "setCurrentWorkingDirectory", 1, 1)
    ∷ (codes "getCurrentWorkingDirectory", 0, 0)
    ∷ (codes "help", 0, 1)
    ∷ (codes "loadSystem", 1, 1)
    ∷ (codes "unloadSystem", 1, 1)
    ∷ (codes "setInitPriority", 3, 3)
    ∷ (codes "getInitPriority", 2, 2)
    ∷ (codes "setStartPriority", 3, 3)
    ∷ (codes "getStartPriority", 2, 2)
    ∷ (codes "initializeSystem", 1, 1)
    ∷ (codes "deinitializeSystem", 1, 1)
    ∷ (codes "startSystem", 1, 1)
    ∷ (codes "stopSystem", 1, 1)
    ∷ (codes "pauseSystem", 1, 1)
    ∷ (codes "shutdownSystem", 1, 1)
    ∷ (codes "startMonitoringSystem", 1, 1)
    ∷ (codes "stopMonitoringSystem", 1, 1)
    ∷ (codes "loadParticipant", 2, 2)
    ∷ (codes "unloadParticipant", 2, 2)
    ∷ (codes "initializeParticipant", 2, 2)
    ∷ (codes "deinitializeParticipant", 2, 2)
    ∷ (codes "startParticipant", 2, 2)
    ∷ (codes "stopParticipant", 2, 2)
    ∷ (codes "pauseParticipant", 2, 2)
    ∷ (codes "getParticipantPropertyNames", 2, 2)
    ∷ (codes "getParticipantProperties", 2, 2)
    ∷ (codes "getParticipantProperty", 3, 3)
    ∷ (codes "setParticipantProperty", 4, 4)
    ∷ (codes "getParticipantRPCObjects", 2, 2)
    ∷ (codes "getParticipantRPCObjectIIDs", 3, 3)
    ∷ (codes "getParticipantRPCObjectIIDDefinition", 4, 4)
    ∷ (codes "shutdownParticipant", 2, 2)
    ∷ (codes "getSystemState", 1, 1)
    ∷ (codes "setSystemState", 2, 2)
    ∷ (codes "getParticipantState", 2, 2)
    ∷ (codes "setParticipantState", 3, 3)
    ∷ (codes "getParticipants", 1, 1)
    ∷ (codes "callRPC", 5, 6)
    ∷ (codes "configureTiming3SystemTime", 2, 2)
    ∷ (codes "configureTiming3DiscreteTime", 4, 4)
    ∷ (codes "configureTiming3NoSync", 1, 1)
    ∷ (codes "getCurrentTimingMaster", 1, 1)
    ∷ (codes "enableAutoDiscovery", 0, 0)
    ∷ (codes "disableAutoDiscovery", 0, 0)
    ∷ (codes "enableJson", 0, 0)
    ∷ (codes "disableJson", 0, 0)
    ∷ []

abbrev arity_in : Text → List Arity → Option (ℕ × ℕ)
arity_in name [] = none
arity_in name ((known, least, most) ∷ rest) =
    if str_eq known name then some (least, most) else arity_in name rest

unfoldable pub arity : Text → Option (ℕ × ℕ)
arity name = arity_in name arities

-- What a command with these numbers of arguments is refused with, where it is given that many.
abbrev refused_with : ℕ → Option (ℕ × ℕ) → Option ℤ
refused_with count none = some (negsuc 1)
refused_with count (some (least, most)) =
    if leb least count && leb count most then none else some (negsuc 2)

unfoldable pub expected_refusal : Text → List Text → Option ℤ
expected_refusal name ts = refused_with (length ts) (arity name)

abbrev arity_of : ControlCommand → ℕ × ℕ
arity_of cmd = (length cmd.arguments - cmd.last_optional_parameters, length cmd.arguments)

abbrev arities_of : List ControlCommand → List Arity
arities_of [] = []
arities_of (cmd ∷ cmds) = (cmd.name, (arity_of cmd).0, (arity_of cmd).1) ∷ arities_of cmds

abbrev arity_of_found : Option ControlCommand → Option (ℕ × ℕ)
arity_of_found none = none
arity_of_found (some cmd) = some (arity_of cmd)

module _ ⦃env : Env⦄ (rounds : ℕ) (name : Text) (ts : List Text) (s : State) where
  -- How a command line ends that is refused with a number, or that is not refused.
  abbrev pub EndsAs : Option ℤ → Outcome ℤ × State → Type 0
  EndsAs (some n) (r, t) = (r ≡ value n) × JustWrites s t
  EndsAs none (r, t) = (r ≢ value (negsuc 1)) × (r ≢ value (negsuc 2))
