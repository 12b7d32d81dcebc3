-- ===== src/Tests/Commands.antt =====
-- Commands on the libraries of the tests.
use fep3_base_utilities.Prelude.{arith, ℕ, false, some, [], ◌∷◌, ◌≡◌, refl, Text, codes, str_eq}
use fep3_base_utilities.Numbers.{ℤ, pos, negsuc, to_string}
use fep3_base_utilities.Effect.{value, returned}
use fep3_base_utilities.Env.{Env, Transition}
use fep3_base_utilities.Dispatch.Machines.{
  participant_command, by_participant, process_commandline-by_participant,
}
use fep3_base_utilities.SystemMap.{find}
use fep3_base_utilities.Session.{Session, new_session}
use fep3_base_utilities.Lookup.{empty_system_name, connected_system}
use fep3_base_utilities.Dispatch.{process_commandline}
use fep3_base_utilities.Dispatch.Transitions.{
  loads, command_of, verb_of, participle_of, transition_of, reports, process_commandline-reports,
}
use fep3_base_utilities.Dispatch.Discovery.{connected_system-process_commandline}
use fep3_base_utilities.Dispatch.Priorities.{
  of_start, setter_of, getter_of, told, set_text, priority_text, process_commandline-to_string,
}
use fep3_base_utilities.Prelude.{if◌then◌else◌, List}
use fep3_base_utilities.Lexer.{c_str}
use fep3_base_utilities.PropertyPath.{next_node, ends_in_slash}
use fep3_base_utilities.Commands.Properties.{format_property, format_property_json}
use fep3_base_utilities.Commands.Properties.Trees.{
  PropertyTree, branch, grown, bare, Shows, IsWithin,
}
use fep3_base_utilities.Commands.Properties.Formats.{lines_of, json_of, format_property-lines_of}
use fep3_base_utilities.Tests.Libraries.{demo, alpha}

abbrev fresh : Session ℕ Text
fresh = new_session ⦃env = demo⦄ false 0

abbrev knowing : Session ℕ Text
knowing = record fresh { systems = (alpha, alpha) ∷ [] }

alpha_known : find alpha knowing.systems ≡ some alpha
unfolding codes find
alpha_known = refl

process_commandline-reports_example :
    process_commandline ⦃env = demo⦄ 5 (command_of loads ∷ alpha ∷ []) knowing
    ≡ reports ⦃env = demo⦄
        (command_of loads)
        alpha
        (participle_of loads)
        (verb_of loads)
        (record knowing { last_system_name_used = alpha })
        (demo.system_transition (transition_of loads) alpha knowing.world)
process_commandline-reports_example =
    process_commandline-reports ⦃env = demo⦄ alpha knowing alpha alpha_known 5 loads

alpha_is_named : str_eq alpha empty_system_name ≡ false
unfolding codes
alpha_is_named = refl

alpha_found : demo.discover_system_named alpha 0 ≡ (returned alpha, 0)
unfolding codes
alpha_found = refl

connected_system-process_commandline_example :
    ((process_commandline ⦃env = demo⦄ 5 (codes "discoverSystem" ∷ alpha ∷ []) fresh).0
      ≡ value (pos 0))
    × (connected_system ⦃env = demo⦄ alpha
          (codes "loadSystem")
          (process_commandline ⦃env = demo⦄ 5 (codes "discoverSystem" ∷ alpha ∷ []) fresh).1
        ≡ (
          value (some (alpha, alpha)),
          record (process_commandline ⦃env = demo⦄ 5
              (codes "discoverSystem" ∷ alpha ∷ [])
              fresh).1 { last_system_name_used = alpha },
        ))
connected_system-process_commandline_example =
    connected_system-process_commandline ⦃env = demo⦄ 5 alpha fresh alpha 0 0 (codes "driver" ∷ [])
      alpha_is_named alpha_found refl refl (codes "loadSystem")

-- Libraries that remember the size of a number: the world is that size, and 41 stands for -42.
abbrev size_of : ℤ → ℕ
size_of (pos n) = n
size_of (negsuc n) = n

abbrev remembering : Env
remembering = record demo {
  assign_start_priority = λ part z w. (returned tt, size_of z);
  start_priority_of = λ part w. (returned (negsuc w), w);
}

abbrev knowing_session : Session ℕ Text
knowing_session = record (new_session ⦃env = remembering⦄ false 0) { systems = (alpha, alpha) ∷ [] }

abbrev driver : Text
driver = codes "driver"

process_commandline-to_string_example :
    let (first, t) =
      process_commandline ⦃env = remembering⦄ 5
        (setter_of of_start ∷ alpha ∷ driver ∷ to_string (negsuc 41) ∷ [])
        knowing_session in
    (first ≡ value (pos 0))
    × (process_commandline ⦃env = remembering⦄ 5 (getter_of of_start ∷ alpha ∷ driver ∷ []) t ≡ (
      value (pos 0),
      told ⦃env = remembering⦄ alpha 41
          (priority_text ⦃env = remembering⦄ (negsuc 41))
          (told ⦃env = remembering⦄ alpha 41 (set_text ⦃env = remembering⦄ driver) knowing_session),
    ))
process_commandline-to_string_example =
    process_commandline-to_string ⦃env = remembering⦄ 5 of_start alpha driver (negsuc 41)
      knowing_session alpha driver driver 0 41 41 41 refl (omega arith) alpha_known refl refl refl
      refl

process_commandline-by_participant_example :
    process_commandline ⦃env = demo⦄ 5
      (participant_command Transition.pause ∷ alpha ∷ driver ∷ [])
      knowing
    ≡ by_participant ⦃env = demo⦄
        (participant_command Transition.pause)
        alpha
        driver
        Transition.pause
        knowing
        (demo.participant_of alpha driver knowing.world)
process_commandline-by_participant_example =
    process_commandline-by_participant ⦃env = demo⦄ alpha driver knowing alpha alpha_known 5
      Transition.pause

-- Libraries that show one property `m` below the property `c` of the node `n`.
abbrev names_under : Text → List Text
names_under node = if str_eq node (codes "n/c") then codes "m" ∷ [] else []

abbrev showing : Env
showing = record demo { property_names = λ props w. (returned (names_under props), w) }

abbrev clock_tree : PropertyTree
clock_tree =
    branch (codes "c") (codes "1") (codes "int")
      (grown (branch (codes "m") (codes "1") (codes "int") bare) bare)

clock-Shows : Shows ⦃env = showing⦄ (codes "driver") 0 (codes "n") clock_tree
unfolding codes Shows next_node ends_in_slash
clock-Shows = (
  codes "n",
  codes "n/c",
  refl,
  refl,
  refl,
  refl,
  refl,
  ((codes "n/c", codes "n/c/m", refl, refl, refl, refl, refl, tt), tt),
)

clock-IsWithin : IsWithin 2 clock_tree
unfolding IsWithin
clock-IsWithin = (tt, tt)

format_property-lines_of_example :
    (format_property ⦃env = showing⦄ 2 driver (codes "n") (codes "c") fresh
      ≡ (value (c_str (lines_of ⦃env = showing⦄ 0 clock_tree)), fresh))
    × (format_property_json ⦃env = showing⦄ 2 driver (codes "n") (codes "c") fresh
        ≡ (value (json_of ⦃env = showing⦄ clock_tree), fresh))
unfolding codes
format_property-lines_of_example =
    format_property-lines_of ⦃env = showing⦄ clock_tree 2 driver (codes "n") fresh clock-IsWithin
      clock-Shows refl refl
