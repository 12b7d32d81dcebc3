-- ===== src/Commands/Systems/Discovery.antt =====
-- What the discovery of all systems leaves known.
use fep3_base_utilities.Prelude.{
  Bool, true, false, Option, none, some, List, [], ◌∷◌, ◌≡◌, refl, ◌∙◌, Text, str_eq, if◌then◌else◌,
  Option-cases, inl, inr, str_eq_iff,
}
use mathlib.Core.Option.{get_or}
use fep3_base_utilities.Effect.{value, pure, modify, ◌>>=◌}
use fep3_base_utilities.Env.{Env}
use fep3_base_utilities.SystemMap.{find, emplace, is_sorted}
use fep3_base_utilities.SystemMap.Laws.{find-emplace, is_sorted-emplace}
use fep3_base_utilities.Session.{State}
use fep3_base_utilities.Lookup.{remember}
use fep3_base_utilities.Commands.Systems.{shown_name, emplace_systems}

module _ ⦃env : Env⦄ where
  open env use {System, system_name}

  -- The entry that was there, or else the first of the systems that is shown under the name.
  abbrev pub old_or_first : Text → Option System → List System → Option System
  old_or_first name (some old) systems = some old
  old_or_first name none [] = none
  old_or_first name none (system ∷ systems) =
      let later = old_or_first name none systems in
      if str_eq (shown_name (system_name system)) name then some system else later

  -- One round of the loop, for the entries found under the key and under the name.
  old_or_first-cons :
      (name : Text) (system : System) (systems : List System) (at_key at_name : Option System)
      (same : Bool)
      → str_eq (shown_name (system_name system)) name ≡ same
      → (same ≡ true → at_key ≡ at_name)
      → old_or_first name (if same then some (get_or at_key system) else at_name) systems
        ≡ old_or_first name at_name (system ∷ systems)
  old_or_first-cons name system systems at_key none true e h = rw (h refl, e) refl
  old_or_first-cons name system systems at_key (some old) true e h = rw (h refl) refl
  old_or_first-cons name system systems at_key none false e h = rw e refl
  old_or_first-cons name system systems at_key (some old) false e h = refl

  -- In a map that is in order, the loop over the discovered systems leaves every known system as it was,
  -- and makes a name that was not known that of the first discovered system which is shown under it.
  pub find-emplace_systems :
      (name : Text) (systems : List System) (s : State)
      → is_sorted s.systems ≡ true
      → ((emplace_systems systems s).0 ≡ value tt)
        × (find name (emplace_systems systems s).1.systems
            ≡ old_or_first name (find name s.systems) systems)
  unfolding emplace_systems modify remember pure ◌>>=◌
  find-emplace_systems name [] s h = (
    refl,
    elim (Option-cases (find name s.systems)) [ inl e ↦ rw e refl | inr (old, e) ↦ rw e refl ],
  )
  find-emplace_systems name (system ∷ systems) s h =
      let key = shown_name (system_name system) in
      let next = record s { systems = emplace key system s.systems; last_system_name_used = key } in
      let (returns, found) =
        find-emplace_systems name systems next (is_sorted-emplace key system s.systems h) in
      (
        returns,
        found
            ∙ (rw (find-emplace key name system s.systems h) (
                old_or_first-cons name system systems (find key s.systems) (find name s.systems)
                  (str_eq key name) refl (λ e. rw ((str_eq_iff key name).0 e) refl))),
      )
