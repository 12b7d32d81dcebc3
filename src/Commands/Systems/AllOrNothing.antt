-- ===== src/Commands/Systems/AllOrNothing.antt =====
-- discoverAllSystems as a whole, with a call that throws on the way.
use fep3_base_utilities.Prelude.{
  Bool, true, List, [], ◌∷◌, ◌≡◌, refl, ap, ◌∙◌, ◌⊎◌, inl, inr, Text, arith,
}
use fep3_base_utilities.Effect.{
  Outcome, value, raised, Answer, returned, thrown, pure, gets, token, go_on, ◌>>=◌, ◌>>◌,
}
use fep3_base_utilities.Env.{Env, Call}
use fep3_base_utilities.SystemMap.{find, is_sorted}
use fep3_base_utilities.Session.{State, Action, answered, call, write_output}
use fep3_base_utilities.Output.{Attribute, write_notes, write_each, write_notes_vec}
use fep3_base_utilities.Commands.Systems.{
  get_system_participants, get_systems, emplace_systems, discover_all_systems,
}
use fep3_base_utilities.Commands.Systems.Discovery.{old_or_first, find-emplace_systems}

module _ ⦃env : Env⦄ where
  open env use {World, System, participants_of, discover_every_system}

  -- The action returned, and the known systems are what they were.
  abbrev Returned : Outcome (Unit {0}) × State → State → Type 0
  Returned (r, t) s = (r ≡ value tt) × (t.systems ≡ s.systems)

  write_notes-Returned :
      (action : Text) (attributes : List Attribute) (s : State)
      → Returned (write_notes action attributes s) s
  unfolding write_notes write_output gets ◌>>=◌
  write_notes-Returned action attributes s = ground arith

  write_each-Returned :
      (action : Text) (more : List (List Attribute)) (s : State)
      → Returned (write_each action more s) s
  unfolding write_each pure ◌>>=◌
  write_each-Returned action [] s = (refl, refl)
  write_each-Returned action (attributes ∷ more) s =
      let (returns, same) = write_notes-Returned action attributes s in
      let (returns', same') = write_each-Returned action more (write_notes action attributes s).1 in
      rw returns (returns', same' ∙ same)

  write_notes_vec-Returned :
      (action : Text) (attributes_vec : List (List Attribute)) (s : State)
      → Returned (write_notes_vec action attributes_vec s) s
  unfolding write_notes_vec write_output gets ◌>>=◌
  write_notes_vec-Returned action attributes_vec s =
      let each = write_each-Returned action attributes_vec s in ground (arith, each)

  -- The action returns or throws, and it leaves the known systems alone.
  abbrev Ends : {A : Type 0} → Outcome A → Type 0
  Ends {A} r = ((a : A) × (r ≡ value a)) ⊎ ((what : Text) × (r ≡ raised what))

  abbrev Reads : {A : Type 0} → Action A → Type 0
  Reads m = (s : State) → Ends (m s).0 × ((m s).1.systems ≡ s.systems)

  module _ {A : Type 0} where
    Reads-pure : (a : A) → Reads (pure a)
    unfolding pure
    Reads-pure a s = (inl (a, refl), refl)

    answered_lem :
        (r : Answer A) (s : State) → Ends (answered r s).0 × ((answered r s).1.systems ≡ s.systems)
    answered_lem (returned a) s = (inl (a, refl), refl)
    answered_lem (thrown what) s = (inr (what, refl), refl)

    Reads-call : (c : Call World A) → Reads (call c)
    unfolding call
    Reads-call c s = answered_lem (c s.world).0 (record s { world = (c s.world).1 })

  module _ {A B : Type 0} where
    go_on_lem :
        (r : Outcome A) (k : A → Action B) (t : State)
        → Ends r
        → ((a : A) → Reads (k a))
        → Ends (go_on r k t).0 × ((go_on r k t).1.systems ≡ t.systems)
    go_on_lem r k t (inl (a, e)) h = rw e (h a t)
    go_on_lem r k t (inr (what, e)) h = rw e (inr (what, refl), refl)

    Reads-bind :
        (m : Action A) (k : A → Action B) → Reads m → ((a : A) → Reads (k a)) → Reads (m >>= k)
    unfolding ◌>>=◌
    Reads-bind m k hm h s =
        let (ends, same) = hm s in
        let (ends', same') = go_on_lem (m s).0 k (m s).1 ends h in (ends', same' ∙ same)

  Reads-get_systems : (systems : List System) → Reads (get_systems systems)
  unfolding get_systems get_system_participants
  Reads-get_systems [] = Reads-pure []
  Reads-get_systems (system ∷ systems) =
      Reads-bind _ _ (Reads-bind _ _ (Reads-call (participants_of system)) (λ ps. Reads-pure _))
        (λ attributes. Reads-bind _ _ (Reads-get_systems systems) (λ rest. Reads-pure _))

  -- Every discovered system is known now, under the name it is shown with, if its name was not known before.
  abbrev pub AllKept : List System → State → Outcome Bool × State → Type 0
  AllKept systems s (r, t) =
      (r ≡ value true)
      × ((name : Text) → find name t.systems ≡ old_or_first name (find name s.systems) systems)

  abbrev pub NoneKept : State → Outcome Bool × State → Type 0
  NoneKept s (r, t) = ((what : Text) × (r ≡ raised what)) × (t.systems ≡ s.systems)

  -- What the command does once the participants are read.
  abbrev keep_all : Text → List Text → List System → List (List Attribute) → Action Bool
  keep_all action ts systems systems_attrs = do
    action' ← token (action ∷ ts) 0
    write_notes_vec action' systems_attrs
    emplace_systems systems
    pure true

  keep_all-AllKept :
      (action : Text) (ts : List Text) (systems : List System)
      (attributes_vec : List (List Attribute)) (s : State)
      → is_sorted s.systems ≡ true
      → AllKept systems s (keep_all action ts systems attributes_vec s)
  unfolding pure token ◌>>=◌
  keep_all-AllKept action ts systems attributes_vec s h =
      let t = (write_notes_vec action attributes_vec s).1 in
      let (returns, same) = write_notes_vec-Returned action attributes_vec s in
      let kept = λ (name : Text). find-emplace_systems name systems t (rw same h) in
      rw (returns, (kept []).0)
        (refl, λ name. (kept name).1 ∙ ap (λ m. old_or_first name (find name m) systems) same)

  go_on_all :
      (r : Outcome (List (List Attribute))) (action : Text) (ts : List Text) (systems : List System)
      (s t : State)
      → is_sorted s.systems ≡ true
      → Ends r
      → t.systems ≡ s.systems
      → AllKept systems s (go_on r (keep_all action ts systems) t)
        ⊎ NoneKept s (go_on r (keep_all action ts systems) t)
  go_on_all r action ts systems s t h (inl (attributes_vec, e)) same =
      let (returns, kept) = keep_all-AllKept action ts systems attributes_vec t (rw same h) in
      rw e
        (inl (returns, λ name. kept name ∙ ap (λ m. old_or_first name (find name m) systems) same))
  go_on_all r action ts systems s t h (inr (what, e)) same = rw e (inr ((what, refl), same))

  -- From a session whose known systems are in order, and with all systems discovered: either the command
  -- succeeds, and each of them is known, with the ones that were known before as they were; or reading the
  -- participants of one of them throws, and the known systems are as before.
  pub discover_all_systems-AllKept :
      (action : Text) (ts : List Text) (systems : List System) (s : State) (w : World)
      → is_sorted s.systems ≡ true
      → discover_every_system s.world ≡ (returned systems, w)
      → AllKept systems s (discover_all_systems (action ∷ ts) s)
        ⊎ NoneKept s (discover_all_systems (action ∷ ts) s)
  unfolding discover_all_systems call ◌>>=◌
  discover_all_systems-AllKept action ts systems s w h e =
      let t = record s { world = w } in
      let (ends, same) = Reads-get_systems systems t in
      rw e (
        go_on_all (get_systems systems t).0 action ts systems s (get_systems systems t).1 h ends
          same)
