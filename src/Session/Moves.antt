-- ===== src/Session/Moves.antt =====
-- The changes that the commands make to a session, and the actions that make them. A relation that
-- holds along each of these changes holds along every command.
use mathlib.Core.Bool.{false≢true}
use fep3_base_utilities.Output.{newline}
use fep3_base_utilities.Prelude.{
  any, str_eq, true, false, ◌≡◌, sym, ◌∙◌, Bool, Option, none, some, [], ◌∷◌, ◌++◌, Text, ◌≢◌, refl,
}
use fep3_base_utilities.Effect.{Answer, returned, thrown, faulted, follow, gets, go_on, ◌>>=◌}
use fep3_base_utilities.Effect.Runs.{IsFlow, Runs, runs_rules}
use fep3_base_utilities.Env.{Env, Call}
use fep3_base_utilities.SystemMap.{assign, emplace, erase}
use fep3_base_utilities.Session.{State, Action, answered, call, write_output}

module _ ⦃env : Env⦄ where
  open env use {World, System, Configuration, properties_at, Json, json_compact, json_stream}

  -- A JSON document with a line feed behind it, in one of the two ways of jsoncpp.
  pub data IsDocument : Text → Type 0 where
    compact : (json : Json) → IsDocument (json_compact json ++ newline)
    stream : (json : Json) → IsDocument (json_stream json ++ newline)

  pub record IsSessionFlow (R : State → State → Type 0) : Type 0 where
    pub flow : IsFlow R
    pub acted : (s : State) (w : World) → R s (record s { world = w })
    -- in the JSON mode nothing but documents is printed
    pub printed :
        (s : State) (text : Text)
        → (s.json_mode ≡ true → IsDocument text)
        → R s (record s { output = s.output ++ text ∷ [] })
    pub remembered : (s : State) (name : Text) → R s (record s { last_system_name_used = name })
    pub assigned :
        (s : State) (name : Text) (system : System)
        → R s (record s { systems = assign name system s.systems })
    pub emplaced :
        (s : State) (name : Text) (system : System)
        → R s (record s { systems = emplace name system s.systems })
    pub auto_set : (s : State) (b : Bool) → R s (record s { auto_discovery = b })

  -- Both modes change together.
  abbrev pub SetsMode : (State → State → Type 0) → Bool → Type 0
  SetsMode R b = (s : State) → R s (record s { json_mode = b; monitor_json_mode = b })

  -- Known systems are forgotten.
  pub record Forgets (R : State → State → Type 0) : Type 0 where
    pub erased : (s : State) (name : Text) → R s (record s { systems = erase name s.systems })
    pub cleared : (s : State) → R s (record s { systems = [] })

  -- What only few commands do.
  pub record Resets (R : State → State → Type 0) : Type 0 where
    pub modes : (b : Bool) → SetsMode R b
    pub forgets : Forgets R

  -- A property is only appended where the name of the participant is among the used properties.
  abbrev pub UsesProperty : (State → State → Type 0) → Text → Type 0
  UsesProperty R participant =
      (s : State) (path : Text)
      → any (λ used. str_eq used participant) s.used_properties ≡ true
      → R s (record s { used_properties = s.used_properties ++ path ∷ [] })

  abbrev pub UsesProperties : (State → State → Type 0) → Type 0
  UsesProperties R = (participant : Text) → UsesProperty R participant

  abbrev pub PrintsAll : (State → State → Type 0) → Type 0
  PrintsAll R = (s : State) (text : Text) → R s (record s { output = s.output ++ text ∷ [] })

  pub Runs-write_any :
      {R : State → State → Type 0} → PrintsAll R → (text : Text) → Runs R (write_output text)
  unfolding write_output
  Runs-write_any prints text = record { along = λ s. prints s text; defined = λ s. cc }

  -- The relation between sessions outside of the JSON mode.
  pub Plain : (State → State → Type 0) → State → State → Type 0
  Plain R s t = s.json_mode ≡ false → (t.json_mode ≡ false) × R s t

  pub Plain-flow : {R : State → State → Type 0} → IsFlow R → IsFlow (Plain R)
  unfolding Plain
  Plain-flow flow = record {
    same = λ s h. (h, flow.same s);
    join = λ p q h. let (h', r) = p h in let (h'', r') = q h' in (h'', flow.join r r');
  }

  pub Plain-uses :
      (R : State → State → Type 0) (participant : Text)
      → UsesProperty R participant
      → UsesProperty (Plain R) participant
  unfolding Plain
  Plain-uses R participant uses s path h plain = (plain, uses s path h)

  module _ {R : State → State → Type 0} (moves : IsSessionFlow R) where
    answered_along : {A : Type 0} (r : Answer A) (s t : State) → R s t → R s (answered r t).1
    answered_along (returned a) s t h = h
    answered_along (thrown what) s t h = h

    answered_defined : {A : Type 0} (r : Answer A) (t : State) → (answered r t).0 ≢ faulted
    answered_defined (returned a) t = cc
    answered_defined (thrown what) t = cc

    pub Runs-call : {A : Type 0} (c : Call World A) → Runs R (call c)
    unfolding call
    Runs-call c = record {
      along = λ s.
          answered_along (c s.world).0 s (record s { world = (c s.world).1 })
            (moves.acted s (c s.world).1);
      defined = λ s. answered_defined (c s.world).0 (record s { world = (c s.world).1 });
    }

    pub Runs-write_compact : (json : Json) → Runs R (write_output (json_compact json ++ newline))
    unfolding write_output
    Runs-write_compact json = record {
      along = λ s. moves.printed s _ (λ h. compact json);
      defined = λ s. cc;
    }

    pub Runs-write_stream : (json : Json) → Runs R (write_output (json_stream json ++ newline))
    unfolding write_output
    Runs-write_stream json = record {
      along = λ s. moves.printed s _ (λ h. stream json);
      defined = λ s. cc;
    }

    -- Outside of the JSON mode everything is printed.
    pub Plain-moves : IsSessionFlow (Plain R)
    unfolding Plain
    Plain-moves = record {
      flow = Plain-flow moves.flow;
      acted = λ s w h. (h, moves.acted s w);
      printed = λ s text doc h. (h, moves.printed s text doc);
      remembered = λ s name h. (h, moves.remembered s name);
      assigned = λ s name system h. (h, moves.assigned s name system);
      emplaced = λ s name system h. (h, moves.emplaced s name system);
      auto_set = λ s b h. (h, moves.auto_set s b);
    }

    pub Runs-write_output-Plain : (text : Text) → Runs (Plain R) (write_output text)
    unfolding Plain write_output
    Runs-write_output-Plain text = record {
      along = λ s h. (h, moves.printed s text (λ j. absurd (false≢true (sym h ∙ j))));
      defined = λ s. cc;
    }

  module _ {R : State → State → Type 0} {A : Type 0} (k : Bool → Action A) (json : Runs R (k true))
      (plain : Runs (Plain R) (k false)) where
    by_mode_along : (b : Bool) (s : State) → s.json_mode ≡ b → R s (k b s).1
    unfolding Plain
    by_mode_along true s e = json.along s
    by_mode_along false s e = (plain.along s e).1

    by_mode_defined : (b : Bool) (s : State) → (k b s).0 ≢ faulted
    by_mode_defined true s = json.defined s
    by_mode_defined false s = plain.defined s

    -- What is done in the JSON mode, and what is done outside of it.
    pub Runs-by_mode : Runs R (gets (λ s. s.json_mode) >>= k)
    unfolding gets ◌>>=◌
    Runs-by_mode = record {
      along = λ s. by_mode_along s.json_mode s refl;
      defined = λ s. by_mode_defined s.json_mode s;
    }

  module _ {R : State → State → Type 0} (moves : IsSessionFlow R) where
    follow_along :
        {A B : Type 0} (r : Answer (Option A)) (f : A → Action B) (s t : State)
        → ((a : A) → Runs R (f a))
        → R s t
        → R s (go_on (answered r t).0 (λ o. follow o >>= f) (answered r t).1).1
    unfolding follow ◌>>=◌
    follow_along (returned none) f s t h p = p
    follow_along (returned (some a)) f s t h p = moves.flow.join p ((h a).along t)
    follow_along (thrown what) f s t h p = p

    follow_defined :
        {A B : Type 0} (r : Answer (Option A)) (f : A → Action B) (t : State)
        → ((a : A) → Runs R (f a))
        → r ≢ returned none
        → (go_on (answered r t).0 (λ o. follow o >>= f) (answered r t).1).0 ≢ faulted
    unfolding follow ◌>>=◌
    follow_defined (returned none) f t h p = absurd (p refl)
    follow_defined (returned (some a)) f t h p = (h a).defined t
    follow_defined (thrown what) f t h p = cc

    -- A pointer that the call never leaves null can be followed.
    pub Runs-call-follow :
        {A B : Type 0} (c : Call World (Option A)) (f : A → Action B)
        → ((w : World) → (c w).0 ≢ returned none)
        → ((a : A) → Runs R (f a))
        → Runs R (call c >>= λ o. follow o >>= f)
    unfolding call ◌>>=◌
    Runs-call-follow c f never h = record {
      along = λ s.
          follow_along (c s.world).0 f s (record s { world = (c s.world).1 }) h
            (moves.acted s (c s.world).1);
      defined = λ s.
          follow_defined (c s.world).0 f (record s { world = (c s.world).1 }) h (never s.world);
    }

pub ruleset session_rules = (
  Runs-by_mode, runs_rules, Runs-call, Runs-write_compact, Runs-write_stream,
  Runs-write_output-Plain, Plain-flow, Plain-moves,
)
