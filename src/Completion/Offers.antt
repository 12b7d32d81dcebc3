-- ===== src/Completion/Offers.antt =====
-- What the completion offers: the systems that are known, and lines that are parsed as they should.
use fep3_base_utilities.Prelude.{
  Bool, true, false, ◌&&◌, Option, none, some, List, [], ◌∷◌, ◌++◌, map, ◌≡◌, refl, sym, ap, ◌∙◌,
  Text, codes, All, any, str_eq, str_eq_iff, starts_with, arith, append_assoc,
}
use fep3_base_utilities.Quoting.{quote_name_if_necessary}
use fep3_base_utilities.Lexer.{parse_line}
use fep3_base_utilities.Lexer.Spaced.{spaced}
use fep3_base_utilities.Lexer.RoundTrip.{IsSafe, parse_line-quote_name_if_necessary}
use fep3_base_utilities.Env.{Env}
use fep3_base_utilities.SystemMap.{SystemMap, find}
use fep3_base_utilities.Completion.{completions, keys, completed_lines}

abbrev pub is_known : {V : Type 0} → Option V → Bool
is_known none = false
is_known (some v) = true

starts_with_same : (p n name : Text) → str_eq n name ≡ true → starts_with p n ≡ starts_with p name
starts_with_same p n name h = rw ((str_eq_iff n name).0 h) refl

-- A name is offered for a prefix just if it begins with the prefix and a system is known under it.
pub any-completions :
    {V : Type 0} (word_prefix name : Text) (m : SystemMap V)
    → any (λ offered. str_eq offered name) (completions word_prefix (keys m))
      ≡ (starts_with word_prefix name && is_known (find name m))
unfolding completions keys find
any-completions word_prefix name [] = ground arith
any-completions word_prefix name ((n, system) ∷ m) =
    ground (arith, any-completions word_prefix name m, starts_with_same word_prefix n name)

spaced-snoc :
    (v : Text) (ws : List Text) (u : Text)
    → spaced ((v ∷ ws) ++ u ∷ []) ≡ spaced (v ∷ ws) ++ b' ' ∷ u
spaced-snoc v [] u = refl
spaced-snoc v (w ∷ ws) u = rw (spaced-snoc w ws u, append_assoc) refl

All-snoc : (P : Text → Type 0) (ws : List Text) (u : Text) → All P ws → P u → All P (ws ++ u ∷ [])
All-snoc P [] u h hu = (hu, tt)
All-snoc P (w ∷ ws) u (hw, h) hu = (hw, All-snoc P ws u h hu)

map-snoc :
    (f : Text → Text) (ws : List Text) (u : Text) → map f (ws ++ u ∷ []) ≡ map f ws ++ f u ∷ []
map-snoc f [] u = refl
map-snoc f (w ∷ ws) u = rw (map-snoc f ws u) refl

module _ ⦃env : Env⦄ where
  open env use {join}

  completed_line :
      (name : Text) (tokens : List Text) (word : Text)
      → ((words : List Text) → join words (codes " ") ≡ spaced words)
      → (join (map quote_name_if_necessary (name ∷ tokens)) (codes " ") ++ codes " ")
          ++ quote_name_if_necessary word
        ≡ spaced (map quote_name_if_necessary ((name ∷ tokens) ++ word ∷ []))
  unfolding codes
  completed_line name tokens word joins =
      rw (joins, append_assoc)
        (sym (
          ap spaced (map-snoc quote_name_if_necessary (name ∷ tokens) word)
          ∙ spaced-snoc (quote_name_if_necessary name) (map quote_name_if_necessary tokens)
              (quote_name_if_necessary word)))

  -- Every line that the completion of an argument offers is parsed to the tokens before the last one
  -- and the word that is offered, if these are names whose quoting the parser understands, and `join`
  -- puts the separator between the words.
  pub parse_line-completed_lines :
      (name : Text) (tokens exec : List Text)
      → ((words : List Text) → join words (codes " ") ≡ spaced words)
      → All IsSafe (name ∷ tokens)
      → All IsSafe exec
      → map (λ line. parse_line line false) (completed_lines (name ∷ tokens) exec)
        ≡ map (λ word. (name ∷ tokens) ++ word ∷ []) exec
  unfolding completed_lines
  parse_line-completed_lines name tokens [] joins safe safe' = refl
  parse_line-completed_lines name tokens (word ∷ exec) joins safe (hw, safe') =
      rw
        (
          completed_line name tokens word joins,
          parse_line-quote_name_if_necessary ((name ∷ tokens) ++ word ∷ [])
              (All-snoc IsSafe (name ∷ tokens) word safe hw),
          parse_line-completed_lines name tokens exec joins safe safe',
        )
        refl
