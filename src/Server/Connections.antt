-- ===== src/Server/Connections.antt =====
-- The list of the active connections: which instances it holds, and that it holds each once.
use fep3_base_utilities.Prelude.{
  ℕ, Bool, true, false, not, ◌&&◌, List, [], ◌∷◌, ◌≡◌, refl, any, ◌==◌, if◌then◌else◌, arith,
}
use fep3_base_utilities.Server.{add_connection, remove_connection}

abbrev pub is_listed : ℕ → List ℕ → Bool
is_listed i active_connections = any (λ j. j == i) active_connections

abbrev pub is_unique : List ℕ → Bool
is_unique [] = true
is_unique (i ∷ is) = not (is_listed i is) && is_unique is

pub is_listed-add :
    (i j : ℕ) (c : List ℕ)
    → is_listed i (add_connection j c) ≡ (if j == i then true else is_listed i c)
unfolding add_connection
is_listed-add i j [] = ground arith
is_listed-add i j (k ∷ c) = ground (arith, is_listed-add i j c)

pub is_unique-add :
    (j : ℕ) (c : List ℕ)
    → is_listed j c ≡ false
    → is_unique c ≡ true
    → is_unique (add_connection j c) ≡ true
unfolding add_connection
is_unique-add j [] h u = refl
is_unique-add j (k ∷ c) h u = ground (arith, is_unique-add j c, is_listed-add k j c)

pub is_listed-remove :
    (i j : ℕ) (c : List ℕ)
    → is_listed i (remove_connection j c) ≡ (if j == i then false else is_listed i c)
unfolding remove_connection
is_listed-remove i j [] = ground arith
is_listed-remove i j (k ∷ c) = ground (arith, is_listed-remove i j c)

pub is_unique-remove :
    (j : ℕ) (c : List ℕ) → is_unique c ≡ true → is_unique (remove_connection j c) ≡ true
unfolding remove_connection
is_unique-remove j [] u = refl
is_unique-remove j (k ∷ c) u = ground (arith, is_unique-remove j c, is_listed-remove k j c)
