-- ===== src/Numbers/RoundTrip.antt =====
-- `std::stoi` on what `std::to_string` prints of an `int`.
use fep3_base_utilities.Prelude.{
  ℕ, zero, suc, ◌+◌, ◌*◌, ◌/◌, ◌%◌, ◌<◌, ◌≤◌, ◌^◌, ltb, codes, true, false, [], ◌∷◌, ◌≡◌, refl, ◌∙◌,
  Text, Bool-cases, inl, inr, arith, decimal, decimal_from,
}
use fep3_base_utilities.Quoting.{is_space}
use fep3_base_utilities.Effect.{returned, thrown}
use fep3_base_utilities.Numbers.{
  ℤ, pos, negsuc, is_digit, to_string, read_digits, read_magnitude, read_sign, stoi,
}
use fep3_base_utilities.Numbers.Bounds.{FitsInt, fits}

read_digits-digit :
    (m d : ℕ) (out : Text)
    → d < 10
    → read_digits m ((b'0' + d) ∷ out) ≡ read_digits (m * 10 + d) out
unfolding read_digits
read_digits-digit m d out h = ground arith

read_digits-decimal_from :
    (f n : ℕ) (out : Text) → n < f → read_digits 0 (decimal_from f n out) ≡ read_digits n out
unfolding decimal_from
read_digits-decimal_from zero n out h = absurd (omega arith)
read_digits-decimal_from (suc f) n out h = ground (
  arith,
  read_digits-digit 0 n out,
  read_digits-digit (n / 10) (n % 10) out,
  read_digits-decimal_from f (n / 10) ((b'0' + n % 10) ∷ out),
)

-- A text that starts with a digit.
abbrev IsNumeral : Text → Type 0
IsNumeral [] = ⊥
IsNumeral (c ∷ s) = is_digit c ≡ true

decimal_from-IsNumeral : (f n : ℕ) (out : Text) → n < f → IsNumeral (decimal_from f n out)
unfolding decimal_from
decimal_from-IsNumeral zero n out h = absurd (omega arith)
decimal_from-IsNumeral (suc f) n out h = elim (Bool-cases (ltb n 10)) [
  | inl e ↦ rw e (ground arith)
  | inr e ↦ rw e (decimal_from-IsNumeral f (n / 10) ((b'0' + n % 10) ∷ out) (ground arith))
]

decimal-IsNumeral : (n : ℕ) → IsNumeral (decimal n)
unfolding decimal
decimal-IsNumeral n = decimal_from-IsNumeral (suc n) n [] (omega arith)

read_digits-decimal : (n : ℕ) → read_digits 0 (decimal n) ≡ n
unfolding decimal
read_digits-decimal n =
    read_digits-decimal_from (suc n) n [] (omega arith) ∙ unfold read_digits in refl

read_magnitude-pos :
    (s : Text) (n : ℕ)
    → IsNumeral s
    → read_digits 0 s ≡ n
    → n < 2 ^ 31
    → read_magnitude false s ≡ returned (pos n)
unfolding read_magnitude
read_magnitude-pos [] n h e fits = absurd h
read_magnitude-pos (c ∷ s) n h e fits = rw (e, h) (ground arith)

read_magnitude-negsuc :
    (s : Text) (n : ℕ)
    → IsNumeral s
    → read_digits 0 s ≡ suc n
    → n < 2 ^ 31
    → read_magnitude true s ≡ returned (negsuc n)
unfolding read_magnitude
read_magnitude-negsuc [] n h e fits = absurd h
read_magnitude-negsuc (c ∷ s) n h e fits = rw (e, h) (ground arith)

read_magnitude-thrown :
    (s : Text) (n : ℕ)
    → read_digits 0 s ≡ n
    → 2 ^ 31 ≤ n
    → read_magnitude false s ≡ thrown (codes "stoi")
unfolding read_magnitude
read_magnitude-thrown [] n e big = refl
read_magnitude-thrown (c ∷ s) n e big = rw e (ground arith)

read_magnitude-minus_thrown :
    (s : Text) (n : ℕ)
    → read_digits 0 s ≡ suc n
    → 2 ^ 31 ≤ n
    → read_magnitude true s ≡ thrown (codes "stoi")
unfolding read_magnitude
read_magnitude-minus_thrown [] n e big = refl
read_magnitude-minus_thrown (c ∷ s) n e big = rw e (ground arith)

stoi-numeral : (s : Text) → IsNumeral s → stoi s ≡ read_magnitude false s
unfolding stoi is_space read_sign
stoi-numeral [] h = absurd h
stoi-numeral (c ∷ s) h = ground arith

stoi-minus : (s : Text) → stoi (b'-' ∷ s) ≡ read_magnitude true s
unfolding stoi is_space read_sign
stoi-minus s = refl

-- Every number of an `int` is read back from its print.
pub stoi-to_string : (z : ℤ) → FitsInt z → stoi (to_string z) ≡ returned z
unfolding to_string
stoi-to_string (pos n) h =
    stoi-numeral (decimal n) (decimal-IsNumeral n)
    ∙ read_magnitude-pos (decimal n) n (decimal-IsNumeral n) (read_digits-decimal n) h
stoi-to_string (negsuc n) h =
    stoi-minus (decimal (suc n))
    ∙ read_magnitude-negsuc (decimal (suc n)) n (decimal-IsNumeral (suc n))
        (read_digits-decimal (suc n)) h

-- And every other number is refused.
pub stoi-thrown : (z : ℤ) → fits z ≡ false → stoi (to_string z) ≡ thrown (codes "stoi")
unfolding to_string
stoi-thrown (pos n) h =
    stoi-numeral (decimal n) (decimal-IsNumeral n)
    ∙ read_magnitude-thrown (decimal n) n (read_digits-decimal n) (ground arith)
stoi-thrown (negsuc n) h =
    stoi-minus (decimal (suc n))
    ∙ read_magnitude-minus_thrown (decimal (suc n)) n (read_digits-decimal (suc n)) (ground arith)
