-- ===== src/Numbers.antt =====
-- The integers of the sources, and `std::stoi` and `std::to_string` of the standard library.
pub mod Bounds
pub mod RoundTrip
use fep3_base_utilities.Prelude.{
  ℕ, suc, ◌+◌, ◌-◌, ◌*◌, Bool, true, false, ◌&&◌, [], ◌∷◌, ◌≡◌, refl, Text, codes, decimal, leb,
  ltb, ◌==◌, ◌^◌, if◌then◌else◌,
}
use fep3_base_utilities.Quoting.{is_space}
use fep3_base_utilities.Effect.{Answer, returned, thrown}

-- `negsuc n` is -(n + 1).
pub data ℤ : Type 0 where
  pos : ℕ → ℤ
  negsuc : ℕ → ℤ

unfoldable pub to_string : ℤ → Text
to_string (pos n) = decimal n
to_string (negsuc n) = b'-' ∷ decimal (suc n)

abbrev pub is_digit : ℕ → Bool
is_digit c = leb b'0' c && leb c b'9'

-- The number that the leading digits spell, behind the number read so far.
unfoldable pub read_digits : ℕ → Text → ℕ
read_digits n [] = n
read_digits n (c ∷ s) =
    let more = read_digits (n * 10 + (c - b'0')) s in if is_digit c then more else n

-- An `int` has 32 bits.
abbrev int_limit : ℕ
int_limit = 2 ^ 31

-- The first argument tells whether a minus sign was read.
unfoldable pub read_magnitude : Bool → Text → Answer ℤ
unfolding read_digits
read_magnitude minus [] = thrown (codes "stoi")
read_magnitude minus (c ∷ s) =
    let n = read_digits 0 (c ∷ s) in
    if is_digit c
    then (if minus
        then (if n == 0
            then returned (pos 0)
            else if leb n int_limit
            then returned (negsuc (n - 1))
            else thrown (codes "stoi"))
        else (if ltb n int_limit then returned (pos n) else thrown (codes "stoi")))
    else thrown (codes "stoi")

unfoldable pub read_sign : Text → Answer ℤ
unfolding read_magnitude
read_sign [] = thrown (codes "stoi")
read_sign (c ∷ s) =
    if c == b'-'
    then read_magnitude true s
    else if c == b'+'
    then read_magnitude false s
    else read_magnitude false (c ∷ s)

-- `std::stoi`: white spaces, a sign, digits; what follows them is ignored.
unfoldable pub stoi : Text → Answer ℤ
unfolding read_sign is_space
stoi [] = thrown (codes "stoi")
stoi (c ∷ s) = if is_space c then stoi s else read_sign (c ∷ s)

stoi_examples :
    (stoi (codes " -12x") ≡ returned (ℤ.negsuc 11))
    × (stoi (codes "2147483648") ≡ thrown (codes "stoi"))
    × (stoi (codes "-2147483648") ≡ returned (ℤ.negsuc 2147483647))
    × (stoi (codes "x") ≡ thrown (codes "stoi"))
unfolding stoi codes
stoi_examples = (refl, refl, refl, refl)
