-- ===== src/Numbers/Bounds.antt =====
-- `std::stoi` returns an `int` of 32 bits, or throws.
use fep3_base_utilities.Prelude.{ltb, ◌<◌, ◌^◌, Bool, true, ◌≡◌, arith}
use fep3_base_utilities.Numbers.{ℤ, pos, negsuc}

-- From -2^31 to 2^31 - 1.
abbrev pub FitsInt : ℤ → Type 0
FitsInt (pos n) = n < 2 ^ 31
FitsInt (negsuc n) = n < 2 ^ 31

abbrev pub fits : ℤ → Bool
fits (pos n) = ltb n (2 ^ 31)
fits (negsuc n) = ltb n (2 ^ 31)

pub fits-FitsInt : (z : ℤ) → fits z ≡ true → FitsInt z
fits-FitsInt (pos n) h = ground arith
fits-FitsInt (negsuc n) h = ground arith
