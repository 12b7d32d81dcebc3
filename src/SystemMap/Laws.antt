-- ===== src/SystemMap/Laws.antt =====
-- The laws of the map: what a lookup finds behind each change, and the order of the keys.
use fep3_base_utilities.Prelude.{
  true, false, none, some, [], ◌∷◌, ◌≡◌, refl, Text, str_eq, str_lt, if◌then◌else◌, str_eq_iff,
  arith,
}
use mathlib.Core.Option.{get_or}
use fep3_base_utilities.SystemMap.{SystemMap, find, assign, emplace, erase, is_below, is_sorted}

str_lt_trans : (a b c : Text) → str_lt a b ≡ true → str_lt b c ≡ true → str_lt a c ≡ true
str_lt_trans a [] c p q = cc
str_lt_trans a (y ∷ b) [] p q = cc
str_lt_trans [] (y ∷ b) (z ∷ c) p q = refl
str_lt_trans (x ∷ a) (y ∷ b) (z ∷ c) p q = ground (arith, str_lt_trans a b c)

pub str_lt_ne : (a b : Text) → str_lt a b ≡ true → str_eq b a ≡ false
str_lt_ne a [] p = cc
str_lt_ne [] (y ∷ b) p = refl
str_lt_ne (x ∷ a) (y ∷ b) p = ground (arith, str_lt_ne a b)

-- Two different keys stand in one order or the other.
pub str_lt_total : (a b : Text) → str_eq a b ≡ false → str_lt b a ≡ false → str_lt a b ≡ true
str_lt_total [] [] p q = cc
str_lt_total [] (y ∷ b) p q = refl
str_lt_total (x ∷ a) [] p q = cc
str_lt_total (x ∷ a) (y ∷ b) p q = ground (arith, str_lt_total a b)

module _ {V : Type 0} where
  -- After an assignment the key has the new value, and every other key has what it had.
  pub find-assign :
      (k j : Text) (v : V) (m : SystemMap V)
      → find j (assign k v m) ≡ (if str_eq k j then some v else find j m)
  unfolding find assign
  find-assign k j v [] = refl
  find-assign k j v ((i, w) ∷ m) =
      ground (arith, str_eq_iff k j, str_eq_iff i k, str_eq_iff i j, find-assign k j v m)

  -- After an erasure nothing is found under the key, and every other key has what it had.
  pub find-erase :
      (k j : Text) (m : SystemMap V) → find j (erase k m) ≡ (if str_eq k j then none else find j m)
  unfolding find erase
  find-erase k j [] = ground arith
  find-erase k j ((i, w) ∷ m) =
      ground (arith, str_eq_iff k j, str_eq_iff i k, str_eq_iff i j, find-erase k j m)

  pub is_below_trans :
      (k j : Text) (m : SystemMap V) → str_lt k j ≡ true → is_below j m ≡ true → is_below k m ≡ true
  is_below_trans k j [] p q = refl
  is_below_trans k j ((i, w) ∷ m) p q = ground (arith, str_lt_trans k j i, is_below_trans k j m)

  pub find_below : (k : Text) (m : SystemMap V) → is_below k m ≡ true → find k m ≡ none
  unfolding find
  find_below k [] h = refl
  find_below k ((j, v) ∷ m) h = ground (arith, find_below k m, str_lt_ne k j)

  -- In a map that is in order, a new entry is found, unless the key was there before: then the old one
  -- stays. Every other key has what it had.
  pub find-emplace :
      (k j : Text) (v : V) (m : SystemMap V)
      → is_sorted m ≡ true
      → find j (emplace k v m) ≡ (if str_eq k j then some (get_or (find k m) v) else find j m)
  unfolding find emplace
  find-emplace k j v [] h = refl
  find-emplace k j v ((i, w) ∷ m) h = ground (
    arith,
    str_eq_iff k j,
    str_eq_iff i k,
    str_eq_iff i j,
    find-emplace k j v m,
    find_below k m,
    is_below_trans k i m,
  )

  is_below-assign :
      (i k : Text) (v : V) (m : SystemMap V)
      → str_lt i k ≡ true
      → is_below i m ≡ true
      → is_below i (assign k v m) ≡ true
  unfolding assign
  is_below-assign i k v [] p q = ground arith
  is_below-assign i k v ((j, w) ∷ m) p q = ground (arith, is_below-assign i k v m, str_eq_iff j k)

  is_below-emplace :
      (i k : Text) (v : V) (m : SystemMap V)
      → str_lt i k ≡ true
      → is_below i m ≡ true
      → is_below i (emplace k v m) ≡ true
  unfolding emplace
  is_below-emplace i k v [] p q = ground arith
  is_below-emplace i k v ((j, w) ∷ m) p q = ground (arith, is_below-emplace i k v m)

  is_below-erase :
      (i k : Text) (m : SystemMap V) → is_below i m ≡ true → is_below i (erase k m) ≡ true
  unfolding erase
  is_below-erase i k [] q = refl
  is_below-erase i k ((j, w) ∷ m) q = ground (arith, is_below-erase i k m)

  pub is_sorted-assign :
      (k : Text) (v : V) (m : SystemMap V) → is_sorted m ≡ true → is_sorted (assign k v m) ≡ true
  unfolding assign
  is_sorted-assign k v [] h = refl
  is_sorted-assign k v ((j, w) ∷ m) h = ground (
    arith,
    is_sorted-assign k v m,
    is_below-assign j k v m,
    is_below_trans k j m,
    str_lt_total j k,
    str_eq_iff j k,
  )

  pub is_sorted-emplace :
      (k : Text) (v : V) (m : SystemMap V) → is_sorted m ≡ true → is_sorted (emplace k v m) ≡ true
  unfolding emplace
  is_sorted-emplace k v [] h = refl
  is_sorted-emplace k v ((j, w) ∷ m) h = ground (
    arith,
    is_sorted-emplace k v m,
    is_below-emplace j k v m,
    is_below_trans k j m,
    str_lt_total j k,
  )

  pub is_sorted-erase :
      (k : Text) (m : SystemMap V) → is_sorted m ≡ true → is_sorted (erase k m) ≡ true
  unfolding erase
  is_sorted-erase k [] h = refl
  is_sorted-erase k ((j, w) ∷ m) h = ground (arith, is_sorted-erase k m, is_below-erase j k m)
