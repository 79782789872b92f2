-- ===== src/Config/Numbers.antt =====
-- sdr-udp/src/config_parser.cpp, `get_uint32`: the numbers that are read back from their decimal digits, as
-- `std::stoul` and `std::stoi` read them.
use sdr_rdma_udp.Common.{
  ℕ, ◌+◌, ◌-◌, ◌*◌, ◌^◌, ◌<◌, ◌≡◌, refl, Bool, true, false, ◌&&◌, some, List, [], ◌∷◌, ltb, ◌==◌,
  arith, map,
}
use sdr_rdma_udp.Config.{
  Text, Entries, digits_from, unsigned_of, signed_of, stoul, skip_space, is_space, is_digit,
  get_uint32, find,
}

-- The number of a row of decimal digits, after those that make `value`, and their characters.
abbrev pub value_from : ℕ → List ℕ → ℕ
value_from value [] = value
value_from value (d ∷ ds) = value_from (value * 10 + d) ds

abbrev pub are_digits : List ℕ → Bool
are_digits [] = true
are_digits (d ∷ ds) = ltb d 10 && are_digits ds

abbrev pub numeral : List ℕ → Text
numeral ds = map (λ d. d + 48) ds

digits_from-numeral :
    (value : ℕ) (ds : List ℕ)
    → are_digits ds ≡ true
    → digits_from value (numeral ds) ≡ value_from value ds
unfolding digits_from
digits_from-numeral value [] h = refl
digits_from-numeral value (d ∷ ds) h =
    let below : d < 10 = ground arith in
    let later : are_digits ds ≡ true = ground arith in
    let same : d + 48 - 48 ≡ d = omega arith in
    let digit : is_digit (d + 48) ≡ true = ground arith in
    rw (digit, same) (digits_from-numeral (value * 10 + d) ds later)

pub unsigned_of-numeral :
    (d : ℕ) (ds : List ℕ)
    → are_digits (d ∷ ds) ≡ true
    → value_from 0 (d ∷ ds) < 2 ^ 64
    → unsigned_of (numeral (d ∷ ds)) ≡ some (value_from 0 (d ∷ ds))
unfolding unsigned_of
unsigned_of-numeral d ds h fits =
    let digit : is_digit (d + 48) ≡ true = ground arith in
    ground (arith, digit, digits_from-numeral 0 (d ∷ ds) h)

pub skip_space-numeral :
    (d : ℕ) (ds : List ℕ) → d < 10 → skip_space (numeral (d ∷ ds)) ≡ numeral (d ∷ ds)
unfolding skip_space
skip_space-numeral d ds below =
    let other : is_space (d + 48) ≡ false = ground arith in rw other refl

-- `std::stoul` reads the number of decimal digits that fits 64 bits.
pub stoul-numeral :
    (d : ℕ) (ds : List ℕ)
    → are_digits (d ∷ ds) ≡ true
    → value_from 0 (d ∷ ds) < 2 ^ 64
    → stoul (numeral (d ∷ ds)) ≡ some (value_from 0 (d ∷ ds))
unfolding stoul signed_of
stoul-numeral d ds h fits =
    let below : d < 10 = ground arith in
    let plus : ((d + 48) == 43) ≡ false = ground arith in
    let minus : ((d + 48) == 45) ≡ false = ground arith in
    rw (skip_space-numeral d ds below, plus, minus) (unsigned_of-numeral d ds h fits)

-- A key with decimal digits gives their number, where it fits 32 bits, whatever the default.
pub get_uint32-numeral :
    (entries : Entries) (key : Text) (default_value d : ℕ) (ds : List ℕ)
    → find entries key ≡ some (numeral (d ∷ ds))
    → are_digits (d ∷ ds) ≡ true
    → value_from 0 (d ∷ ds) < 2 ^ 32
    → get_uint32 entries key default_value ≡ value_from 0 (d ∷ ds)
unfolding get_uint32
get_uint32-numeral entries key default_value d ds found h fits =
    rw (found, get_uint32, stoul-numeral d ds h (omega arith)) (omega arith)
