-- ===== src/Tests/Atoms.antt =====
-- Nouns, limbs and arithmetic at concrete inputs.
use trinitite.Base.{
  none, get_or, ◌%◌, Bool, ◌^◌, length, ◌≢◌, bit_or, bit_and, bit_xor, ℕ, ◌+◌, ◌-◌, ◌*◌, ◌≤◌, ◌<◌,
  ◌≡◌, ◌↔◌, refl, List, [], ◌∷◌, arith, true, replicate, take, Ordering, compare,
}
use trinitite.Base.Outcome.{ok, crash, fault}
use trinitite.Noun.{Noun, indirect, limbs_eq}
use trinitite.Noun.Store.{make_atom_in, store_after}
use trinitite.Noun.Word.{
  noun_is_direct, noun_is_indirect, noun_is_cell, direct_word, direct_val, cell_word, cell_ptr,
  indirect_word, indirect_hash, pack-unpack,
}
use trinitite.Noun.Limbs.{value}
use trinitite.Noun.Atom.{make_atom, Yields, val, make_atom-Yields}
use trinitite.Bignum.Scratch.{max_limbs, scratch_of, Fits}
use trinitite.Bignum.Add.{bn_add, bn_add-Yields}
use trinitite.Bignum.Step.{bn_inc, bn_dec, bn_inc-Yields, bn_dec-Yields, TooLong, bn_inc-fault}
use trinitite.Bignum.Compare.{bn_cmp, bn_cmp-eq-compare, bn_cmp-truncates}
use trinitite.Bignum.Decimal.{number, AllDigits, bn_from_decimal, bn_from_decimal-Yields}
use trinitite.Bignum.Print.{bn_to_decimal, decimal_max, bn_from_decimal-bn_to_decimal}
use trinitite.Bignum.Bitwise.{bn_or, bn_and, bn_xor, bn_bitwise-Yields}
use trinitite.Bignum.Shift.{bn_lsh, lsh_size, bn_lsh-Yields}
use trinitite.Bignum.Sub.{bn_sub, bn_sub-Yields}
use trinitite.Bignum.Mul.{bn_mul, bn_mul-Yields}

abbrev top : ℕ
top = 0xFFFFFFFFFFFFFFFF

-- 2 ^ 128 - 1, and 2 ^ 64
abbrev all_ones : Noun
all_ones = indirect (top ∷ top ∷ [])

abbrev one_over : Noun
one_over = indirect (0 ∷ 1 ∷ [])

abbrev huge : List ℕ
huge = replicate 66 1

-- Two arrays that differ above the limb where the comparison stops.
abbrev other_huge : List ℕ
other_huge = replicate 67 1

all_ones-Fits : Fits all_ones
all_ones-Fits = omega arith

one_over-Fits : Fits one_over
one_over-Fits = omega arith

bn_inc-carry : bn_inc all_ones ≡ ok (indirect (0 ∷ 0 ∷ 1 ∷ []))
unfolding bn_inc
bn_inc-carry = refl

pack-unpack_example :
    (direct_val (direct_word 5) ≡ 5)
    × (noun_is_direct (direct_word 5) ≡ true)
    × (indirect_hash (indirect_word 77) ≡ 77)
    × (noun_is_indirect (indirect_word 77) ≡ true)
    × (cell_ptr (cell_word 4096) ≡ 4096)
    × (noun_is_cell (cell_word 4096) ≡ true)
pack-unpack_example = pack-unpack 5 77 4096 (omega arith) (omega arith) (omega arith)

make_atom-Yields_example : Yields (make_atom (7 ∷ 9 ∷ 0 ∷ []) 3) (value (take 3 (7 ∷ 9 ∷ 0 ∷ [])))
make_atom-Yields_example = make_atom-Yields (7 ∷ 9 ∷ 0 ∷ []) 2 (omega arith) (omega arith)

-- A hash of few values, and a store of two atoms under it.
abbrev low_bits : List ℕ → ℕ
low_bits l = get_or l 0 0 % 4

abbrev two_atoms : List (List ℕ × ℕ × Bool)
two_atoms = (3 ∷ 1 ∷ 0 ∷ [], 3, true) ∷ (4 ∷ 1 ∷ [], 2, true) ∷ []

-- A third atom with the hash of one of them is refused.
make_atom_in-collision :
    make_atom_in low_bits (8 ∷ 1 ∷ []) 2 true (store_after low_bits two_atoms)
    ≡ (none, (3 ∷ 1 ∷ []) ∷ (4 ∷ 1 ∷ []) ∷ [])
unfolding make_atom_in limbs_eq
make_atom_in-collision = refl

bn_inc-Yields_example : Yields (bn_inc all_ones) (val all_ones + 1)
bn_inc-Yields_example = bn_inc-Yields all_ones all_ones-Fits

bn_dec-Yields_example :
    ((v : ℕ) → val one_over ≡ v + 1 → Yields (bn_dec one_over) v)
    × (val one_over ≡ 0 → bn_dec one_over ≡ crash "bn_dec: underflow")
bn_dec-Yields_example = bn_dec-Yields one_over one_over-Fits

bn_inc-fault_example : (bn_inc (indirect huge) ≡ fault) ↔ TooLong huge
bn_inc-fault_example = bn_inc-fault huge

bn_cmp-eq-compare_example : bn_cmp one_over all_ones ≡ ok (compare (val one_over) (val all_ones))
bn_cmp-eq-compare_example = bn_cmp-eq-compare one_over all_ones one_over-Fits all_ones-Fits

bn_cmp-truncates_example : bn_cmp (indirect huge) (indirect other_huge) ≡ ok Ordering.eq
bn_cmp-truncates_example = bn_cmp-truncates huge other_huge (omega arith) (omega arith) refl

bn_add-Yields_example : Yields (bn_add all_ones one_over) (val all_ones + val one_over)
bn_add-Yields_example = bn_add-Yields all_ones one_over all_ones-Fits one_over-Fits

bn_sub-Yields_example :
    (val one_over ≤ val all_ones → Yields (bn_sub all_ones one_over) (val all_ones - val one_over))
    × (val all_ones < val one_over → bn_sub all_ones one_over ≡ crash "bn_sub: underflow")
bn_sub-Yields_example = bn_sub-Yields all_ones one_over all_ones-Fits one_over-Fits

bn_mul-Yields_example : Yields (bn_mul all_ones all_ones) (val all_ones * val all_ones)
bn_mul-Yields_example = bn_mul-Yields all_ones all_ones all_ones-Fits all_ones-Fits

bn_from_decimal-Yields_example :
    Yields (bn_from_decimal (49 ∷ 50 ∷ 48 ∷ [])) (number 0 (49 ∷ 50 ∷ 48 ∷ []))
bn_from_decimal-Yields_example =
    bn_from_decimal-Yields (49 ∷ 50 ∷ 48 ∷ []) (omega arith) (omega arith)

bn_from_decimal-bn_to_decimal_example :
    (text : List ℕ) × (bn_to_decimal all_ones decimal_max ≡ ok text)
    × (number 0 text ≡ val all_ones)
    × AllDigits text
    × (bn_from_decimal text ≡ ok all_ones)
bn_from_decimal-bn_to_decimal_example =
    bn_from_decimal-bn_to_decimal all_ones all_ones-Fits (omega arith)

bn_bitwise-Yields_example :
    Yields (bn_or all_ones one_over) (bit_or (val all_ones) (val one_over))
    × Yields (bn_and all_ones one_over) (bit_and (val all_ones) (val one_over))
    × Yields (bn_xor all_ones one_over) (bit_xor (val all_ones) (val one_over))
bn_bitwise-Yields_example = bn_bitwise-Yields all_ones one_over all_ones-Fits one_over-Fits

abbrev seventy : ℕ
seventy = 70

bn_lsh-Yields_example :
    (lsh_size (length (scratch_of all_ones)) seventy ≤ max_limbs
      → Yields (bn_lsh all_ones seventy) (val all_ones * 2 ^ seventy))
    × (max_limbs < lsh_size (length (scratch_of all_ones)) seventy
        → seventy ≢ 0
        → bn_lsh all_ones seventy ≡ crash "bn_lsh: result too large")
bn_lsh-Yields_example = bn_lsh-Yields all_ones seventy all_ones-Fits
