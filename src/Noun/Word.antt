-- ===== src/Noun/Word.antt =====
-- The tag bits of noun.h: how a 64-bit word is read as a direct atom, an indirect atom or a cell.
use trinitite.Base.{
  ℕ, ◌+◌, ◌*◌, ◌/◌, ◌%◌, ◌^◌, ◌<◌, bit_and, bit_or, Bool, true, false, not, ◌==◌, ◌≡◌, ◌⊎◌, arith,
}
use trinitite.Base.Bits.{bit_and-mask, bit_or-shifted}

abbrev tag_indirect : ℕ
tag_indirect = 2 * 2 ^ 62

abbrev tag_cell : ℕ
tag_cell = 3 * 2 ^ 62

unfoldable pub noun_is_direct : ℕ → Bool
noun_is_direct n = n / 2 ^ 63 == 0

unfoldable pub noun_is_indirect : ℕ → Bool
noun_is_indirect n = n / 2 ^ 62 == 2

unfoldable pub noun_is_cell : ℕ → Bool
noun_is_cell n = n / 2 ^ 62 == 3

unfoldable pub noun_is_atom : ℕ → Bool
noun_is_atom n = not (n / 2 ^ 62 == 3)

unfoldable pub direct_word : ℕ → ℕ
direct_word val = bit_and val 0x7FFFFFFFFFFFFFFF

unfoldable pub direct_val : ℕ → ℕ
direct_val n = bit_and n 0x7FFFFFFFFFFFFFFF

-- The pointer is a uint32_t.
unfoldable pub cell_word : ℕ → ℕ
cell_word ptr = bit_or tag_cell ptr

unfoldable pub cell_ptr : ℕ → ℕ
cell_ptr n = bit_and n 0xFFFFFFFF % 2 ^ 32

unfoldable pub indirect_word : ℕ → ℕ
indirect_word hash = bit_or tag_indirect (bit_and hash 0x3FFFFFFFFFFFFFFF)

unfoldable pub indirect_hash : ℕ → ℕ
indirect_hash n = bit_and n 0x3FFFFFFFFFFFFFFF

-- Every 64-bit word is exactly one of a direct atom, an indirect atom and a cell, and an atom is
-- what is not a cell.
pub tags_partition :
    (n : ℕ)
    → n < 2 ^ 64
    → ((noun_is_direct n ≡ true) × (noun_is_indirect n ≡ false) × (noun_is_cell n ≡ false)
        ⊎ ((noun_is_direct n ≡ false) × (noun_is_indirect n ≡ true) × (noun_is_cell n ≡ false)
            ⊎ (noun_is_direct n ≡ false) × (noun_is_indirect n ≡ false) × (noun_is_cell n ≡ true)))
      × (noun_is_atom n ≡ not (noun_is_cell n))
unfolding noun_is_direct noun_is_indirect noun_is_cell noun_is_atom
tags_partition n h = ground arith

-- Packing and unpacking lose nothing in the range of each kind, and the packed word carries the tag
-- of its kind: 63-bit values, 62-bit hashes and 32-bit cell pointers.
pub pack-unpack :
    (v hash ptr : ℕ)
    → v < 2 ^ 63
    → hash < 2 ^ 62
    → ptr < 2 ^ 32
    → (direct_val (direct_word v) ≡ v)
      × (noun_is_direct (direct_word v) ≡ true)
      × (indirect_hash (indirect_word hash) ≡ hash)
      × (noun_is_indirect (indirect_word hash) ≡ true)
      × (cell_ptr (cell_word ptr) ≡ ptr)
      × (noun_is_cell (cell_word ptr) ≡ true)
unfolding noun_is_direct noun_is_indirect noun_is_cell direct_word direct_val cell_word cell_ptr
    indirect_word indirect_hash
pack-unpack v hash ptr hv hh hp = (
  ground (arith, bit_and-mask 63 v, bit_and-mask 63 (bit_and v 0x7FFFFFFFFFFFFFFF)),
  ground (arith, bit_and-mask 63 v),
  ground
      (arith, bit_and-mask 62 hash, bit_or-shifted 62 2 hash, bit_and-mask 62 (2 * 2 ^ 62 + hash)),
  ground (arith, bit_and-mask 62 hash, bit_or-shifted 62 2 hash),
  ground (arith, bit_or-shifted 62 3 ptr, bit_and-mask 32 (3 * 2 ^ 62 + ptr)),
  ground (arith, bit_or-shifted 62 3 ptr),
)
