-- ===== src/Bloom.antt =====
-- src/lsm/bloom_filter.h and bloom_filter.cpp: the filter that tells which keys a table may hold.
-- `hash key seed` stands for `XXH64(&key, 8, seed)`, a parameter. Bytes are natural numbers.
pub mod Member
pub mod Bytes
mod Tests
use amind.Prelude.{
  ℕ, zero, suc, ◌+◌, ◌*◌, ◌/◌, ◌%◌, ◌^◌, Bool, true, false, not, Option, none, some, List, [], ◌∷◌,
  bit_and, bit_or, ltb, ◌==◌, if◌then◌else◌, length, get_elem?, set, replicate,
}

pub record BloomFilter : Type 0 where
  pub bits : List ℕ
  pub num_bits : ℕ
  pub num_hash_funcs : ℕ

abbrev maximum : ℕ → ℕ → ℕ
maximum a b = if ltb a b then b else a

abbrev clamp : (low high n : ℕ) → ℕ
clamp low high n = if ltb n low then low else (if ltb high n then high else n)

-- The constructor; `rounded` is `std::round(bits_per_key * ln 2)`. Clearing the three lowest bits
-- is written with `/` and `*`.
unfoldable pub init : (rounded expected_key_count bits_per_key : ℕ) → BloomFilter
init rounded expected_key_count bits_per_key =
    let wanted = maximum 64 (expected_key_count * bits_per_key % 2 ^ 64) in
    let num_bits = (wanted + 7) % 2 ^ 64 / 8 * 8 in
    record {
      bits = replicate (num_bits / 8) 0;
      num_bits = num_bits;
      num_hash_funcs = clamp 1 30 rounded;
    }

-- The constructor from bytes.
unfoldable pub from_bits : (serialized_bits : List ℕ) (num_hash_funcs : ℕ) → BloomFilter
from_bits serialized_bits num_hash_funcs = record {
  bits = serialized_bits;
  num_bits = length serialized_bits * 8;
  num_hash_funcs = num_hash_funcs;
}

-- An access out of range, which the code does not check, changes and finds nothing here. The mask
-- is below 2 ^ 8, so the byte that is written back loses nothing.
unfoldable pub set_bit : (bit_index : ℕ) → List ℕ → List ℕ
set_bit bit_index bits = elim (get_elem? bits (bit_index / 8)) [
  | none ↦ bits
  | some b ↦ set bits (bit_index / 8) (bit_or b (2 ^ (bit_index % 8)))
]

unfoldable pub test_bit : (bit_index : ℕ) → List ℕ → Bool
test_bit bit_index bits = elim (get_elem? bits (bit_index / 8)) [
  | none ↦ false
  | some b ↦ not (bit_and b (2 ^ (bit_index % 8)) == 0)
]

-- `(hash1 + i * hash2) % num_bits`, the sum on 64 bits
abbrev pub bit_index : (num_bits hash1 hash2 i : ℕ) → ℕ
bit_index num_bits hash1 hash2 i = (hash1 + i * hash2) % 2 ^ 64 % num_bits

-- The loops of `add` and `mayContain` over `i`, for the `n` rounds that are left.
unfoldable pub set_from : (num_bits hash1 hash2 i n : ℕ) → List ℕ → List ℕ
set_from num_bits hash1 hash2 i zero bits = bits
set_from num_bits hash1 hash2 i (suc n) bits =
    set_from num_bits hash1 hash2 (i + 1) n (set_bit (bit_index num_bits hash1 hash2 i) bits)

unfoldable pub test_from : (num_bits hash1 hash2 i n : ℕ) → List ℕ → Bool
test_from num_bits hash1 hash2 i zero bits = true
test_from num_bits hash1 hash2 i (suc n) bits =
    let rest = test_from num_bits hash1 hash2 (i + 1) n bits in
    if test_bit (bit_index num_bits hash1 hash2 i) bits then rest else false

module _ (hash : (key seed : ℕ) → ℕ) where
  unfoldable pub add : BloomFilter → (key : ℕ) → BloomFilter
  add f key = record f {
    bits = set_from f.num_bits (hash key 0) (hash key 1) 0 f.num_hash_funcs f.bits;
  }

  unfoldable pub may_contain : BloomFilter → (key : ℕ) → Bool
  may_contain f key = test_from f.num_bits (hash key 0) (hash key 1) 0 f.num_hash_funcs f.bits

  unfoldable pub add_all : BloomFilter → List ℕ → BloomFilter
  add_all f [] = f
  add_all f (key ∷ keys) = add_all (add f key) keys

unfoldable pub serialize : BloomFilter → List ℕ
serialize f =
    f.num_hash_funcs % 2 ^ 8
    ∷ f.num_hash_funcs / 2 ^ 8 % 2 ^ 8
    ∷ f.num_hash_funcs / 2 ^ 16 % 2 ^ 8
    ∷ f.num_hash_funcs / 2 ^ 24 % 2 ^ 8
    ∷ f.bits

-- `none` is `std::invalid_argument`.
unfoldable pub deserialize : List ℕ → Option BloomFilter
unfolding from_bits
deserialize (a ∷ b ∷ c ∷ d ∷ bits) = some (from_bits bits (a + b * 2 ^ 8 + c * 2 ^ 16 + d * 2 ^ 24))
deserialize (a ∷ b ∷ c ∷ []) = none
deserialize (a ∷ b ∷ []) = none
deserialize (a ∷ []) = none
deserialize [] = none
