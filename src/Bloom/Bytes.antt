-- ===== src/Bloom/Bytes.antt =====
-- The size of a new filter, and its bytes.
use amind.Prelude.{
  ℕ, zero, suc, ◌-◌, ◌*◌, ◌/◌, ◌^◌, ◌≤◌, ◌<◌, ◌≡◌, refl, ap, sym, ◌∙◌, some, arith, length,
  replicate,
}
use amind.Bloom.{BloomFilter, init, from_bits, serialize, deserialize}
use amind.Bloom.Member.{IsSized}

length-replicate : (n b : ℕ) → length (replicate n b) ≡ n
length-replicate zero b = refl
length-replicate (suc n) b = ap suc (length-replicate n b)

whole_bytes : (m : ℕ) → m / 8 * 8 ≡ length {A = ℕ} (replicate (m / 8 * 8 / 8) 0) * 8
whole_bytes m = omega (arith, length-replicate (m / 8 * 8 / 8) 0)

-- A new filter, unless the rounding of its size passes 64 bits, has as many bits as it reckons
-- with, at least 64 and at least the wanted number, and between 1 and 30 hash functions.
pub init-IsSized :
    (rounded expected_key_count bits_per_key : ℕ)
    → expected_key_count * bits_per_key < 2 ^ 64 - 7
    → let f = init rounded expected_key_count bits_per_key in
      IsSized f
      × (64 ≤ f.num_bits)
      × (expected_key_count * bits_per_key ≤ f.num_bits)
      × (1 ≤ f.num_hash_funcs)
      × (f.num_hash_funcs ≤ 30)
unfolding init
init-IsSized rounded n k h = (
  record { whole = whole_bytes _; some_bits = ground arith },
  ground arith,
  ground arith,
  ground arith,
  ground arith,
)

-- A filter that reckons with its own bits, and whose number of hash functions fits 32 bits, is
-- read back from its bytes.
pub deserialize-serialize :
    (f : BloomFilter) → IsSized f → f.num_hash_funcs < 2 ^ 32 → deserialize (serialize f) ≡ some f
unfolding deserialize serialize from_bits
deserialize-serialize f s h =
    ap some (ap (made _) (sym s.whole) ∙ ap (λ (k : ℕ). made k f.num_bits) (omega arith))
  where
    made : (k n : ℕ) → BloomFilter
    made k n = record { bits = f.bits; num_bits = n; num_hash_funcs = k }
