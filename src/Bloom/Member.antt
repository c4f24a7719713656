-- ===== src/Bloom/Member.antt =====
-- The filter has no false negatives.
use Prim.Native.Nat.{◌<◌}
use native.Mathlib.Nat.{mod-lt}
use amind.Prelude.{
  ℕ, ◌++◌, zero, suc, ◌+◌, ◌*◌, ◌/◌, ◌%◌, ◌^◌, ◌≡◌, refl, sym, ap, ◌∙◌, true, not, some, List, [],
  ◌∷◌, arith, bit_and, bit_or, ◌==◌, length, get_elem?, set, Option-cases, Bool-cases, inl, inr,
  length-set, get_elem?-set_self, get_elem?-set_ne,
}
use amind.Prelude.Bits.{and-or_left, and-or_self, power_positive}
use amind.Prelude.Ids.{contains}
use amind.Bloom.{
  BloomFilter, set_bit, test_bit, bit_index, set_from, test_from, add, may_contain, add_all,
}

length-set_bit : (i : ℕ) (bits : List ℕ) → length (set_bit i bits) ≡ length bits
unfolding set_bit
length-set_bit i bits = elim (Option-cases (get_elem? bits (i / 8))) [
  | inl e ↦ rw (e, set_bit) refl
  | inr (b, e) ↦ rw (e, set_bit) (length-set bits (i / 8) (bit_or b (2 ^ (i % 8))))
]

get_elem?-some : (xs : List ℕ) (i : ℕ) → i < length xs → (b : ℕ) × (get_elem? xs i ≡ some b)
get_elem?-some [] i h = absurd (omega arith)
get_elem?-some (x ∷ xs) zero h = (x, refl)
get_elem?-some (x ∷ xs) (suc i) h = get_elem?-some xs i (omega arith)

get_elem?-lt : (xs : List ℕ) (i b : ℕ) → get_elem? xs i ≡ some b → i < length xs
get_elem?-lt [] i b h = absurd (cc)
get_elem?-lt (x ∷ xs) zero b h = omega arith
get_elem?-lt (x ∷ xs) (suc i) b h = omega (arith, get_elem?-lt xs i b h)

test_bit-some :
    (j b : ℕ) (bits : List ℕ)
    → get_elem? bits (j / 8) ≡ some b
    → test_bit j bits ≡ not (bit_and b (2 ^ (j % 8)) == 0)
unfolding test_bit
test_bit-some j b bits e = rw (e, test_bit) refl

set_bit-some :
    (i b : ℕ) (bits : List ℕ)
    → get_elem? bits (i / 8) ≡ some b
    → set_bit i bits ≡ set bits (i / 8) (bit_or b (2 ^ (i % 8)))
unfolding set_bit
set_bit-some i b bits e = rw (e, set_bit) refl

-- A bit in the byte that was written.
test_bit-same_byte :
    (i j b : ℕ) (bits : List ℕ)
    → i / 8 ≡ j / 8
    → get_elem? bits (i / 8) ≡ some b
    → test_bit j bits ≡ true
    → test_bit j (set bits (i / 8) (bit_or b (2 ^ (i % 8)))) ≡ true
test_bit-same_byte i j b bits s e h = ground (
  arith,
  test_bit-some j b bits (ap (get_elem? bits) (sym s) ∙ e),
  test_bit-some j (bit_or b (2 ^ (i % 8))) (set bits (i / 8) (bit_or b (2 ^ (i % 8)))) (
      ap (get_elem? (set bits (i / 8) (bit_or b (2 ^ (i % 8))))) (sym s)
      ∙ get_elem?-set_self bits (i / 8) (bit_or b (2 ^ (i % 8))) (get_elem?-lt bits (i / 8) b e)),
  and-or_left b (2 ^ (i % 8)) (2 ^ (j % 8)),
)

-- A bit that was set stays set.
test_bit-set_bit :
    (i j : ℕ) (bits : List ℕ) → test_bit j bits ≡ true → test_bit j (set_bit i bits) ≡ true
unfolding set_bit test_bit
test_bit-set_bit i j bits h = elim (Option-cases (get_elem? bits (i / 8))) [
  | inl e ↦ rw (e, set_bit) h
  | inr (b, e) ↦ rw (set_bit-some i b bits e) (elim (Bool-cases (i / 8 == j / 8)) [
    | inl s ↦ test_bit-same_byte i j b bits (ground arith) e h
    | inr d ↦
        rw
          (
            get_elem?-set_ne bits {i = i / 8} {j = j / 8} (bit_or b (2 ^ (i % 8))) (ground arith),
            test_bit,
          )
          h
  ])
]

-- A bit within the list is set once it is set.
test_bit-set_bit_self :
    (i : ℕ) (bits : List ℕ) → i / 8 < length bits → test_bit i (set_bit i bits) ≡ true
unfolding set_bit test_bit
test_bit-set_bit_self i bits h =
    let (b, e) = get_elem?-some bits (i / 8) h in
    rw (e, set_bit)
      (rw (get_elem?-set_self bits (i / 8) (bit_or b (2 ^ (i % 8))) h, test_bit)
        (ground (arith, and-or_self b (2 ^ (i % 8)), power_positive (i % 8))))

set_from-grows :
    (num_bits h1 h2 i n j : ℕ) (bits : List ℕ)
    → test_bit j bits ≡ true
    → test_bit j (set_from num_bits h1 h2 i n bits) ≡ true
unfolding set_from
set_from-grows num_bits h1 h2 i zero j bits h = h
set_from-grows num_bits h1 h2 i (suc n) j bits h =
    set_from-grows num_bits h1 h2 (i + 1) n j _
      (test_bit-set_bit (bit_index num_bits h1 h2 i) j bits h)

length-set_from :
    (num_bits h1 h2 i n : ℕ) (bits : List ℕ)
    → length (set_from num_bits h1 h2 i n bits) ≡ length bits
unfolding set_from
length-set_from num_bits h1 h2 i zero bits = refl
length-set_from num_bits h1 h2 i (suc n) bits =
    length-set_from num_bits h1 h2 (i + 1) n (set_bit (bit_index num_bits h1 h2 i) bits)
    ∙ length-set_bit (bit_index num_bits h1 h2 i) bits

test_from-set_from :
    (num_bits h1 h2 i n : ℕ) (bits : List ℕ)
    → num_bits ≡ length bits * 8
    → 0 < num_bits
    → test_from num_bits h1 h2 i n (set_from num_bits h1 h2 i n bits) ≡ true
unfolding set_from test_from
test_from-set_from num_bits h1 h2 i zero bits e p = refl
test_from-set_from num_bits h1 h2 i (suc n) bits e p = ground (
  arith,
  set_from-grows num_bits h1 h2 (i + 1) n x (set_bit x bits)
      (test_bit-set_bit_self x bits (omega (arith, mod-lt ((h1 + i * h2) % 2 ^ 64) p))),
  test_from-set_from num_bits h1 h2 (i + 1) n (set_bit x bits)
      (e ∙ ap (λ (k : ℕ). k * 8) (sym (length-set_bit x bits))) p,
)
  where
    x : ℕ
    x = bit_index num_bits h1 h2 i

test_from-grows :
    (num_bits h1 h2 i n : ℕ) (bits bits' : List ℕ)
    → ((j : ℕ) → test_bit j bits ≡ true → test_bit j bits' ≡ true)
    → test_from num_bits h1 h2 i n bits ≡ true
    → test_from num_bits h1 h2 i n bits' ≡ true
unfolding test_from
test_from-grows num_bits h1 h2 i zero bits bits' g h = refl
test_from-grows num_bits h1 h2 i (suc n) bits bits' g h =
    ground
      (arith, g (bit_index num_bits h1 h2 i), test_from-grows num_bits h1 h2 (i + 1) n bits bits' g)

-- The bits are as many as the filter reckons with, and there is one.
pub record IsSized (f : BloomFilter) : Type 0 where
  pub whole : f.num_bits ≡ length f.bits * 8
  pub some_bits : 0 < f.num_bits

module _ (hash : (key seed : ℕ) → ℕ) where
  add-IsSized : (f : BloomFilter) (key : ℕ) → IsSized f → IsSized (add hash f key)
  unfolding add
  add-IsSized f key s = record {
    whole =
        s.whole
        ∙ ap (λ (k : ℕ). k * 8)
            (sym (length-set_from f.num_bits (hash key 0) (hash key 1) 0 f.num_hash_funcs f.bits));
    some_bits = s.some_bits;
  }

  -- A key that the filter may hold stays one.
  may_contain-add_all :
      (keys : List ℕ) (f : BloomFilter) (key : ℕ)
      → may_contain hash f key ≡ true
      → may_contain hash (add_all hash f keys) key ≡ true
  unfolding add_all may_contain add
  may_contain-add_all [] f key h = h
  may_contain-add_all (k ∷ keys) f key h = may_contain-add_all keys (add hash f k) key (
      test_from-grows f.num_bits (hash key 0) (hash key 1) 0 f.num_hash_funcs f.bits _
        (λ j. set_from-grows f.num_bits (hash k 0) (hash k 1) 0 f.num_hash_funcs j f.bits) h)

  -- In a filter with as many bits as it reckons with, every key that was added, before or after
  -- others, is found, whatever the hash function is.
  pub may_contain-added :
      (keys : List ℕ) (f : BloomFilter) (key : ℕ)
      → IsSized f
      → contains key keys ≡ true
      → may_contain hash (add_all hash f keys) key ≡ true
  unfolding add_all may_contain add contains
  may_contain-added [] f key s h = absurd (cc)
  may_contain-added (k ∷ keys) f key s h = elim (Bool-cases (k == key)) [
    | inl e ↦ may_contain-add_all keys (add hash f k) key (
        ground (
          arith,
          test_from-set_from f.num_bits (hash key 0) (hash key 1) 0 f.num_hash_funcs f.bits s.whole
              s.some_bits,
        ))
    | inr e ↦ may_contain-added keys (add hash f k) key (add-IsSized f k s) (ground arith)
  ]

  -- Additions keep the size of the filter and the number of its hash functions.
  pub add_all-IsSized :
      (keys : List ℕ) (f : BloomFilter)
      → IsSized f
      → IsSized (add_all hash f keys) × ((add_all hash f keys).num_hash_funcs ≡ f.num_hash_funcs)
  unfolding add_all add
  add_all-IsSized [] f s = (s, refl)
  add_all-IsSized (key ∷ keys) f s = add_all-IsSized keys (add hash f key) (add-IsSized f key s)

  pub add_all-append :
      (keys : List ℕ) (f : BloomFilter) (key : ℕ)
      → add_all hash f (keys ++ key ∷ []) ≡ add hash (add_all hash f keys) key
  unfolding add_all
  add_all-append [] f key = refl
  add_all-append (k ∷ keys) f key = add_all-append keys (add hash f k) key
