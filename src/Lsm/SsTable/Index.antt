-- ===== src/Lsm/SsTable/Index.antt =====
-- The search for the block that can hold a key.
use amind.Prelude.{
  ℕ, zero, suc, ◌+◌, ◌-◌, ◌/◌, ◌≤◌, ◌<◌, ◌≡◌, refl, ap, subst, sym, ◌∙◌, true, false, Option, none,
  some, List, [], ◌∷◌, ◌++◌, arith, ltb, leb, length, get_elem?, Bool-cases, inl, inr, ◌⊎◌,
}
use amind.Prelude.Map
use amind.Lsm.Entries.{
  Entry, Ascending, AllAbove, or_else, find-append, find-above, find-before, AllAbove-le,
  Ascending-append, AllAbove-append,
}
use amind.Lsm.Block.Search.{find_key-find}
use amind.Lsm.SsTable.{block_loop, find_block_index, for_each, value_in}

-- Every key of the list is above `k`.
abbrev pub KeysAbove : ℕ → List ℕ → Type 0
KeysAbove k [] = Unit {0}
KeysAbove k (j ∷ ks) = (k < j) × KeysAbove k ks

abbrev pub Rising : List ℕ → Type 0
Rising [] = Unit {0}
Rising (k ∷ ks) = KeysAbove k ks × Rising ks

KeysAbove-get_elem? :
    (k : ℕ) (ks : List ℕ) (i j : ℕ) → KeysAbove k ks → get_elem? ks i ≡ some j → k < j
KeysAbove-get_elem? k [] i j a e = absurd (cc)
KeysAbove-get_elem? k (x ∷ ks) zero j a e = ground arith
KeysAbove-get_elem? k (x ∷ ks) (suc i) j a e = KeysAbove-get_elem? k ks i j a.1 e

Rising-get_elem? :
    (ks : List ℕ) (i i' j j' : ℕ)
    → Rising ks
    → get_elem? ks i ≡ some j
    → get_elem? ks i' ≡ some j'
    → i < i'
    → j < j'
Rising-get_elem? [] i i' j j' r e e' h = absurd (cc)
Rising-get_elem? (x ∷ ks) i zero j j' r e e' h = absurd (omega arith)
Rising-get_elem? (x ∷ ks) zero (suc i') j j' r e e' h =
    ground (arith, KeysAbove-get_elem? x ks i' j' r.0 e')
Rising-get_elem? (x ∷ ks) (suc i) (suc i') j j' r e e' h =
    Rising-get_elem? ks i i' j j' r.1 e e' (omega arith)

get_elem?-within : (xs : List ℕ) (i : ℕ) → i < length xs → (a : ℕ) × (get_elem? xs i ≡ some a)
get_elem?-within [] i h = absurd (omega arith)
get_elem?-within (x ∷ xs) zero h = (x, refl)
get_elem?-within (x ∷ xs) (suc i) h = get_elem?-within xs i (omega arith)

-- How many keys from the front are at most `key`.
unfoldable pub count_le : ℕ → List ℕ → ℕ
count_le key [] = 0
count_le key (k ∷ ks) = elim (leb k key) [ true ↦ suc (count_le key ks) | false ↦ 0 ]

abbrev pub last_of : ℕ → Option ℕ
last_of zero = none
last_of (suc n) = some n

last_of_add : (n : ℕ) → last_of (n + 1) ≡ some n
last_of_add n = ground arith

count_le-le : (key : ℕ) (ks : List ℕ) → count_le key ks ≤ length ks
unfolding count_le
count_le-le key [] = omega arith
count_le-le key (k ∷ ks) = ground (arith, count_le-le key ks)

-- On rising keys these are all the keys that are at most `key`.
count_le-get_elem? :
    (key : ℕ) (ks : List ℕ) (i k : ℕ)
    → Rising ks
    → get_elem? ks i ≡ some k
    → (leb k key ≡ true → i < count_le key ks) × (leb k key ≡ false → count_le key ks ≤ i)
unfolding count_le
count_le-get_elem? key [] i k r e = absurd (cc)
count_le-get_elem? key (x ∷ ks) zero k r e = (λ h. ground arith, λ h. ground arith)
count_le-get_elem? key (x ∷ ks) (suc i) k r e =
    let (below, above) = count_le-get_elem? key ks i k r.1 e in
    (λ h. ground (arith, KeysAbove-get_elem? x ks i k r.0 e, below h), λ h. ground (arith, above h))

module _ (index : List ℕ) (key : ℕ) where
  block_loop-count_le :
      (fuel low bound : ℕ)
      → Rising index
      → bound ≤ length index
      → low ≤ count_le key index
      → count_le key index ≤ bound
      → bound - low < fuel
      → block_loop fuel index key low bound (last_of low) ≡ last_of (count_le key index)
  unfolding block_loop
  block_loop-count_le zero low bound r b l c f = absurd (omega arith)
  block_loop-count_le (suc fuel) low bound r b l c f = elim (Bool-cases (ltb low bound)) [
    | inr empty ↦ rw (empty, block_loop) (ap last_of (ground arith))
    | inl more ↦
        let (k, e) = get_elem?-within index (low + (bound - 1 - low) / 2) (ground arith) in
        let (below, above) = count_le-get_elem? key index (low + (bound - 1 - low) / 2) k r e in
        elim (Bool-cases (leb k key)) [
          | inl at_most ↦
              rw (more, e, at_most, block_loop)
                (subst
                  (λ o.
                    block_loop fuel index key (low + (bound - 1 - low) / 2 + 1) bound o
                    ≡ last_of (count_le key index))
                  (last_of_add (low + (bound - 1 - low) / 2))
                  (block_loop-count_le fuel (low + (bound - 1 - low) / 2 + 1) bound r b
                    (ground (arith, below at_most)) c (ground arith)))
          | inr greater ↦
              rw (more, e, greater, block_loop)
                (block_loop-count_le fuel low (low + (bound - 1 - low) / 2) r (ground arith) l
                  (above greater) (ground arith))
        ]
  ]

-- On a rising index the search returns the last block whose first key is at most the key.
pub find_block_index-count_le :
    (index : List ℕ) (key : ℕ)
    → Rising index
    → find_block_index index key ≡ last_of (count_le key index)
unfolding find_block_index
find_block_index-count_le index key r =
    block_loop-count_le index key (suc (length index)) 0 (length index) r (omega arith)
      (omega arith) (count_le-le key index) (omega arith)

abbrev pub AllFilled : List (List Entry) → Type 0
AllFilled [] = Unit {0}
AllFilled ([] ∷ blocks) = ⊥
AllFilled ((e ∷ es) ∷ blocks) = AllFilled blocks

unfoldable pub first_keys : List (List Entry) → List ℕ
first_keys [] = []
first_keys ([] ∷ blocks) = first_keys blocks
first_keys (((k, v) ∷ es) ∷ blocks) = k ∷ first_keys blocks

KeysAbove-first_keys :
    (k : ℕ) (blocks : List (List Entry))
    → AllFilled blocks
    → AllAbove k (for_each blocks)
    → KeysAbove k (first_keys blocks)
unfolding first_keys for_each
KeysAbove-first_keys k [] f a = tt
KeysAbove-first_keys k ([] ∷ blocks) f a = elim f [ ]
KeysAbove-first_keys k (((j, v) ∷ es) ∷ blocks) f a =
    (a.0, KeysAbove-first_keys k blocks f (AllAbove-append k es (for_each blocks) a.1).1)

pub Rising-first_keys :
    (blocks : List (List Entry))
    → AllFilled blocks
    → Ascending (for_each blocks)
    → Rising (first_keys blocks)
unfolding first_keys for_each
Rising-first_keys [] f a = tt
Rising-first_keys ([] ∷ blocks) f a = elim f [ ]
Rising-first_keys (((j, v) ∷ es) ∷ blocks) f a = (
  KeysAbove-first_keys j blocks f (AllAbove-append j es (for_each blocks) a.0).1,
  Rising-first_keys blocks f (Ascending-append es (for_each blocks) a.1).1,
)

abbrev pub search_blocks : List (List Entry) → ℕ → Option (List ℕ)
search_blocks blocks key = value_in blocks key (last_of (count_le key (first_keys blocks)))

empty_lem : (key : ℕ) → search_blocks [] key ≡ Map.find {V = List ℕ} key []
unfolding first_keys count_le Map.find
empty_lem key = refl

-- A block before the chosen one holds no such key.
find-earlier_block :
    (block : List Entry) (blocks : List (List Entry)) (key n : ℕ)
    → AllFilled blocks
    → Ascending (block ++ for_each blocks)
    → count_le key (first_keys blocks) ≡ suc n
    → Map.find key block ≡ none
unfolding first_keys for_each count_le
find-earlier_block block [] key n f a c = absurd (omega (arith, c))
find-earlier_block block ([] ∷ blocks) key n f a c = elim f [ ]
find-earlier_block block (((j, w) ∷ fs) ∷ blocks) key n f a c =
    find-before key j w block (fs ++ for_each blocks) a (ground arith)

search_blocks-first :
    (k key : ℕ) (v : List ℕ) (es : List Entry) (blocks : List (List Entry))
    → leb k key ≡ true
    → count_le key (first_keys blocks) ≡ zero
    → Ascending ((k, v) ∷ es)
    → search_blocks (((k, v) ∷ es) ∷ blocks) key ≡ Map.find key ((k, v) ∷ es)
unfolding first_keys count_le
search_blocks-first k key v es blocks h c a =
    rw (h, c, count_le) (find_key-find ((k, v) ∷ es) key a)

search_blocks-later :
    (k key n : ℕ) (v : List ℕ) (es : List Entry) (blocks : List (List Entry))
    → leb k key ≡ true
    → count_le key (first_keys blocks) ≡ suc n
    → search_blocks (((k, v) ∷ es) ∷ blocks) key ≡ search_blocks blocks key
unfolding first_keys count_le
search_blocks-later k key n v es blocks h c = rw (h, c, count_le) refl

search_blocks-none :
    (k key : ℕ) (v : List ℕ) (es : List Entry) (blocks : List (List Entry))
    → leb k key ≡ false
    → search_blocks (((k, v) ∷ es) ∷ blocks) key ≡ none
unfolding first_keys count_le
search_blocks-none k key v es blocks h = rw (h, count_le) refl

-- In a filled table with rising keys, the chosen block alone decides.
pub search_blocks-for_each :
    (blocks : List (List Entry)) (key : ℕ)
    → AllFilled blocks
    → Ascending (for_each blocks)
    → search_blocks blocks key ≡ Map.find key (for_each blocks)
unfolding for_each
search_blocks-for_each [] key f a = empty_lem key
search_blocks-for_each ([] ∷ blocks) key f a = elim f [ ]
search_blocks-for_each (((k, v) ∷ es) ∷ blocks) key f a = elim (Bool-cases (leb k key)) [
  | inr greater ↦
      search_blocks-none k key v es blocks greater
      ∙ sym (find-above-head k key v (es ++ for_each blocks) greater a)
  | inl at_most ↦
      let ih = search_blocks-for_each blocks key f (Ascending-append es (for_each blocks) a.1).1 in
      let (block_up, rest_up) = Ascending-append ((k, v) ∷ es) (for_each blocks) a in
      elim (number_cases (count_le key (first_keys blocks))) [
        | inl c ↦
            search_blocks-first k key v es blocks at_most c block_up
            ∙ sym (
                or_else-right (Map.find key ((k, v) ∷ es)) (Map.find key (for_each blocks))
                  (sym ih ∙ ap (value_in blocks key) (ap last_of c)))
            ∙ sym (find-append key ((k, v) ∷ es) (for_each blocks))
        | inr (n, c) ↦
            search_blocks-later k key n v es blocks at_most c
            ∙ ih
            ∙ sym (
                or_else-left (Map.find key ((k, v) ∷ es)) (Map.find key (for_each blocks))
                  (find-earlier_block ((k, v) ∷ es) blocks key n f a c))
            ∙ sym (find-append key ((k, v) ∷ es) (for_each blocks))
      ]
]
  where
    find-above-head :
        (k key : ℕ) (v : List ℕ) (m : List Entry)
        → leb k key ≡ false
        → Ascending ((k, v) ∷ m)
        → Map.find key ((k, v) ∷ m) ≡ none
    find-above-head k key v m h a =
        find-above key key ((k, v) ∷ m) (omega arith)
          (ground arith, AllAbove-le key k m (ground arith) a.0)

    number_cases : (n : ℕ) → (n ≡ zero) ⊎ ((m : ℕ) × (n ≡ suc m))
    number_cases zero = inl refl
    number_cases (suc m) = inr (m, refl)

    or_else-right : {V : Type 0} (o p : Option V) → p ≡ none → or_else o p ≡ o
    or_else-right none p e = e
    or_else-right (some v) p e = refl

    or_else-left : {V : Type 0} (o p : Option V) → o ≡ none → or_else o p ≡ p
    or_else-left none p e = refl
    or_else-left (some v) p e = absurd (cc)
