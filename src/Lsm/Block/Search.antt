-- ===== src/Lsm/Block/Search.antt =====
-- The binary search finds exactly the entry with the key.
use amind.Prelude.{
  ℕ, zero, suc, ◌+◌, ◌-◌, ◌/◌, ◌≤◌, ◌<◌, ◌≡◌, refl, some, List, [], ◌∷◌, arith, ltb, ◌==◌, length,
  get_elem?, Bool-cases, Option-cases, inl, inr, lt→ltb,
}
use amind.Prelude.Map
use amind.Lsm.Entries.{Entry, Ascending, Ascending-get_elem?, get_elem?-find, find-get_elem?}
use amind.Lsm.Block.{search_loop, find_key, entry_value}

get_elem?-within :
    {A : Type 0} (xs : List A) (i : ℕ) → i < length xs → (a : A) × (get_elem? xs i ≡ some a)
get_elem?-within [] i h = absurd (omega arith)
get_elem?-within (x ∷ xs) zero h = (x, refl)
get_elem?-within (x ∷ xs) (suc i) h = get_elem?-within xs i (omega arith)

module _ (entries : List Entry) (key : ℕ) where
  -- With the key at index `i` of the range, the loop returns `i`.
  search_loop-hit :
      (fuel low bound i : ℕ) (v : List ℕ)
      → Ascending entries
      → get_elem? entries i ≡ some (key, v)
      → bound ≤ length entries
      → low ≤ i
      → i < bound
      → bound - low < fuel
      → search_loop fuel entries key low bound ≡ some i
  unfolding search_loop
  search_loop-hit zero low bound i v a e b l h f = absurd (omega arith)
  search_loop-hit (suc fuel) low bound i v a e b l h f =
      let mid = low + (bound - 1 - low) / 2 in
      let ((mid_key, w), m) = get_elem?-within entries mid (omega arith) in
      rw (lt→ltb low bound (omega arith), m, search_loop)
        (ground (
          arith,
          Ascending-get_elem? entries i mid key mid_key v w a e m,
          Ascending-get_elem? entries mid i mid_key key w v a m e,
          search_loop-hit fuel (mid + 1) bound i v a e b,
          search_loop-hit fuel low mid i v a e,
        ))

  -- What the loop returns is the index of an entry with the key.
  search_loop_sound :
      (fuel low bound i : ℕ)
      → search_loop fuel entries key low bound ≡ some i
      → (v : List ℕ) × (get_elem? entries i ≡ some (key, v))
  unfolding search_loop
  search_loop_sound zero low bound i e = absurd (cc)
  search_loop_sound (suc fuel) low bound i e = elim (Bool-cases (ltb low bound)) [
    | inr empty ↦ absurd (cc (rw (empty, search_loop) at e))
    | inl more ↦ elim (Option-cases (get_elem? entries (low + (bound - 1 - low) / 2))) [
      | inl past ↦ absurd (cc (rw (more, past, search_loop) at e))
      | inr ((mid_key, w), m) ↦ elim (Bool-cases (mid_key == key)) [
        | inl hit ↦ (w, ground (arith, m, rw (more, m, hit, search_loop) at e))
        | inr miss ↦ elim (Bool-cases (ltb mid_key key)) [
          | inl below ↦
              search_loop_sound fuel _ bound i (rw (more, m, miss, below, search_loop) at e)
          | inr above ↦ search_loop_sound fuel low _ i (rw (more, m, miss, above, search_loop) at e)
        ]
      ]
    ]
  ]

entry_value-some :
    (entries : List Entry) (i key : ℕ) (v : List ℕ)
    → get_elem? entries i ≡ some (key, v)
    → entry_value entries (some i) ≡ some v
unfolding entry_value
entry_value-some entries i key v e = rw (e, entry_value) refl

-- On entries with rising keys, `findKey` and `entryAt` together are the lookup of a map.
pub find_key-find :
    (entries : List Entry) (key : ℕ)
    → Ascending entries
    → entry_value entries (find_key entries key) ≡ Map.find key entries
unfolding find_key entry_value
find_key-find entries key a = elim (Option-cases (Map.find key entries)) [
  | inl absent ↦ elim (Option-cases (find_key entries key)) [
    | inl miss ↦ rw (miss, absent)
    | inr (i, hit) ↦
        let (v, e) =
          search_loop_sound entries key (suc (length entries)) 0 (length entries) i hit in
        absurd (ground (arith, absent, get_elem?-find entries i key v a e))
  ]
  | inr (v, present) ↦
      let (i, h, e) = find-get_elem? entries key v present in
      rw
        (
          search_loop-hit entries key (suc (length entries)) 0 (length entries) i v a e
              (omega arith) (omega arith) h (omega arith),
          present,
        )
        (entry_value-some entries i key v e)
]
