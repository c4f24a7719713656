-- ===== src/PageCache/Victim.antt =====
-- The search for a slot ends with an empty one, and every page reads as before.
use amind.Prelude.{
  ℕ, zero, suc, ◌+◌, ◌*◌, ◌%◌, ◌<◌, ◌≡◌, inl, inr, refl, ap, sym, ◌∙◌, subst, Bool, true, false,
  Option, none, some, List, [], ◌∷◌, arith, if◌then◌else◌, length, get_elem?, set,
  get_elem?-set_self, length-set, Bool-cases, Option-cases,
}
use amind.PageCache.{
  PageId, same_page, CachedPage, PageCache, find_slot, erase_slot, first_empty, slot_at,
  clear_referenced, sweep, evict, find_victim,
}
use amind.PageCache.Agreed.{
  Bare, bare, bare_slot, IsAgreed, view, disk_after, evicted-IsAgreed, evicted-view,
  find_slot-erase_slot, bound_of,
}

length-bare : (slots : List (Option CachedPage)) → length (bare slots) ≡ length slots
length-bare [] = refl
length-bare (slot ∷ slots) = ap suc (length-bare slots)

pub bare-set :
    (slots : List (Option CachedPage)) (i : ℕ) (slot : Option CachedPage)
    → bare (set slots i slot) ≡ set (bare slots) i (bare_slot slot)
bare-set [] i slot = refl
bare-set (x ∷ slots) zero slot = refl
bare-set (x ∷ slots) (suc i) slot =
    ap (λ (bs : List Bare). bare_slot x ∷ bs) (bare-set slots i slot)

pub slot_at-bare :
    (slots : List (Option CachedPage)) (i : ℕ) (page : CachedPage)
    → slot_at slots i ≡ some page
    → get_elem? (bare slots) i ≡ some (some (page.page_id, page.bytes, page.dirty))
slot_at-bare [] i page e = absurd (cc)
slot_at-bare (x ∷ slots) zero page e = ap (λ (o : Option CachedPage). some (bare_slot o)) e
slot_at-bare (x ∷ slots) (suc i) page e = slot_at-bare slots i page e

-- A page that stays but for its reference bit
pub set-bare :
    (slots : List (Option CachedPage)) (i : ℕ) (page page' : CachedPage)
    → slot_at slots i ≡ some page
    → bare_slot (some page') ≡ bare_slot (some page)
    → bare (set slots i (some page')) ≡ bare slots
set-bare [] i page page' e s = refl
set-bare (x ∷ slots) zero page page' e s =
    ap (λ (b : Bare). b ∷ bare slots) (s ∙ sym (ap bare_slot e))
set-bare (x ∷ slots) (suc i) page page' e s =
    ap (λ (bs : List Bare). bare_slot x ∷ bs) (set-bare slots i page page' e s)

first_empty-bare :
    (slots : List (Option CachedPage)) (i : ℕ)
    → first_empty slots ≡ some i
    → get_elem? (bare slots) i ≡ some none
unfolding first_empty
first_empty-bare [] i e = absurd (cc)
first_empty-bare (none ∷ slots) i e =
    let z : 0 ≡ i = ground (arith, e) in
    subst (λ (k : ℕ). get_elem? (none ∷ bare slots) k ≡ some none) z refl
first_empty-bare (some page ∷ slots) zero e = elim (Option-cases (first_empty slots)) [
  | inl full ↦ absurd (ground (arith, full, e))
  | inr (j, later) ↦ absurd (ground (arith, later, e))
]
first_empty-bare (some page ∷ slots) (suc i) e = elim (Option-cases (first_empty slots)) [
  | inl full ↦ absurd (ground (arith, full, e))
  | inr (j, later) ↦ first_empty-bare slots i (later ∙ ap some (ground (arith, later, e)))
]

full_slot :
    (slots : List (Option CachedPage)) (i : ℕ)
    → first_empty slots ≡ none
    → i < length slots
    → (page : CachedPage) × (slot_at slots i ≡ some page)
unfolding first_empty
full_slot [] i e h = absurd (omega arith)
full_slot (none ∷ slots) i e h = absurd (cc)
full_slot (some page ∷ slots) zero e h = (page, refl)
full_slot (some page ∷ slots) (suc i) e h = elim (Option-cases (first_empty slots)) [
  | inl full ↦ full_slot slots i full (omega arith)
  | inr (j, later) ↦ absurd (ground (arith, later, e))
]

sweep-bare :
    (sweeps capacity : ℕ) (slots : List (Option CachedPage)) (hand : ℕ)
    → bare (sweep sweeps capacity slots hand).0 ≡ bare slots
unfolding sweep
sweep-bare zero capacity slots hand = refl
sweep-bare (suc sweeps) capacity slots hand = elim (Option-cases (slot_at slots hand)) [
  | inl missing ↦ rw (missing, sweep) (sweep-bare sweeps capacity slots ((hand + 1) % capacity))
  | inr (page, e) ↦ elim (Bool-cases page.referenced) [
    | inl again ↦
        rw (e, again, sweep)
          (sweep-bare sweeps capacity (set slots hand (some (clear_referenced page)))
              ((hand + 1) % capacity)
            ∙ set-bare slots hand page (clear_referenced page) e refl)
    | inr now ↦ rw (e, now, sweep) refl
  ]
]

sweep-lt :
    (sweeps capacity : ℕ) (slots : List (Option CachedPage)) (hand : ℕ)
    → hand < capacity
    → (sweep sweeps capacity slots hand).1 < capacity
unfolding sweep
sweep-lt zero capacity slots hand h = h
sweep-lt (suc sweeps) capacity slots hand h = elim (Option-cases (slot_at slots hand)) [
  | inl missing ↦
      rw (missing, sweep) (sweep-lt sweeps capacity slots ((hand + 1) % capacity) (omega arith))
  | inr (page, e) ↦ elim (Bool-cases page.referenced) [
    | inl again ↦
        rw (e, again, sweep)
          (sweep-lt sweeps capacity (set slots hand (some (clear_referenced page)))
            ((hand + 1) % capacity) (omega arith))
    | inr now ↦ rw (e, now, sweep) h
  ]
]

pub bare-slot_at :
    (slots : List (Option CachedPage)) (i : ℕ) (p : PageId) (b : List ℕ) (d : Bool)
    → get_elem? (bare slots) i ≡ some (some (p, b, d))
    → (page : CachedPage) × (slot_at slots i ≡ some page)
bare-slot_at [] i p b d e = absurd (cc)
bare-slot_at (none ∷ slots) zero p b d e = absurd (cc)
bare-slot_at (some page ∷ slots) zero p b d e = (page, refl)
bare-slot_at (x ∷ slots) (suc i) p b d e = bare-slot_at slots i p b d e

pub record IsCache (c : PageCache) : Type 0 where
  pub agreed : IsAgreed c.page_to_slot (bare c.slots) c.disk
  pub hand : c.clock_hand < length c.slots

-- What a page reads through the cache.
abbrev pub page_view : PageCache → PageId → List ℕ
page_view c = view c.page_to_slot (bare c.slots) c.disk

-- What `evict` does to a slot that holds a page.
pub evict-some :
    (i : ℕ) (c : PageCache) (page : CachedPage)
    → slot_at c.slots i ≡ some page
    → evict i c ≡ record c {
      disk = disk_after c.page_to_slot (bare c.slots) c.disk i page.page_id page.bytes page.dirty;
      page_to_slot = erase_slot page.page_id c.page_to_slot;
      slots = set c.slots i none;
    }
unfolding evict
evict-some i c page e = rw (e, evict) refl

-- A slot for a new page
pub record IsVictim (c c' : PageCache) (i : ℕ) : Type 0 where
  pub agreed : IsAgreed c'.page_to_slot (bare c'.slots) c'.disk
  pub hand : c'.clock_hand < length c'.slots
  pub free : get_elem? (bare c'.slots) i ≡ some none
  pub same : (q : PageId) → page_view c' q ≡ page_view c q
  pub absent : (q : PageId) → find_slot q c.page_to_slot ≡ none → find_slot q c'.page_to_slot ≡ none
  pub sized : c'.page_size ≡ c.page_size

module _ (c : PageCache) (i : IsCache c) where
  abbrev swept : PageCache
  swept = record c { slots = (sweep (length c.slots * 2) (length c.slots) c.slots c.clock_hand).0 }

  abbrev hand_after : ℕ
  hand_after = (sweep (length c.slots * 2) (length c.slots) c.slots c.clock_hand).1

  swept-bare : bare swept.slots ≡ bare c.slots
  swept-bare = sweep-bare (length c.slots * 2) (length c.slots) c.slots c.clock_hand

  swept-length : length swept.slots ≡ length c.slots
  swept-length = sym (length-bare swept.slots) ∙ ap length swept-bare ∙ length-bare c.slots

  hand_after-lt : hand_after < length c.slots
  hand_after-lt = sweep-lt (length c.slots * 2) (length c.slots) c.slots c.clock_hand i.hand

  swept-IsAgreed : IsAgreed c.page_to_slot (bare swept.slots) c.disk
  swept-IsAgreed =
      subst (λ (bs : List Bare). IsAgreed c.page_to_slot bs c.disk) (sym swept-bare) i.agreed

  abbrev evicted : CachedPage → PageCache
  evicted page = record c {
    disk =
        disk_after c.page_to_slot (bare swept.slots) c.disk hand_after page.page_id page.bytes
          page.dirty;
    page_to_slot = erase_slot page.page_id c.page_to_slot;
    slots = set swept.slots hand_after none;
    clock_hand = (hand_after + 1) % length c.slots;
  }

  evicted-IsVictim :
      (page : CachedPage)
      → slot_at swept.slots hand_after ≡ some page
      → IsVictim c (evicted page) hand_after
  evicted-IsVictim page e =
      let here = slot_at-bare swept.slots hand_after page e in
      let emptied = bare-set swept.slots hand_after none in
      record {
        agreed =
            subst
              (λ (bs : List Bare).
                IsAgreed (erase_slot page.page_id c.page_to_slot) bs (evicted page).disk)
              (sym emptied)
              (evicted-IsAgreed c.page_to_slot (bare swept.slots) c.disk hand_after page.page_id
                page.bytes page.dirty swept-IsAgreed here);
        hand = omega (arith, hand_after-lt, swept-length, length-set swept.slots hand_after none);
        free = rw emptied (
            get_elem?-set_self (bare swept.slots) hand_after none
              (bound_of (bare swept.slots) hand_after _ here));
        same = λ q.
            ap
              (λ (bs : List Bare).
                view (erase_slot page.page_id c.page_to_slot) bs (evicted page).disk q)
              emptied
            ∙ evicted-view c.page_to_slot (bare swept.slots) c.disk hand_after page.page_id
                page.bytes page.dirty swept-IsAgreed here q
            ∙ ap (λ (bs : List Bare). view c.page_to_slot bs c.disk q) swept-bare;
        absent = λ q missing.
            find_slot-erase_slot page.page_id q c.page_to_slot
            ∙ gone (same_page page.page_id q) missing;
        sized = refl;
      }
    where
      gone : (flag : Bool) {o : Option ℕ} → o ≡ none → (if flag then none else o) ≡ none
      gone true e = refl
      gone false e = e

  -- The search for a slot.
  pub find_victim-IsVictim :
      (free : ℕ) × (c' : PageCache) × (find_victim c ≡ (free, c')) × IsVictim c c' free
  unfolding find_victim
  find_victim-IsVictim = elim (Option-cases (first_empty c.slots)) [
    | inr (j, e) ↦ (
      j,
      c,
      rw (e, find_victim) refl,
      record {
        agreed = i.agreed;
        hand = i.hand;
        free = first_empty-bare c.slots j e;
        same = λ q. refl;
        absent = λ q missing. missing;
        sized = refl;
      },
    )
    | inl full ↦
        let (page0, e0) = full_slot c.slots hand_after full hand_after-lt in
        let (page, e) = bare-slot_at swept.slots hand_after page0.page_id page0.bytes page0.dirty (
          ap (λ (bs : List Bare). get_elem? bs hand_after) swept-bare
          ∙ slot_at-bare c.slots hand_after page0 e0) in
        (
          hand_after,
          evicted page,
          rw (full, evict-some hand_after swept page e, find_victim) refl,
          evicted-IsVictim page e,
        )
  ]
