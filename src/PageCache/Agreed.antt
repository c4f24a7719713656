-- ===== src/PageCache/Agreed.antt =====
-- The map and the slots agree, and a clean page is what is on disk.
use amind.Prelude.{
  ℕ, zero, suc, ◌<◌, ◌≡◌, ◌≢◌, ◌⊎◌, inl, inr, refl, ap, sym, ◌∙◌, Bool, true, false, ◌&&◌, Option,
  none, some, List, [], ◌∷◌, arith, ◌==◌, if◌then◌else◌, length, get_elem?, set, get_elem?-set_self,
  get_elem?-set_ne, Bool-cases, Option-cases,
}
use amind.PageCache.{
  PageId, same_page, CachedPage, Disk, write_disk, find_slot, assign_slot, erase_slot,
}

pub page_cases : (p q : PageId) → (p ≡ q) ⊎ (same_page p q ≡ false)
page_cases (f, n) (g, m) = elim (Bool-cases (f == g && n == m)) [
  | inl same ↦ inl (ground (arith, same))
  | inr other ↦ inr other
]

pub same_page_self : (p : PageId) → same_page p p ≡ true
same_page_self (f, n) = ground arith

pub find_slot-assign_slot :
    (p q : PageId) (i : ℕ) (m : List (PageId × ℕ))
    → find_slot q (assign_slot p i m) ≡ (if same_page p q then some i else find_slot q m)
unfolding find_slot assign_slot
find_slot-assign_slot p q i [] = refl
find_slot-assign_slot (f, n) (g, k) i (((h, l), j) ∷ m) =
    ground (arith, find_slot-assign_slot (f, n) (g, k) i m)

pub find_slot-erase_slot :
    (p q : PageId) (m : List (PageId × ℕ))
    → find_slot q (erase_slot p m) ≡ (if same_page p q then none else find_slot q m)
unfolding find_slot erase_slot
find_slot-erase_slot (f, n) (g, k) [] = ground arith
find_slot-erase_slot (f, n) (g, k) (((h, l), j) ∷ m) =
    ground (arith, find_slot-erase_slot (f, n) (g, k) m)

-- What a slot holds, but for the reference bit.
abbrev pub Bare : Type 0
Bare = Option (PageId × List ℕ × Bool)

abbrev pub entry : PageId → List ℕ → Bool → Option Bare
entry p b d = some (some (p, b, d))

abbrev pub bare_slot : Option CachedPage → Bare
bare_slot none = none
bare_slot (some page) = some (page.page_id, page.bytes, page.dirty)

abbrev pub bare : List (Option CachedPage) → List Bare
bare [] = []
bare (slot ∷ slots) = bare_slot slot ∷ bare slots

pub record IsAgreed (m : List (PageId × ℕ)) (bs : List Bare) (disk : Disk) : Type 0 where
  pub listed :
      (p : PageId) (i : ℕ)
      → find_slot p m ≡ some i
      → (b : List ℕ) × (d : Bool) × (get_elem? bs i ≡ some (some (p, b, d)))
  pub placed :
      (p : PageId) (i : ℕ) (b : List ℕ) (d : Bool)
      → get_elem? bs i ≡ some (some (p, b, d))
      → find_slot p m ≡ some i
  pub clean :
      (p : PageId) (i : ℕ) (b : List ℕ) → get_elem? bs i ≡ some (some (p, b, false)) → b ≡ disk p

-- What a page reads: the cache, and else the disk.
abbrev pub read_slot : Option Bare → List ℕ → List ℕ
read_slot none below = below
read_slot (some none) below = below
read_slot (some (some (p, b, d))) below = b

abbrev pub view : List (PageId × ℕ) → List Bare → Disk → PageId → List ℕ
view m bs disk p = elim (find_slot p m) [
  | none ↦ disk p
  | some i ↦ read_slot (get_elem? bs i) (disk p)
]

pub bound_of : (bs : List Bare) (i : ℕ) (o : Bare) → get_elem? bs i ≡ some o → i < length bs
bound_of [] i o e = absurd (cc)
bound_of (x ∷ bs) zero o e = omega arith
bound_of (x ∷ bs) (suc i) o e = omega (arith, bound_of bs i o e)

-- A page leaves its slot.
module _ (m : List (PageId × ℕ)) (bs : List Bare) (disk : Disk) (i : ℕ) (p : PageId) (b : List ℕ)
    (d : Bool) where
  abbrev pub disk_after : Disk
  disk_after = if d then write_disk p b disk else disk

  module _ (a : IsAgreed m bs disk) (e : get_elem? bs i ≡ some (some (p, b, d))) where
    emptied : get_elem? (set bs i none) i ≡ some none
    emptied = get_elem?-set_self bs i none (bound_of bs i (some (p, b, d)) e)

    slot_kept :
        (q : PageId) (j : ℕ) (b' : List ℕ) (d' : Bool)
        → get_elem? (set bs i none) j ≡ some (some (q, b', d'))
        → get_elem? bs j ≡ some (some (q, b', d'))
    slot_kept q j b' d' f = elim (Bool-cases (i == j)) [
      | inl same ↦ absurd (ground (arith, same, emptied, f))
      | inr other ↦ sym (get_elem?-set_ne bs none (ground (arith, other))) ∙ f
    ]

    not_evicted :
        (q : PageId) (j : ℕ) (b' : List ℕ) (d' : Bool)
        → get_elem? (set bs i none) j ≡ some (some (q, b', d'))
        → same_page p q ≡ false
    not_evicted q j b' d' f = elim (page_cases p q) [
      | inl same ↦ absurd (
          i_ne_j (
            ground (
              arith,
              a.placed p i b d e,
              a.placed q j b' d' (slot_kept q j b' d' f),
              ap (λ (r : PageId). find_slot r m) same,
            )))
      | inr other ↦ other
    ]
      where
        i_ne_j : i ≡ j → ⊥
        i_ne_j same = ground (arith, emptied, f, ap (λ (k : ℕ). get_elem? (set bs i none) k) same)

    other_listed : (q : PageId) (j : ℕ) → same_page p q ≡ false → find_slot q m ≡ some j → i ≢ j
    other_listed q j other f same =
        let (b', d', e') = a.listed q j f in
        ground (arith, e, e', same_page_self p, other, ap (λ (k : ℕ). get_elem? bs k) same)

    disk_after-ne : (q : PageId) → same_page p q ≡ false → disk_after q ≡ disk q
    disk_after-ne q other = elim (Bool-cases d) [
      | inl dirty ↦ rw (dirty, other) refl
      | inr clean ↦ rw clean refl
    ]

    pub evicted-IsAgreed : IsAgreed (erase_slot p m) (set bs i none) disk_after
    evicted-IsAgreed = record {
      listed = λ q j f. elim (page_cases p q) [
        | inl same ↦
            absurd (
              ground
                (arith, f, find_slot-erase_slot p q m, ap (same_page p) same, same_page_self p))
        | inr other ↦
            let f' = sym (find_slot-erase_slot p q m ∙ rw other refl) ∙ f in
            let (b', d', e') = a.listed q j f' in
            (b', d', get_elem?-set_ne bs none (other_listed q j other f') ∙ e')
      ];
      placed = λ q j b' d' f.
          find_slot-erase_slot p q m
          ∙ rw (not_evicted q j b' d' f) (a.placed q j b' d' (slot_kept q j b' d' f));
      clean = λ q j b' f.
          a.clean q j b' (slot_kept q j b' false f)
          ∙ sym (disk_after-ne q (not_evicted q j b' false f));
    }

    pub evicted-view :
        (q : PageId) → view (erase_slot p m) (set bs i none) disk_after q ≡ view m bs disk q
    evicted-view q = elim (page_cases p q) [
      | inl same ↦
          rw
            (
              find_slot-erase_slot p q m,
              ap (same_page p) (sym same) ∙ same_page_self p,
              sym same,
              a.placed p i b d e,
              e,
              view,
            )
            written_back
      | inr other ↦ elim (Option-cases (find_slot q m)) [
        | inl absent ↦ rw (find_slot-erase_slot p q m, other, absent, view) (disk_after-ne q other)
        | inr (j, f) ↦
            let (b', d', e') = a.listed q j f in
            rw
              (
                find_slot-erase_slot p q m,
                other,
                f,
                get_elem?-set_ne bs none (other_listed q j other f),
                e',
                view,
              )
              refl
      ]
    ]
      where
        written_back : disk_after p ≡ b
        written_back = elim (Bool-cases d) [
          | inl dirty ↦ rw (dirty, same_page_self p) refl
          | inr fresh ↦
              rw fresh (sym (a.clean p i b (e ∙ ap (λ (x : Bool). some (some (p, b, x))) fresh)))
        ]
