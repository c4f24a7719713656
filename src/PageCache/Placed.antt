-- ===== src/PageCache/Placed.antt =====
-- A page takes an empty slot.
use amind.Prelude.{
  ℕ, ◌≡◌, ◌≢◌, ◌⊎◌, inl, inr, refl, ap, sym, ◌∙◌, subst, Bool, false, Option, none, some, List,
  arith, ◌==◌, if◌then◌else◌, get_elem?, set, get_elem?-set_self, get_elem?-set_ne, Bool-cases,
  Option-cases,
}
use amind.PageCache.{PageId, same_page, Disk, find_slot, assign_slot}
use amind.PageCache.Agreed.{
  page_cases, same_page_self, find_slot-assign_slot, Bare, entry, IsAgreed, view, bound_of,
}

pub entry_page : (p q : PageId) (b c : List ℕ) (d x : Bool) → entry p b d ≡ entry q c x → p ≡ q
entry_page p q b c d x e = ap page_of e
  where
    page_of : Option Bare → PageId
    page_of (some (some (r, b', d'))) = r
    page_of (some none) = p
    page_of none = p

pub entry_dirty : (p q : PageId) (b c : List ℕ) (d x : Bool) → entry p b d ≡ entry q c x → d ≡ x
entry_dirty p q b c d x e = ap dirty_of e
  where
    dirty_of : Option Bare → Bool
    dirty_of (some (some (r, b', d'))) = d'
    dirty_of (some none) = d
    dirty_of none = d

module _ (m : List (PageId × ℕ)) (bs : List Bare) (disk : Disk) (i : ℕ) (p : PageId) (b : List ℕ)
    (d : Bool) (a : IsAgreed m bs disk) (free : get_elem? bs i ≡ some none)
    (absent : find_slot p m ≡ none) where
  filled : get_elem? (set bs i (some (p, b, d))) i ≡ some (some (p, b, d))
  filled = get_elem?-set_self bs i (some (p, b, d)) (bound_of bs i none free)

  not_free : (q : PageId) (j : ℕ) → find_slot q m ≡ some j → i ≢ j
  not_free q j f same =
      let (b', d', e') = a.listed q j f in
      ground (arith, free, e', ap (λ (k : ℕ). get_elem? bs k) same)

  pub placed-view :
      (q : PageId)
      → view (assign_slot p i m) (set bs i (some (p, b, d))) disk q
        ≡ (if same_page p q then b else view m bs disk q)
  placed-view q = elim (Bool-cases (same_page p q)) [
    | inl same ↦ rw (find_slot-assign_slot p q i m, same, filled, view) refl
    | inr other ↦ elim (Option-cases (find_slot q m)) [
      | inl missing ↦ rw (find_slot-assign_slot p q i m, other, missing, view) refl
      | inr (j, f) ↦
          rw
            (
              find_slot-assign_slot p q i m,
              other,
              f,
              get_elem?-set_ne bs (some (p, b, d)) (not_free q j f),
              view,
            )
            refl
    ]
  ]

  -- The slot of a page after the placement
  at_slot :
      (q : PageId) (j : ℕ) (b' : List ℕ) (d' : Bool)
      → get_elem? (set bs i (some (p, b, d))) j ≡ some (some (q, b', d'))
      → ((i ≡ j) × (entry p b d ≡ entry q b' d')) ⊎ (get_elem? bs j ≡ some (some (q, b', d')))
  at_slot q j b' d' f = elim (Bool-cases (i == j)) [
    | inl same ↦
        let s : i ≡ j = ground (arith, same) in
        inl (s, sym filled ∙ ap (λ (k : ℕ). get_elem? (set bs i (some (p, b, d))) k) s ∙ f)
    | inr other ↦ inr (sym (get_elem?-set_ne bs (some (p, b, d)) (ground (arith, other))) ∙ f)
  ]

  same_entry :
      (q : PageId) (b' : List ℕ) (d' : Bool)
      → entry p b d ≡ entry q b' d'
      → (p ≡ q) × (b ≡ b') × (d ≡ d')
  same_entry q b' d' e = (ap page_of e, ap bytes_of e, ap dirty_of e)
    where
      page_of : Option Bare → PageId
      page_of (some (some (r, c, x))) = r
      page_of (some none) = p
      page_of none = p

      bytes_of : Option Bare → List ℕ
      bytes_of (some (some (r, c, x))) = c
      bytes_of (some none) = b
      bytes_of none = b

      dirty_of : Option Bare → Bool
      dirty_of (some (some (r, c, x))) = x
      dirty_of (some none) = d
      dirty_of none = d

  pub placed-IsAgreed :
      (d ≡ false → b ≡ disk p) → IsAgreed (assign_slot p i m) (set bs i (some (p, b, d))) disk
  placed-IsAgreed fresh = record {
    listed = λ q j f. elim (page_cases p q) [
      | inl same ↦ (
        b,
        d,
        subst (λ (k : ℕ). get_elem? (set bs i (some (p, b, d))) k ≡ some (some (q, b, d)))
            (slot_lem q j same f) (filled ∙ ap (λ (r : PageId). some (some (r, b, d))) same),
      )
      | inr other ↦
          let f' = sym (find_slot-assign_slot p q i m ∙ rw other refl) ∙ f in
          let (b', d', e') = a.listed q j f' in
          (b', d', get_elem?-set_ne bs (some (p, b, d)) (not_free q j f') ∙ e')
    ];
    placed = λ q j b' d' f. elim (at_slot q j b' d' f) [
      | inl (same, e) ↦
          let (pq, _, _) = same_entry q b' d' e in
          find_slot-assign_slot p q i m
          ∙ rw (ap (same_page p) (sym pq) ∙ same_page_self p) (ap some same)
      | inr e ↦ elim (page_cases p q) [
        | inl pq ↦
            absurd
              (ground (arith, absent, a.placed q j b' d' e, ap (λ (r : PageId). find_slot r m) pq))
        | inr other ↦ find_slot-assign_slot p q i m ∙ rw other (a.placed q j b' d' e)
      ]
    ];
    clean = λ q j b' f. elim (at_slot q j b' false f) [
      | inl (same, e) ↦ let (pq, bb, dd) = same_entry q b' false e in sym bb ∙ fresh dd ∙ ap disk pq
      | inr e ↦ a.clean q j b' e
    ];
  }
    where
      slot_lem : (q : PageId) (j : ℕ) → p ≡ q → find_slot q (assign_slot p i m) ≡ some j → i ≡ j
      slot_lem q j same f =
          ground (arith, f, find_slot-assign_slot p q i m, ap (same_page p) same, same_page_self p)
