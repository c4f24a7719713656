-- ===== src/PageCache/Written.antt =====
-- The page in a slot is written.
use amind.Prelude.{
  ℕ, ◌≡◌, ◌≢◌, ◌⊎◌, inl, inr, refl, ap, sym, ◌∙◌, subst, Bool, true, false, some, List, arith, ◌==◌,
  if◌then◌else◌, get_elem?, set, get_elem?-set_self, get_elem?-set_ne, Bool-cases, Option-cases,
}
use amind.PageCache.{PageId, same_page, Disk, find_slot}
use amind.PageCache.Agreed.{page_cases, same_page_self, Bare, entry, IsAgreed, view, bound_of}
use amind.PageCache.Placed.{entry_page, entry_dirty}

module _ (m : List (PageId × ℕ)) (bs : List Bare) (disk : Disk) (i : ℕ) (p : PageId) (b b' : List ℕ)
    (d : Bool) (a : IsAgreed m bs disk) (e : get_elem? bs i ≡ some (some (p, b, d))) where
  changed : get_elem? (set bs i (some (p, b', true))) i ≡ some (some (p, b', true))
  changed = get_elem?-set_self bs i (some (p, b', true)) (bound_of bs i (some (p, b, d)) e)

  elsewhere : (q : PageId) (j : ℕ) → same_page p q ≡ false → find_slot q m ≡ some j → i ≢ j
  elsewhere q j other f same =
      let (c, x, e') = a.listed q j f in
      ground (arith, e, e', same_page_self p, other, ap (λ (k : ℕ). get_elem? bs k) same)

  pub written-view :
      (q : PageId)
      → view m (set bs i (some (p, b', true))) disk q
        ≡ (if same_page p q then b' else view m bs disk q)
  written-view q = elim (page_cases p q) [
    | inl same ↦
        rw
          (
            ap (same_page p) (sym same) ∙ same_page_self p,
            sym same,
            a.placed p i b d e,
            changed,
            view,
          )
          refl
    | inr other ↦ elim (Option-cases (find_slot q m)) [
      | inl missing ↦ rw (other, missing, view) refl
      | inr (j, f) ↦
          rw (other, f, get_elem?-set_ne bs (some (p, b', true)) (elsewhere q j other f), view) refl
    ]
  ]

  written_at :
      (q : PageId) (j : ℕ) (c : List ℕ) (x : Bool)
      → get_elem? (set bs i (some (p, b', true))) j ≡ entry q c x
      → ((i ≡ j) × (entry p b' true ≡ entry q c x)) ⊎ (get_elem? bs j ≡ entry q c x)
  written_at q j c x f = elim (Bool-cases (i == j)) [
    | inl same ↦
        let s : i ≡ j = ground (arith, same) in
        inl (s, sym changed ∙ ap (λ (k : ℕ). get_elem? (set bs i (some (p, b', true))) k) s ∙ f)
    | inr other ↦ inr (sym (get_elem?-set_ne bs (some (p, b', true)) (ground (arith, other))) ∙ f)
  ]

  pub written-IsAgreed : IsAgreed m (set bs i (some (p, b', true))) disk
  written-IsAgreed = record {
    listed = λ q j f. elim (page_cases p q) [
      | inl same ↦ (
        b',
        true,
        subst (λ (k : ℕ). get_elem? (set bs i (some (p, b', true))) k ≡ some (some (q, b', true)))
            (slot_lem q j same f) (changed ∙ ap (λ (r : PageId). some (some (r, b', true))) same),
      )
      | inr other ↦
          let (c, x, e') = a.listed q j f in
          (c, x, get_elem?-set_ne bs (some (p, b', true)) (elsewhere q j other f) ∙ e')
    ];
    placed = λ q j c x f. elim (written_at q j c x f) [
      | inl (same, s) ↦
          ap (λ (r : PageId). find_slot r m) (sym (entry_page p q b' c true x s))
          ∙ a.placed p i b d e
          ∙ ap some same
      | inr s ↦ a.placed q j c x s
    ];
    clean = λ q j c f. elim (written_at q j c false f) [
      | inl (same, s) ↦ absurd (cc (entry_dirty p q b' c true false s))
      | inr s ↦ a.clean q j c s
    ];
  }
    where
      slot_lem : (q : PageId) (j : ℕ) → p ≡ q → find_slot q m ≡ some j → i ≡ j
      slot_lem q j same f =
          ground (arith, f, a.placed p i b d e, ap (λ (r : PageId). find_slot r m) same)
