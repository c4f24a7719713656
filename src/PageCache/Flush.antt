-- ===== src/PageCache/Flush.antt =====
-- Flushes keep what every page reads.
use amind.Prelude.{
  ℕ, zero, suc, ◌+◌, ◌≡◌, ◌≢◌, refl, ap, sym, ◌∙◌, subst, Bool, true, false, Option, none, some,
  List, arith, ◌==◌, length, get_elem?, set, get_elem?-set_self, get_elem?-set_ne, length-set,
  Bool-cases, Option-cases, inl, inr, ◌⊎◌,
}
use amind.PageCache.{
  PageId, same_page, CachedPage, Disk, write_disk, PageCache, find_slot, slot_at, evict_file,
  pages_of, flush_slot, flush_page, flush_slots, flush_all,
}
use amind.PageCache.Agreed.{Bare, entry, bare, IsAgreed, view, page_cases, same_page_self, bound_of}
use amind.PageCache.Placed.{entry_page}
use amind.PageCache.Victim.{IsCache, slot_at-bare, bare-set}
use amind.PageCache.Evict.{IsSame, IsSame-trans, evict_pages-IsSame}

-- The page in a slot is written to disk, and is clean then.
module _ (m : List (PageId × ℕ)) (bs : List Bare) (disk : Disk) (i : ℕ) (p : PageId) (b : List ℕ)
    (d : Bool) (a : IsAgreed m bs disk) (e : get_elem? bs i ≡ some (some (p, b, d))) where
  cleaned : get_elem? (set bs i (some (p, b, false))) i ≡ some (some (p, b, false))
  cleaned = get_elem?-set_self bs i (some (p, b, false)) (bound_of bs i (some (p, b, d)) e)

  same_slot : (q : PageId) (j : ℕ) → p ≡ q → find_slot q m ≡ some j → i ≡ j
  same_slot q j same f =
      ground (arith, f, a.placed p i b d e, ap (λ (r : PageId). find_slot r m) same)

  other_slot : (q : PageId) (j : ℕ) → same_page p q ≡ false → find_slot q m ≡ some j → i ≢ j
  other_slot q j other f same =
      let (c, x, e') = a.listed q j f in
      ground (arith, e, e', same_page_self p, other, ap (λ (k : ℕ). get_elem? bs k) same)

  written_self : (q : PageId) → p ≡ q → write_disk p b disk q ≡ b
  written_self q same = rw (ap (same_page p) (sym same) ∙ same_page_self p) refl

  cleaned-view :
      (q : PageId)
      → view m (set bs i (some (p, b, false))) (write_disk p b disk) q ≡ view m bs disk q
  cleaned-view q = elim (page_cases p q) [
    | inl same ↦ rw (sym same, a.placed p i b d e, cleaned, e, view) refl
    | inr other ↦ elim (Option-cases (find_slot q m)) [
      | inl missing ↦ rw (missing, other, view) refl
      | inr (j, f) ↦
          let (c, x, e') = a.listed q j f in
          rw (f, get_elem?-set_ne bs (some (p, b, false)) (other_slot q j other f), e', view) refl
    ]
  ]

  cleaned_at :
      (q : PageId) (j : ℕ) (c : List ℕ) (x : Bool)
      → get_elem? (set bs i (some (p, b, false))) j ≡ entry q c x
      → ((i ≡ j) × (entry p b false ≡ entry q c x)) ⊎ ((i ≢ j) × (get_elem? bs j ≡ entry q c x))
  cleaned_at q j c x f = elim (Bool-cases (i == j)) [
    | inl same ↦
        let s : i ≡ j = ground (arith, same) in
        inl (s, sym cleaned ∙ ap (λ (k : ℕ). get_elem? (set bs i (some (p, b, false))) k) s ∙ f)
    | inr other ↦
        let n : i ≢ j = ground (arith, other) in
        inr (n, sym (get_elem?-set_ne bs (some (p, b, false)) n) ∙ f)
  ]

  entry_bytes : (q : PageId) (c : List ℕ) (x : Bool) → entry p b false ≡ entry q c x → b ≡ c
  entry_bytes q c x s = ap bytes_of s
    where
      bytes_of : Option Bare → List ℕ
      bytes_of (some (some (r, b', d'))) = b'
      bytes_of (some none) = b
      bytes_of none = b

  cleaned-IsAgreed : IsAgreed m (set bs i (some (p, b, false))) (write_disk p b disk)
  cleaned-IsAgreed = record {
    listed = λ q j f. elim (page_cases p q) [
      | inl same ↦ (
        b,
        false,
        subst (λ (k : ℕ). get_elem? (set bs i (some (p, b, false))) k ≡ some (some (q, b, false)))
            (same_slot q j same f) (cleaned ∙ ap (λ (r : PageId). some (some (r, b, false))) same),
      )
      | inr other ↦
          let (c, x, e') = a.listed q j f in
          (c, x, get_elem?-set_ne bs (some (p, b, false)) (other_slot q j other f) ∙ e')
    ];
    placed = λ q j c x f. elim (cleaned_at q j c x f) [
      | inl (same, s) ↦
          ap (λ (r : PageId). find_slot r m) (sym (entry_page p q b c false x s))
          ∙ a.placed p i b d e
          ∙ ap some same
      | inr (n, s) ↦ a.placed q j c x s
    ];
    clean = λ q j c f. elim (cleaned_at q j c false f) [
      | inl (same, s) ↦
          sym (entry_bytes q c false s) ∙ sym (written_self q (entry_page p q b c false false s))
      | inr (n, s) ↦ elim (page_cases p q) [
        | inl same ↦ absurd (n (same_slot q j same (a.placed q j c false s)))
        | inr other ↦ rw other (a.clean q j c s)
      ]
    ];
  }

flush_slot-dirty :
    (i : ℕ) (c : PageCache) (page : CachedPage)
    → slot_at c.slots i ≡ some page
    → page.dirty ≡ true
    → (flush_slot i c).1 ≡ record c {
      disk = write_disk page.page_id page.bytes c.disk;
      slots = set c.slots i (some (record page { dirty = false }));
    }
unfolding flush_slot
flush_slot-dirty i c page e dirty = rw (e, dirty, flush_slot) refl

flush_slot-IsSame : (i : ℕ) (c : PageCache) → IsCache c → IsSame c (flush_slot i c).1
unfolding flush_slot
flush_slot-IsSame i c k = elim (Option-cases (slot_at c.slots i)) [
  | inl nothing ↦ rw (nothing, flush_slot) (k, λ q. refl)
  | inr (page, e) ↦ elim (Bool-cases page.dirty) [
    | inr fresh ↦ rw (e, fresh, flush_slot) (k, λ q. refl)
    | inl dirty ↦
        let here = slot_at-bare c.slots i page e in
        let disk' = write_disk page.page_id page.bytes c.disk in
        let changes = bare-set c.slots i (some (record page { dirty = false })) in
        subst (IsSame c) (sym (flush_slot-dirty i c page e dirty)) (
          record {
            agreed =
                subst (λ (bs : List Bare). IsAgreed c.page_to_slot bs disk') (sym changes)
                  (cleaned-IsAgreed c.page_to_slot (bare c.slots) c.disk i page.page_id page.bytes
                    page.dirty k.agreed here);
            hand =
                omega (arith, k.hand, length-set c.slots i (some (record page { dirty = false })));
          },
          λ q.
              ap (λ (bs : List Bare). view c.page_to_slot bs disk' q) changes
              ∙ cleaned-view c.page_to_slot (bare c.slots) c.disk i page.page_id page.bytes
                  page.dirty k.agreed here q,
        )
  ]
]

flush_slots-IsSame :
    (slot left : ℕ) (c : PageCache) → IsCache c → IsSame c (flush_slots slot left c)
unfolding flush_slots
flush_slots-IsSame slot zero c k = (k, λ q. refl)
flush_slots-IsSame slot (suc left) c k =
    let first = flush_slot-IsSame slot c k in
    IsSame-trans c (flush_slot slot c).1 (flush_slots (slot + 1) left (flush_slot slot c).1) first
      (flush_slots-IsSame (slot + 1) left (flush_slot slot c).1 first.0)

flush_page-IsSame : (p : PageId) (c : PageCache) → IsCache c → IsSame c (flush_page p c).1
unfolding flush_page
flush_page-IsSame p c k = elim (Option-cases (find_slot p c.page_to_slot)) [
  | inl missing ↦ rw (missing, flush_page) (k, λ q. refl)
  | inr (i, f) ↦ rw (f, flush_page) (flush_slot-IsSame i c k)
]

-- Flushing a page, flushing all pages and evicting the pages of a file keep what every page reads,
-- and the cache agrees with its map and with the disk after them.
pub flushes-IsSame :
    (p : PageId) (file_id : ℕ) (c : PageCache)
    → IsCache c
    → IsSame c (flush_page p c).1 × IsSame c (flush_all c) × IsSame c (evict_file file_id c)
unfolding flush_all evict_file
flushes-IsSame p file_id c k = (
  flush_page-IsSame p c k,
  flush_slots-IsSame 0 (length c.slots) c k,
  evict_pages-IsSame (pages_of file_id c.page_to_slot) c k,
)
