-- ===== src/PageCache/Fetch.antt =====
-- Reads and writes of pages, by what every page reads through the cache.
use amind.Prelude.{
  ℕ, ◌+◌, ◌≡◌, refl, ap, sym, ◌∙◌, subst, Bool, true, false, Option, none, some, List, arith,
  if◌then◌else◌, set, length-set, Bool-cases, Option-cases, inl, inr,
}
use amind.Prelude.Ids.{is_empty}
use amind.PageCache.{
  PageId, same_page, CachedPage, PageCache, find_slot, assign_slot, slot_at, find_victim, place,
  loaded_page, counted_miss, touch, bytes_at, fetch_page, written_page, write_slot, write_page,
}
use amind.PageCache.Agreed.{Bare, bare, view, page_cases, same_page_self}
use amind.PageCache.Placed.{entry_page, placed-IsAgreed, placed-view}
use amind.PageCache.Victim.{
  IsCache, page_view, IsVictim, find_victim-IsVictim, slot_at-bare, bare-slot_at, bare-set,
  set-bare,
}

-- A page that is in the cache
-- The cache with a page in a slot
abbrev pub with_page : PageCache → ℕ → CachedPage → PageCache
with_page c j page = record c { slots = set c.slots j (some page); hit_count = c.hit_count + 1 }

module _ (c : PageCache) (i : IsCache c) (p : PageId) (j : ℕ)
    (f : find_slot p c.page_to_slot ≡ some j) where
  pub cached : (page : CachedPage) × (slot_at c.slots j ≡ some page)
  cached = let (b, d, e) = i.agreed.listed p j f in bare-slot_at c.slots j p b d e

  pub cached-view : (page : CachedPage) → slot_at c.slots j ≡ some page → page_view c p ≡ page.bytes
  cached-view page e = rw (f, slot_at-bare c.slots j page e, view) refl

  touched-IsCache :
      (page : CachedPage)
      → slot_at c.slots j ≡ some page
      → IsCache (with_page c j (record page { referenced = true }))
  touched-IsCache page e = record {
    agreed = rw (set-bare c.slots j page (record page { referenced = true }) e refl) i.agreed;
    hand = omega (arith, i.hand, length-set c.slots j (some (record page { referenced = true })));
  }

  pub cached_id : (page : CachedPage) → slot_at c.slots j ≡ some page → page.page_id ≡ p
  cached_id page e =
      let (b, d, e') = i.agreed.listed p j f in
      entry_page page.page_id p page.bytes b page.dirty d (sym (slot_at-bare c.slots j page e) ∙ e')

  fetch-hit :
      (page : CachedPage)
      → slot_at c.slots j ≡ some page
      → fetch_page p c ≡ (some page.bytes, with_page c j (record page { referenced = true }))
  unfolding fetch_page
  fetch-hit page e = rw (f, e, touch, bytes_at, fetch_page) refl

  pub write-hit :
      (bytes : List ℕ) (page : CachedPage)
      → slot_at c.slots j ≡ some page
      → write_page p bytes c ≡ with_page c j (written_page c.page_size bytes page)
  unfolding write_page
  write-hit bytes page e = rw (f, e, write_slot, write_page) refl

-- Whether a fetch fails: the page is not in the cache, and the loader gives nothing.
abbrev pub is_missing : PageCache → PageId → Bool
is_missing c p = elim (find_slot p c.page_to_slot) [ none ↦ is_empty (c.disk p) | some i ↦ false ]

-- What `fetchPage` gives for a page: the answer and the cache.
abbrev IsFetched : PageCache → PageId → Option (List ℕ) × PageCache → Type 0
IsFetched c p r =
    IsCache r.1
    × (r.0 ≡ (if is_missing c p then none else some (page_view c p)))
    × ((q : PageId) → page_view r.1 q ≡ page_view c q)

-- A page that is not in the cache
module _ (c : PageCache) (i : IsCache c) (p : PageId)
    (miss : find_slot p c.page_to_slot ≡ none) where
  pub missed : IsCache (counted_miss c)
  missed = record { agreed = i.agreed; hand = i.hand }

  module _ (c' : PageCache) (free : ℕ) (v : IsVictim (counted_miss c) c' free) (page : CachedPage)
      (here : page.page_id ≡ p) where
    absent : find_slot page.page_id c'.page_to_slot ≡ none
    absent = rw here (v.absent p miss)

    pub placed-IsCache :
        (page.dirty ≡ false → page.bytes ≡ c'.disk page.page_id) → IsCache (place page (free, c'))
    placed-IsCache fresh = record {
      agreed = rw (bare-set c'.slots free (some page)) (
          placed-IsAgreed c'.page_to_slot (bare c'.slots) c'.disk free page.page_id page.bytes
            page.dirty v.agreed v.free absent fresh);
      hand = omega (arith, v.hand, length-set c'.slots free (some page));
    }

    pub placed-page_view :
        (q : PageId)
        → page_view (place page (free, c')) q
          ≡ (if same_page p q then page.bytes else page_view c q)
    placed-page_view q =
        ap (λ (bs : List Bare). view (assign_slot page.page_id free c'.page_to_slot) bs c'.disk q)
          (bare-set c'.slots free (some page))
        ∙ placed-view c'.page_to_slot (bare c'.slots) c'.disk free page.page_id page.bytes
            page.dirty v.agreed v.free absent q
        ∙ ap (λ (r : PageId). if same_page r q then page.bytes else page_view c' q) here
        ∙ ap (λ (x : List ℕ). if same_page p q then page.bytes else x) (v.same q)

  missing-view : page_view c p ≡ c.disk p
  missing-view = rw (miss, view) refl

module _ (c : PageCache) (i : IsCache c) (p : PageId)
    (miss : find_slot p c.page_to_slot ≡ none) where
  fails : is_empty (c.disk p) ≡ true → fetch_page p c ≡ (none, counted_miss c)
  unfolding fetch_page
  fails nothing = rw (miss, nothing, fetch_page) refl

  loads :
      (free : ℕ) (c' : PageCache)
      → is_empty (c.disk p) ≡ false
      → find_victim (counted_miss c) ≡ (free, c')
      → fetch_page p c ≡ (some (c.disk p), place (loaded_page p (c.disk p)) (free, c'))
  unfolding fetch_page
  loads free c' something e = rw (miss, something, e, fetch_page) refl

  fetch-fails : is_empty (c.disk p) ≡ true → IsFetched c p (fetch_page p c)
  fetch-fails nothing =
      subst (IsFetched c p) (sym (fails nothing))
        (missed c i p miss, rw (miss, nothing, is_missing) refl, λ q. refl)

  fetch-loads : is_empty (c.disk p) ≡ false → IsFetched c p (fetch_page p c)
  fetch-loads something =
      let (free, c', e, v) = find_victim-IsVictim (counted_miss c) (missed c i p miss) in
      let page = loaded_page p (c.disk p) in
      let fresh : c.disk p ≡ c'.disk p =
        sym (missing-view c i p miss) ∙ sym (v.same p) ∙ rw (v.absent p miss, view) refl in
      subst (IsFetched c p) (sym (loads free c' something e)) (
        placed-IsCache c i p miss c' free v page refl (λ d. fresh),
        rw (miss, something, is_missing) (ap some (sym (missing-view c i p miss))),
        λ q. placed-page_view c i p miss c' free v page refl q ∙ reads q,
      )
    where
      reads : (q : PageId) → (if same_page p q then c.disk p else page_view c q) ≡ page_view c q
      reads q = elim (page_cases p q) [
        | inl same ↦
            rw (ap (same_page p) (sym same) ∙ same_page_self p)
              (sym (missing-view c i p miss) ∙ ap (page_view c) same)
        | inr other ↦ rw other refl
      ]

-- `fetchPage` throws if the page is not in the cache and the loader gives nothing, and else returns
-- what the page reads through the cache; every page reads the same after it, and the cache still
-- agrees with its map and with the disk.
pub fetch_page-page_view :
    (p : PageId) (c : PageCache)
    → IsCache c
    → IsCache (fetch_page p c).1
      × ((fetch_page p c).0 ≡ (if is_missing c p then none else some (page_view c p)))
      × ((q : PageId) → page_view (fetch_page p c).1 q ≡ page_view c q)
fetch_page-page_view p c i = elim (Option-cases (find_slot p c.page_to_slot)) [
  | inr (j, f) ↦
      let (page, e) = cached c i p j f in
      subst (IsFetched c p) (sym (fetch-hit c i p j f page e)) (
        touched-IsCache c i p j f page e,
        rw (f, is_missing) (ap some (sym (cached-view c i p j f page e))),
        λ q.
            ap (λ (bs : List Bare). view c.page_to_slot bs c.disk q)
              (set-bare c.slots j page (record page { referenced = true }) e refl),
      )
  | inl miss ↦ elim (Bool-cases (is_empty (c.disk p))) [
    | inl nothing ↦ fetch-fails c i p miss nothing
    | inr something ↦ fetch-loads c i p miss something
  ]
]
