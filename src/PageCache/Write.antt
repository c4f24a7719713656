-- ===== src/PageCache/Write.antt =====
-- Writes of pages, by what every page reads through the cache.
use amind.Prelude.{
  ℕ, zero, suc, ◌≡◌, refl, ap, sym, ◌∙◌, subst, Option, none, some, List, [], ◌∷◌, arith,
  if◌then◌else◌, get_elem?, set, ◌++◌, ◌≤◌, length, length-set, replicate, Option-cases, inl, inr,
}
use amind.Prelude.Bytes.{take, drop}
use amind.PageCache.{
  PageId, same_page, CachedPage, PageCache, find_slot, slot_at, find_victim, place, counted_miss,
  overlay, written_page, zero_page, write_slot, write_page,
}
use amind.PageCache.Agreed.{Bare, bare, view}
use amind.PageCache.Written.{written-view, written-IsAgreed}
use amind.PageCache.Victim.{IsCache, page_view, find_victim-IsVictim, slot_at-bare, bare-set}
use amind.PageCache.Fetch.{
  cached, cached_id, cached-view, with_page, write-hit, missed, placed-IsCache, placed-page_view,
}

-- What a write starts from: the page in the cache, and else zeros.
abbrev pub write_base : PageCache → PageId → List ℕ
write_base c p = elim (find_slot p c.page_to_slot) [
  | none ↦ replicate c.page_size 0
  | some i ↦ page_view c p
]

abbrev IsWritten : PageCache → PageId → List ℕ → PageCache → Type 0
IsWritten c p bytes c' =
    IsCache c'
    × ((q : PageId)
        → page_view c' q
          ≡ (if same_page p q then overlay c.page_size bytes (write_base c p) else page_view c q))

module _ (c : PageCache) (i : IsCache c) (p : PageId) (bytes : List ℕ) where
  write-cached :
      (j : ℕ)
      → find_slot p c.page_to_slot ≡ some j
      → (page : CachedPage) → slot_at c.slots j ≡ some page
      → IsWritten c p bytes (with_page c j (written_page c.page_size bytes page))
  write-cached j f page e =
      let new = overlay c.page_size bytes page.bytes in
      let here = slot_at-bare c.slots j page e in
      let changes = bare-set c.slots j (some (written_page c.page_size bytes page)) in
      (
        record {
          agreed = rw changes (
              written-IsAgreed c.page_to_slot (bare c.slots) c.disk j page.page_id page.bytes new
                page.dirty i.agreed here);
          hand =
              omega
                (arith, i.hand, length-set c.slots j (some (written_page c.page_size bytes page)));
        },
        λ q.
            ap (λ (bs : List Bare). view c.page_to_slot bs c.disk q) changes
            ∙ written-view c.page_to_slot (bare c.slots) c.disk j page.page_id page.bytes new
                page.dirty i.agreed here q
            ∙ ap (λ (r : PageId). if same_page r q then new else page_view c q)
                (cached_id c i p j f page e)
            ∙ ap
                (λ (b : List ℕ).
                  if same_page p q then overlay c.page_size bytes b else page_view c q)
                (sym (cached-view c i p j f page e) ∙ sym (base f)),
      )
    where
      base : find_slot p c.page_to_slot ≡ some j → write_base c p ≡ page_view c p
      base f = rw (f, write_base) refl

set-set :
    (slots : List (Option CachedPage)) (i : ℕ) (x y : Option CachedPage)
    → set (set slots i x) i y ≡ set slots i y
set-set [] i x y = refl
set-set (s ∷ slots) zero x y = refl
set-set (s ∷ slots) (suc i) x y = ap (λ (t : List (Option CachedPage)). s ∷ t) (set-set slots i x y)

slot_at-set :
    (slots : List (Option CachedPage)) (i : ℕ) (o : Bare) (page : CachedPage)
    → get_elem? (bare slots) i ≡ some o
    → slot_at (set slots i (some page)) i ≡ some page
slot_at-set [] i o page e = absurd (cc)
slot_at-set (s ∷ slots) zero o page e = refl
slot_at-set (s ∷ slots) (suc i) o page e = slot_at-set slots i o page e

write_slot-place :
    (bytes : List ℕ) (page : CachedPage) (free : ℕ) (c : PageCache)
    → get_elem? (bare c.slots) free ≡ some none
    → write_slot free bytes (place page (free, c))
      ≡ place (written_page c.page_size bytes page) (free, c)
write_slot-place bytes page free c e =
    rw (slot_at-set c.slots free none page e, write_slot)
      (ap (λ (slots : List (Option CachedPage)). record (place page (free, c)) { slots = slots })
        (set-set c.slots free (some page) (some (written_page c.page_size bytes page))))

module _ (c : PageCache) (i : IsCache c) (p : PageId) (bytes : List ℕ)
    (miss : find_slot p c.page_to_slot ≡ none) where
  write-miss :
      (free : ℕ) (c' : PageCache)
      → find_victim (counted_miss c) ≡ (free, c')
      → write_page p bytes c ≡ write_slot free bytes (place (zero_page p c.page_size) (free, c'))
  unfolding write_page
  write-miss free c' e = rw (miss, e, write_page) refl

  write-placed : IsWritten c p bytes (write_page p bytes c)
  write-placed =
      let (free, c', e, v) = find_victim-IsVictim (counted_miss c) (missed c i p miss) in
      let page = written_page c'.page_size bytes (zero_page p c.page_size) in
      subst (IsWritten c p bytes)
        (sym
          (write-miss free c' e ∙ write_slot-place bytes (zero_page p c.page_size) free c' v.free))
        (
          placed-IsCache c i p miss c' free v page refl (λ d. absurd (cc d)),
          λ q.
              placed-page_view c i p miss c' free v page refl q
              ∙ ap (λ (b : List ℕ). if same_page p q then b else page_view c q)
                  (ap (λ (n : ℕ). overlay n bytes (replicate c.page_size 0)) v.sized
                    ∙ ap (overlay c.page_size bytes) (rw (miss, write_base) refl)),
        )

write-overlay :
    (p : PageId) (bytes : List ℕ) (c : PageCache)
    → IsCache c
    → IsWritten c p bytes (write_page p bytes c)
write-overlay p bytes c i = elim (Option-cases (find_slot p c.page_to_slot)) [
  | inl miss ↦ write-placed c i p bytes miss
  | inr (j, f) ↦
      let (page, e) = cached c i p j f in
      subst (IsWritten c p bytes) (sym (write-hit c i p j f bytes page e))
        (write-cached c i p bytes j f page e)
]

overlay_lem :
    (count : ℕ) (bytes page : List ℕ)
    → count ≤ length page
    → overlay count bytes page ≡ take count bytes ++ drop (length (take count bytes)) page
unfolding overlay
overlay_lem zero bytes page h = refl
overlay_lem (suc count) [] page h = refl
overlay_lem (suc count) (b ∷ bytes) [] h = absurd (omega (arith, h))
overlay_lem (suc count) (b ∷ bytes) (x ∷ page) h =
    ap (λ (xs : List ℕ). b ∷ xs) (overlay_lem count bytes page (omega (arith, h)))

-- After `writePage` the page reads, through the cache, as the first bytes of the data, at most the
-- size of a page, and behind them as what it was in the cache, or as zeros if it was not there, if
-- what it was has the size of a page at least. Every other page reads the same, and the cache still
-- agrees with its map and with the disk.
pub write_page-page_view :
    (p : PageId) (bytes : List ℕ) (c : PageCache)
    → IsCache c
    → c.page_size ≤ length (write_base c p)
    → IsCache (write_page p bytes c)
      × ((q : PageId)
          → page_view (write_page p bytes c) q ≡ (
              let front = take c.page_size bytes in
              if same_page p q
              then front ++ drop (length front) (write_base c p)
              else page_view c q))
write_page-page_view p bytes c i full =
    let (i', reads) = write-overlay p bytes c i in
    (
      i',
      λ q.
          reads q
          ∙ ap (λ (b : List ℕ). if same_page p q then b else page_view c q)
              (overlay_lem c.page_size bytes (write_base c p) full),
    )
