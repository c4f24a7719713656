-- ===== src/PageCache/Evict.antt =====
-- Evictions keep what every page reads.
use amind.Prelude.{
  ℕ, ◌≡◌, refl, ap, sym, ◌∙◌, subst, none, List, [], ◌∷◌, arith, length-set, Option-cases, inl, inr,
}
use amind.PageCache.{PageId, PageCache, find_slot, erase_slot, slot_at, evict, evict_pages}
use amind.PageCache.Agreed.{Bare, bare, IsAgreed, view, disk_after, evicted-IsAgreed, evicted-view}
use amind.PageCache.Victim.{IsCache, page_view, slot_at-bare, bare-set, evict-some}

-- A cache after an operation that keeps what every page reads.
abbrev pub IsSame : PageCache → PageCache → Type 0
IsSame c c' = IsCache c' × ((q : PageId) → page_view c' q ≡ page_view c q)

pub IsSame-trans : (a b c : PageCache) → IsSame a b → IsSame b c → IsSame a c
IsSame-trans a b c ab bc = (bc.0, λ q. bc.1 q ∙ ab.1 q)

evict-IsSame : (i : ℕ) (c : PageCache) → IsCache c → IsSame c (evict i c)
unfolding evict
evict-IsSame i c k = elim (Option-cases (slot_at c.slots i)) [
  | inl nothing ↦ rw (nothing, evict) (k, λ q. refl)
  | inr (page, e) ↦
      let here = slot_at-bare c.slots i page e in
      let emptied = bare-set c.slots i none in
      let disk' =
        disk_after c.page_to_slot (bare c.slots) c.disk i page.page_id page.bytes page.dirty in
      let m' = erase_slot page.page_id c.page_to_slot in
      subst (IsSame c) (sym (evict-some i c page e)) (
        record {
          agreed =
              subst (λ (bs : List Bare). IsAgreed m' bs disk') (sym emptied)
                (evicted-IsAgreed c.page_to_slot (bare c.slots) c.disk i page.page_id page.bytes
                  page.dirty k.agreed here);
          hand = omega (arith, k.hand, length-set c.slots i none);
        },
        λ q.
            ap (λ (bs : List Bare). view m' bs disk' q) emptied
            ∙ evicted-view c.page_to_slot (bare c.slots) c.disk i page.page_id page.bytes page.dirty
                k.agreed here q,
      )
]

pub evict_pages-IsSame :
    (pages : List PageId) (c : PageCache) → IsCache c → IsSame c (evict_pages pages c)
unfolding evict_pages
evict_pages-IsSame [] c k = (k, λ q. refl)
evict_pages-IsSame (p ∷ pages) c k = elim (Option-cases (find_slot p c.page_to_slot)) [
  | inl gone ↦ rw (gone, evict_pages) (evict_pages-IsSame pages c k)
  | inr (i, f) ↦
      let first = evict-IsSame i c k in
      rw (f, evict_pages)
        (IsSame-trans c (evict i c) (evict_pages pages (evict i c)) first
          (evict_pages-IsSame pages (evict i c) first.0))
]
