-- ===== src/PageCache/Tests.antt =====
-- The theorems on the page cache at a cache of two slots.
use amind.Prelude.{
  ℕ, zero, suc, Bool, get_elem?, ◌≡◌, false, none, some, List, [], ◌∷◌, arith, if◌then◌else◌,
}
use amind.Prelude.Bytes.{drop}
use amind.PageCache.{
  PageId, same_page, Disk, PageCache, new_cache, find_slot, fetch_page, write_page, overlay,
  find_victim, first_empty, assign_slot, flush_page, flush_all, evict_file,
}
use amind.PageCache.Agreed.{bare}
use amind.PageCache.Victim.{IsCache, page_view}
use amind.PageCache.Fetch.{is_missing, fetch_page-page_view}
use amind.PageCache.Evict.{IsSame}
use amind.PageCache.Flush.{flushes-IsSame}
use amind.PageCache.Write.{write_base, write_page-page_view}

abbrev disk : Disk
disk (f, n) = f ∷ n ∷ 5 ∷ []

abbrev empty_cache : PageCache
empty_cache = new_cache 2 3 disk

empty_cache-IsCache : IsCache empty_cache
unfolding find_slot new_cache
empty_cache-IsCache = record {
  agreed = record {
    listed = λ p i f. absurd (cc f);
    placed = λ p i b d f. absurd (no_page i p b d f);
    clean = λ p i b f. absurd (no_page i p b false f);
  };
  hand = omega arith;
}
  where
    no_page :
        (i : ℕ) (p : PageId) (b : List ℕ) (d : Bool)
        → get_elem? (bare empty_cache.slots) i ≡ some (some (p, b, d))
        → ⊥
    no_page zero p b d f = cc f
    no_page (suc zero) p b d f = cc f
    no_page (suc (suc i)) p b d f = cc f

abbrev filled_cache : PageCache
filled_cache = write_page (1, 4) (9 ∷ []) empty_cache

filled_cache-IsCache : IsCache filled_cache
unfolding new_cache find_slot
filled_cache-IsCache =
    (write_page-page_view (1, 4) (9 ∷ []) empty_cache empty_cache-IsCache (omega arith)).0

fetch_page-page_view_example :
    IsCache (fetch_page (2, 7) filled_cache).1
    × ((fetch_page (2, 7) filled_cache).0
        ≡ (if is_missing filled_cache (2, 7) then none else some (page_view filled_cache (2, 7))))
    × ((q : PageId) → page_view (fetch_page (2, 7) filled_cache).1 q ≡ page_view filled_cache q)
fetch_page-page_view_example = fetch_page-page_view (2, 7) filled_cache filled_cache-IsCache

write_page-page_view_example :
    IsCache (write_page (1, 4) (8 ∷ 8 ∷ []) filled_cache)
    × ((q : PageId)
        → page_view (write_page (1, 4) (8 ∷ 8 ∷ []) filled_cache) q ≡ (
            if same_page (1, 4) q
            then 8 ∷ 8 ∷ drop 2 (write_base filled_cache (1, 4))
            else page_view filled_cache q))
unfolding write_page find_slot new_cache find_victim first_empty assign_slot overlay
write_page-page_view_example =
    write_page-page_view (1, 4) (8 ∷ 8 ∷ []) filled_cache filled_cache-IsCache (omega arith)

flushes-IsSame_example :
    IsSame filled_cache (flush_page (1, 4) filled_cache).1
    × IsSame filled_cache (flush_all filled_cache)
    × IsSame filled_cache (evict_file 1 filled_cache)
flushes-IsSame_example = flushes-IsSame (1, 4) 1 filled_cache filled_cache-IsCache
