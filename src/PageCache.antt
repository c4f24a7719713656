-- ===== src/PageCache.antt =====
-- src/storage/page_cache.cpp: the page cache with its clock. `disk` is what the loader reads and the
-- flusher writes; the cache is one with a flusher. The lock is left out.
pub mod Agreed
pub mod Placed
pub mod Written
pub mod Victim
pub mod Fetch
pub mod Write
pub mod Evict
pub mod Flush
mod Tests
use amind.Prelude.{
  ℕ, zero, suc, ◌+◌, ◌*◌, ◌%◌, Bool, true, false, ◌&&◌, not, Option, none, some, List, [], ◌∷◌,
  ◌++◌, ◌==◌, ltb, if◌then◌else◌, length, get_elem?, set, replicate,
}
use amind.Prelude.Ids.{is_empty}

-- The file and the number of a page
abbrev pub PageId : Type 0
PageId = ℕ × ℕ

abbrev pub same_page : PageId → PageId → Bool
same_page (f, n) (g, m) = f == g && n == m

pub record CachedPage : Type 0 where
  pub page_id : PageId
  pub bytes : List ℕ
  pub referenced : Bool
  pub dirty : Bool

abbrev pub Disk : Type 0
Disk = PageId → List ℕ

-- The flusher
abbrev pub write_disk : PageId → List ℕ → Disk → Disk
write_disk p bytes disk = λ q. if same_page p q then bytes else disk q

pub record PageCache : Type 0 where
  pub page_size : ℕ
  pub slots : List (Option CachedPage)
  pub page_to_slot : List (PageId × ℕ)
  pub clock_hand : ℕ
  pub hit_count : ℕ
  pub miss_count : ℕ
  pub disk : Disk

unfoldable pub new_cache : (capacity page_size : ℕ) → Disk → PageCache
new_cache capacity page_size disk = record {
  page_size = page_size;
  slots = replicate capacity none;
  page_to_slot = [];
  clock_hand = 0;
  hit_count = 0;
  miss_count = 0;
  disk = disk;
}

-- `page_to_slot_`: `find`, `m[k] = v` and `erase`
unfoldable pub find_slot : PageId → List (PageId × ℕ) → Option ℕ
find_slot p [] = none
find_slot p ((q, i) ∷ m) = if same_page q p then some i else find_slot p m

unfoldable pub assign_slot : PageId → ℕ → List (PageId × ℕ) → List (PageId × ℕ)
assign_slot p i [] = (p, i) ∷ []
assign_slot p i ((q, j) ∷ m) = if same_page q p then (q, i) ∷ m else (q, j) ∷ assign_slot p i m

unfoldable pub erase_slot : PageId → List (PageId × ℕ) → List (PageId × ℕ)
erase_slot p [] = []
erase_slot p ((q, j) ∷ m) = if same_page q p then erase_slot p m else (q, j) ∷ erase_slot p m

-- The first empty slot
unfoldable pub first_empty : List (Option CachedPage) → Option ℕ
first_empty [] = none
first_empty (none ∷ slots) = some 0
first_empty (some page ∷ slots) = elim (first_empty slots) [ none ↦ none | some i ↦ some (suc i) ]

abbrev pub slot_at : List (Option CachedPage) → ℕ → Option CachedPage
slot_at slots i = elim (get_elem? slots i) [ none ↦ none | some slot ↦ slot ]

abbrev pub clear_referenced : CachedPage → CachedPage
clear_referenced page = record page { referenced = false }

-- The loop of the clock, for the sweeps that are left: the slots and the hand where it stops. The
-- code evicts the page there, whether it was found or the sweeps ran out.
unfoldable pub sweep :
    (sweeps capacity : ℕ) → List (Option CachedPage) → (hand : ℕ) → List (Option CachedPage) × ℕ
sweep zero capacity slots hand = (slots, hand)
sweep (suc sweeps) capacity slots hand = elim (slot_at slots hand) [
  | none ↦ sweep sweeps capacity slots ((hand + 1) % capacity)
  | some page ↦
      if page.referenced
      then sweep sweeps capacity (set slots hand (some (clear_referenced page)))
          ((hand + 1) % capacity)
      else (slots, hand)
]

-- The page in the slot leaves the cache, and is flushed if it is dirty.
unfoldable pub evict : ℕ → PageCache → PageCache
evict i c = elim (slot_at c.slots i) [
  | none ↦ c
  | some page ↦ record c {
    disk = if page.dirty then write_disk page.page_id page.bytes c.disk else c.disk;
    page_to_slot = erase_slot page.page_id c.page_to_slot;
    slots = set c.slots i none;
  }
]

-- `findVictim`: the slot that is free then
unfoldable pub find_victim : PageCache → ℕ × PageCache
find_victim c = elim (first_empty c.slots) [
  | some i ↦ (i, c)
  | none ↦
      let capacity = length c.slots in
      let (slots, hand) = sweep (capacity * 2) capacity c.slots c.clock_hand in
      (
        hand,
        record (evict hand (record c { slots = slots })) { clock_hand = (hand + 1) % capacity },
      )
]

abbrev pub place : CachedPage → ℕ × PageCache → PageCache
place page (i, c) = record c {
  slots = set c.slots i (some page);
  page_to_slot = assign_slot page.page_id i c.page_to_slot;
}

abbrev pub loaded_page : PageId → List ℕ → CachedPage
loaded_page p bytes = record { page_id = p; bytes = bytes; referenced = true; dirty = false }

abbrev pub counted_hit : PageCache → PageCache
counted_hit c = record c { hit_count = c.hit_count + 1 }

abbrev pub counted_miss : PageCache → PageCache
counted_miss c = record c { miss_count = c.miss_count + 1 }

-- A slot that was found is marked as referenced.
abbrev pub touch : ℕ → PageCache → PageCache
touch i c = elim (slot_at c.slots i) [
  | none ↦ c
  | some page ↦ record c { slots = set c.slots i (some (record page { referenced = true })) }
]

abbrev pub bytes_at : ℕ → PageCache → Option (List ℕ)
bytes_at i c = elim (slot_at c.slots i) [ none ↦ none | some page ↦ some page.bytes ]

-- `fetchPage`; `none` is an exception.
unfoldable pub fetch_page : PageId → PageCache → Option (List ℕ) × PageCache
fetch_page p c = elim (find_slot p c.page_to_slot) [
  | some i ↦ (bytes_at i c, counted_hit (touch i c))
  | none ↦
      let bytes = c.disk p in
      if is_empty bytes
      then (none, counted_miss c)
      else (some bytes, place (loaded_page p bytes) (find_victim (counted_miss c)))
]

-- `memcpy` of the first bytes of the data over the page. A page that is shorter than these, which the
-- C++ writes past the end of, keeps its length here.
unfoldable pub overlay : (count : ℕ) (bytes page : List ℕ) → List ℕ
overlay zero bytes page = page
overlay (suc count) [] page = page
overlay (suc count) (b ∷ bytes) [] = []
overlay (suc count) (b ∷ bytes) (x ∷ page) = b ∷ overlay count bytes page

abbrev pub written_page : (page_size : ℕ) → List ℕ → CachedPage → CachedPage
written_page page_size bytes page = record page {
  bytes = overlay page_size bytes page.bytes;
  referenced = true;
  dirty = true;
}

abbrev pub zero_page : PageId → (page_size : ℕ) → CachedPage
zero_page p page_size = record {
  page_id = p;
  bytes = replicate page_size 0;
  referenced = true;
  dirty = false;
}

-- The page in the slot takes the bytes.
abbrev pub write_slot : ℕ → List ℕ → PageCache → PageCache
write_slot i bytes c = elim (slot_at c.slots i) [
  | none ↦ c
  | some page ↦ record c { slots = set c.slots i (some (written_page c.page_size bytes page)) }
]

-- `writePage`
unfoldable pub write_page : PageId → List ℕ → PageCache → PageCache
write_page p bytes c = elim (find_slot p c.page_to_slot) [
  | some i ↦ write_slot i bytes (counted_hit c)
  | none ↦
      let (i, c') = find_victim (counted_miss c) in
      write_slot i bytes (place (zero_page p c.page_size) (i, c'))
]

-- The pages of a file in the map
unfoldable pub pages_of : (file_id : ℕ) → List (PageId × ℕ) → List PageId
pages_of file_id [] = []
pages_of file_id (((f, n), i) ∷ m) =
    let rest = pages_of file_id m in if f == file_id then (f, n) ∷ rest else rest

-- The second loop of `evictFile`
unfoldable pub evict_pages : List PageId → PageCache → PageCache
evict_pages [] c = c
evict_pages (p ∷ pages) c = elim (find_slot p c.page_to_slot) [
  | none ↦ evict_pages pages c
  | some i ↦ evict_pages pages (evict i c)
]

-- `evictFile`
unfoldable pub evict_file : (file_id : ℕ) → PageCache → PageCache
evict_file file_id c = evict_pages (pages_of file_id c.page_to_slot) c

-- A dirty page in the slot is written to disk; whether it was dirty.
unfoldable pub flush_slot : ℕ → PageCache → Bool × PageCache
flush_slot i c = elim (slot_at c.slots i) [
  | none ↦ (false, c)
  | some page ↦
      if page.dirty
      then (
        true,
        record c {
          disk = write_disk page.page_id page.bytes c.disk;
          slots = set c.slots i (some (record page { dirty = false }));
        },
      )
      else (false, c)
]

-- `flushPage`
unfoldable pub flush_page : PageId → PageCache → Bool × PageCache
flush_page p c = elim (find_slot p c.page_to_slot) [ none ↦ (false, c) | some i ↦ flush_slot i c ]

-- The loop of `flushAll`, for the slots that are left.
unfoldable pub flush_slots : (slot left : ℕ) → PageCache → PageCache
flush_slots slot zero c = c
flush_slots slot (suc left) c = flush_slots (slot + 1) left (flush_slot slot c).1

-- `flushAll`
unfoldable pub flush_all : PageCache → PageCache
flush_all c = flush_slots 0 (length c.slots) c
