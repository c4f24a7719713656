-- ===== src/MemoryStore.antt =====
-- src/memory/memory_store.{h,cpp}: the cache of records over the storage engine. `now` is the
-- reading of `currentTimeSec`, `fresh` the id that `id_gen_.nextId` returned. The lock is left out:
-- an operation is its critical section. Texts of log lines are left out.
pub mod Parts
pub mod Evict
pub mod Operations
pub mod Decay
pub mod Init
pub mod Tiers
pub mod Touched
pub mod Versions
pub mod Distinct
pub mod Bound
pub mod Lists
mod Tests
use amind.Prelude.{
  ℕ, ◌+◌, ◌-◌, ◌/◌, ◌%◌, ◌^◌, Bool, true, false, not, ◌&&◌, ◌||◌, Option, none, some, List, [], ◌∷◌,
  bit_or, ◌==◌, ltb, leb, if◌then◌else◌, length,
}
use amind.Prelude.Map.{find, assign, erase}
use amind.Prelude.Ids
use amind.Prelude.Ids.{is_empty}
use amind.Record.{
  MemoryRecord, MemoryTier, MemoryPhase, is_alive, mark_versioned, mark_tombstone,
  create_new_version,
}
use amind.Record.Flags
use Parts.{Error, not_found, Result, ok, err, Floats, Backend}

-- The part of `Config` that the operations read
pub record Config : Type 0 where
  pub conflict_similarity_threshold : ℕ
  pub decay_rate : ℕ
  pub exponential_decay_enabled : Bool
  pub promotion_working_access_count : ℕ
  pub promotion_working_importance : ℕ
  pub promotion_short_access_count : ℕ
  pub promotion_short_importance : ℕ
  pub max_cache_size : ℕ

pub record MemoryStore (P : Backend) : Type 0 where
  pub config : Config
  pub lsm : P.Engine
  pub hnsw : P.Index
  pub cache : List (ℕ × MemoryRecord)
  pub dirty_ids : List ℕ

-- `if (record.memory_id == 0)` and `if (record.created_at == 0)` of `fastStore`
unfoldable pub stamp : (fresh now : ℕ) → MemoryRecord → MemoryRecord
stamp fresh now r =
    let q = if r.memory_id == 0 then record r { memory_id = fresh } else r in
    if q.created_at == 0 then record q { created_at = now; last_accessed = now } else q

-- The record with the embedding's flag, if it has an embedding.
unfoldable pub flag_embedding : MemoryRecord → MemoryRecord
flag_embedding r =
    if is_empty r.embedding then r else record r { flags = bit_or r.flags Flags.has_embedding }

-- `access_count++`, on 32 bits, and the time of the access.
unfoldable pub touch : (now : ℕ) → MemoryRecord → MemoryRecord
touch now r = record r { access_count = (r.access_count + 1) % 2 ^ 32; last_accessed = now }

-- `archive` sets the phase and leaves the flags.
abbrev pub with_phase_archived : MemoryRecord → MemoryRecord
with_phase_archived r = record r { phase = MemoryPhase.archived }

abbrev pub with_embedding : List ℕ → MemoryRecord → MemoryRecord
with_embedding embedding r = record r {
  embedding = embedding;
  flags = bit_or r.flags Flags.has_embedding;
}

abbrev pub with_content : List ℕ → MemoryRecord → MemoryRecord
with_content content r = record r { content = content }

-- The new version of `update`.
unfoldable pub new_version :
    (now new_id : ℕ) (content embedding : List ℕ) → MemoryRecord → MemoryRecord
unfolding create_new_version
new_version now new_id content embedding old =
    let q = with_content content (create_new_version now old new_id) in
    if is_empty embedding then q else record q { embedding = embedding }

module _ (F : Floats) where
  unfoldable pub try_promote : Config → MemoryRecord → MemoryRecord
  try_promote c r = elim r.tier [
    | MemoryTier.working ↦
        if leb c.promotion_working_access_count r.access_count
          || F.at_least r.importance c.promotion_working_importance
        then record r { tier = MemoryTier.short_term }
        else r
    | MemoryTier.short_term ↦
        if leb c.promotion_short_access_count r.access_count
          && F.at_least r.importance c.promotion_short_importance
        then record r { tier = MemoryTier.long_term }
        else r
    | MemoryTier.long_term ↦ r
  ]

  -- `std::clamp(importance + delta, 0.0f, 1.0f)`
  unfoldable pub boost : (delta : ℕ) → MemoryRecord → MemoryRecord
  boost delta r =
      let v = F.add r.importance delta in
      record r {
        importance = if F.less v 0 then 0 else if F.less 0x3f800000 v then 0x3f800000 else v;
      }

module _ (P : Backend) where
  -- `lsm_->get` and `MemoryRecord::deserialize`
  abbrev pub stored : P.Engine → ℕ → Result MemoryRecord
  stored e id = elim (P.get_raw e id) [ none ↦ err not_found | some raw ↦ P.deserialize raw ]

  unfoldable pub peek : MemoryStore P → ℕ → Result MemoryRecord
  peek s id = elim (find id s.cache) [ some r ↦ ok r | none ↦ stored s.lsm id ]

  unfoldable pub contains : MemoryStore P → ℕ → Bool
  contains s id = elim (find id s.cache) [
    | some r ↦ true
    | none ↦ elim (P.get_raw s.lsm id) [ none ↦ false | some raw ↦ true ]
  ]

  -- `lsm_->putRaw(id, r.serialize())`
  abbrev pub put_record : ℕ → MemoryRecord → MemoryStore P → MemoryStore P
  put_record id r s = record s { lsm = P.put_raw id (P.serialize r) s.lsm }

  -- `cache_[id] = r`
  abbrev pub put_cache : ℕ → MemoryRecord → MemoryStore P → MemoryStore P
  put_cache id r s = record s { cache = assign id r s.cache }

  abbrev pub put_both : ℕ → MemoryRecord → MemoryStore P → MemoryStore P
  put_both id r s = put_cache id r (put_record id r s)

  -- `hnsw_->insert(id, r.embedding)`, if there is one
  abbrev pub put_vector : ℕ → MemoryRecord → MemoryStore P → MemoryStore P
  put_vector id r s = record s {
    hnsw = if is_empty r.embedding then s.hnsw else P.insert_vector id r.embedding s.hnsw;
  }

  -- The loop of `flushDirtyRecords`
  unfoldable pub write_back : List ℕ → List (ℕ × MemoryRecord) → P.Engine → P.Engine
  write_back [] cache e = e
  write_back (id ∷ ids) cache e = elim (find id cache) [
    | none ↦ write_back ids cache e
    | some r ↦ write_back ids cache (P.put_raw id (P.serialize r) e)
  ]

  unfoldable pub flush_dirty_records : MemoryStore P → MemoryStore P
  flush_dirty_records s = record s { lsm = write_back s.dirty_ids s.cache s.lsm; dirty_ids = [] }

  -- `flush`, but for the file of the vector index
  unfoldable pub flush : MemoryStore P → MemoryStore P
  flush s = let t = flush_dirty_records s in record t { lsm = P.flush_engine t.lsm }
