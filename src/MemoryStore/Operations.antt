-- ===== src/MemoryStore/Operations.antt =====
-- The operations of src/memory/memory_store.cpp that store, read and change a record.
use amind.Prelude.{ℕ, zero, suc, none, some, List, [], ◌∷◌, ◌==◌, if◌then◌else◌}
use amind.Prelude.Map.{find, erase, find_or}
use amind.Prelude.Ids
use amind.Record.{MemoryRecord, is_alive, mark_versioned, mark_tombstone}
use package.amind.MemoryStore.{
  MemoryStore, stamp, flag_embedding, touch, with_phase_archived, with_embedding, with_content,
  new_version, try_promote, boost, stored, peek, put_record, put_cache, put_both, put_vector,
}
use package.amind.MemoryStore.Parts.{Result, ok, err, Backend}
use package.amind.MemoryStore.Evict.{evict_if_needed}

module _ (P : Backend) where
  unfoldable pub fast_store : (fresh now : ℕ) → MemoryRecord → MemoryStore P → ℕ × MemoryStore P
  fast_store fresh now r s =
      let q = stamp fresh now r in
      let s' = put_vector P q.memory_id q s in
      (q.memory_id, evict_if_needed P (put_both P q.memory_id (flag_embedding q) s'))

  -- The record is touched and promoted in the cache, and is dirty.
  abbrev pub promote_cached : (id : ℕ) → MemoryRecord → MemoryStore P → MemoryStore P
  promote_cached id r s = record (put_cache P id (try_promote P.floats s.config r) s) {
    dirty_ids = Ids.insert id s.dirty_ids;
  }

  -- The second critical section of `get`: `try_emplace`. Another thread may have put the record into
  -- the cache since the first; then that record is touched.
  unfoldable pub populate : (now id : ℕ) → MemoryRecord → MemoryStore P → MemoryStore P
  populate now id r s = elim (find id s.cache) [
    | none ↦ promote_cached id r s
    | some q ↦ promote_cached id (touch now q) s
  ]

  unfoldable pub get : (now id : ℕ) → MemoryStore P → Result MemoryRecord × MemoryStore P
  get now id s = elim (find id s.cache) [
    | some r ↦ let q = touch now r in (ok (try_promote P.floats s.config q), promote_cached id q s)
    | none ↦ elim (stored P s.lsm id) [
      | err e ↦ (err e, s)
      | ok r ↦ let t = populate now id (touch now r) s in (ok (find_or (touch now r) id t.cache), t)
    ]
  ]

  unfoldable pub update :
      (now new_id id : ℕ) → (content embedding : List ℕ) → MemoryStore P → Result ℕ × MemoryStore P
  update now new_id id content embedding s = elim (peek P s id) [
    | err e ↦ (err e, s)
    | ok old ↦
        let q = new_version now new_id content embedding old in
        let t = put_both P id (mark_versioned old) s in
        (ok new_id, put_both P new_id q (put_vector P new_id q t))
  ]

  abbrev pub drop_vector : ℕ → MemoryStore P → MemoryStore P
  drop_vector id s = record s { hnsw = P.soft_delete id s.hnsw }

  unfoldable pub remove : (id : ℕ) → MemoryStore P → Result (Unit {0}) × MemoryStore P
  remove id s =
      let t = drop_vector id s in
      elim (find id s.cache) [
        | some r ↦
            (ok tt, record (put_record P id (mark_tombstone r) t) { cache = erase id t.cache })
        | none ↦ elim (stored P s.lsm id) [
          | err e ↦ (err e, t)
          | ok r ↦ (ok tt, put_record P id (mark_tombstone r) t)
        ]
      ]

  unfoldable pub archive : (id : ℕ) → MemoryStore P → Result (Unit {0}) × MemoryStore P
  archive id s =
      let t = drop_vector id s in
      elim (find id s.cache) [
        | some r ↦ (ok tt, put_both P id (with_phase_archived r) t)
        | none ↦ elim (stored P s.lsm id) [
          | err e ↦ (err e, t)
          | ok r ↦ (ok tt, put_record P id (with_phase_archived r) t)
        ]
      ]

  unfoldable pub set_embedding : (id : ℕ) (embedding : List ℕ) → MemoryStore P → MemoryStore P
  set_embedding id embedding s = elim (peek P s id) [
    | err e ↦ s
    | ok r ↦
        let t = put_both P id (with_embedding embedding r) s in
        record t { hnsw = P.insert_vector id embedding s.hnsw }
  ]

  unfoldable pub boost_importance : (id delta : ℕ) → MemoryStore P → MemoryStore P
  boost_importance id delta s = elim (peek P s id) [
    | err e ↦ s
    | ok r ↦ if is_alive r then put_both P id (boost P.floats delta r) s else s
  ]

  unfoldable pub update_in_place : (id : ℕ) (content : List ℕ) → MemoryStore P → MemoryStore P
  update_in_place id content s = elim (find id s.cache) [
    | none ↦ s
    | some r ↦ put_both P id (with_content content r) s
  ]

  -- The loop of `getHistory`, for the depth that is left
  unfoldable pub get_history :
      (now depth id : ℕ) → MemoryStore P → List MemoryRecord × MemoryStore P
  unfolding get
  get_history now zero id s = ([], s)
  get_history now (suc depth) id s =
      if id == 0
      then ([], s)
      else let (answer, t) = get now id s in
        elim answer [
          | err e ↦ ([], t)
          | ok r ↦ let (chain, u) = get_history now depth r.parent_id t in (r ∷ chain, u)
        ]
