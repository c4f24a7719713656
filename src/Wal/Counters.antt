-- ===== src/Wal/Counters.antt =====
-- The counters of src/storage/recovery.cpp, and the replay of the files as one replay of their entries.
use amind.Prelude.{
  ℕ, suc, ◌+◌, ◌≡◌, refl, sym, ap, ◌∙◌, subst, Option, List, [], ◌∷◌, ◌++◌, arith, ◌==◌, leb,
  length, length-append, Bool-cases, Option-cases, inl, inr,
}
use amind.Prelude.Bytes.{le_value, take}
use package.amind.Wal.{WalEntry, WriteAheadLog, put_type, delete_type, read_all}
use package.amind.Wal.Recovery.{
  on_put, on_delete, RecoveryStats, no_stats, wal_files, apply_entry, replay_entry, replay_entries,
  next_file, recover_files, recover, entries_of,
}

module _ {R : Type 0} (deserialize : List ℕ → Option R) where
  module _ (n : ℕ) where
    abbrev numbered : RecoveryStats R → RecoveryStats R
    numbered t = record t { wal_files_processed = n }

    apply_entry-numbered :
        (e : WalEntry) (t : RecoveryStats R)
        → apply_entry deserialize e (numbered t) ≡ numbered (apply_entry deserialize e t)
    unfolding apply_entry
    apply_entry-numbered e t = elim (Bool-cases (e.entry_type == put_type)) [
      | inl p ↦ elim (Option-cases (deserialize e.payload)) [
        | inl h ↦ rw (p, h, apply_entry) refl
        | inr (r, h) ↦ rw (p, h, apply_entry) refl
      ]
      | inr p ↦ elim (Bool-cases (e.entry_type == delete_type)) [
        | inl d ↦ elim (Bool-cases (leb 8 (length e.payload))) [
          | inl l ↦ rw (p, d, l, apply_entry) refl
          | inr l ↦ rw (p, d, l, apply_entry) refl
        ]
        | inr d ↦ rw (p, d, apply_entry) refl
      ]
    ]

    replay_entries-numbered :
        (es : List WalEntry) (t : RecoveryStats R)
        → replay_entries deserialize es (numbered t) ≡ numbered (replay_entries deserialize es t)
    unfolding replay_entries
    replay_entries-numbered [] t = refl
    replay_entries-numbered (e ∷ es) t =
        ap
          (λ (u : RecoveryStats R).
            replay_entries deserialize es (record u { entries_replayed = u.entries_replayed + 1 }))
          (apply_entry-numbered e t)
        ∙ replay_entries-numbered es (replay_entry deserialize e t)

  replay_entries-append :
      (es fs : List WalEntry) (t : RecoveryStats R)
      → replay_entries deserialize (es ++ fs) t
        ≡ replay_entries deserialize fs (replay_entries deserialize es t)
  unfolding replay_entries
  replay_entries-append [] fs t = refl
  replay_entries-append (e ∷ es) fs t = replay_entries-append es fs (replay_entry deserialize e t)

  -- What an entry adds to the counters
  abbrev IsBalanced : RecoveryStats R → Type 0
  IsBalanced t =
      (t.entries_replayed ≡ t.puts_applied + t.deletes_applied + t.entries_skipped)
      × (length t.applied ≡ t.puts_applied + t.deletes_applied)

  replay_entry-IsBalanced :
      (e : WalEntry) (t : RecoveryStats R)
      → IsBalanced t
      → IsBalanced (replay_entry deserialize e t)
  unfolding apply_entry
  replay_entry-IsBalanced e t b = elim (Bool-cases (e.entry_type == put_type)) [
    | inl p ↦ elim (Option-cases (deserialize e.payload)) [
      | inl h ↦ rw (p, h, apply_entry) (omega (arith, b.0), b.1)
      | inr (r, h) ↦
          rw (p, h, apply_entry)
            (omega (arith, b.0), omega (arith, b.1, length-append t.applied (on_put r ∷ [])))
    ]
    | inr p ↦ elim (Bool-cases (e.entry_type == delete_type)) [
      | inl d ↦ elim (Bool-cases (leb 8 (length e.payload))) [
        | inl l ↦
            rw (p, d, l, apply_entry)
              (
                omega (arith, b.0),
                omega (
                  arith,
                  b.1,
                  length-append t.applied (on_delete (le_value (take 8 e.payload)) ∷ []),
                ),
              )
        | inr l ↦ rw (p, d, l, apply_entry) (omega (arith, b.0), b.1)
      ]
      | inr d ↦ rw (p, d, apply_entry) (omega (arith, b.0), b.1)
    ]
  ]

  replay_entries-IsBalanced :
      (es : List WalEntry) (t : RecoveryStats R)
      → IsBalanced t
      → IsBalanced (replay_entries deserialize es t)
  unfolding replay_entries
  replay_entries-IsBalanced [] t b = b
  replay_entries-IsBalanced (e ∷ es) t b =
      replay_entries-IsBalanced es (replay_entry deserialize e t) (replay_entry-IsBalanced e t b)

  module _ (crc : List ℕ → ℕ) where
    count_kept :
        (es : List WalEntry) (t : RecoveryStats R)
        → (replay_entries deserialize es t).wal_files_processed ≡ t.wal_files_processed
    count_kept es t =
        ap (λ (u : RecoveryStats R). u.wal_files_processed)
          (replay_entries-numbered t.wal_files_processed es t)

    recover_files-entries_of :
        (files : List (List ℕ)) (t : RecoveryStats R)
        → recover_files deserialize crc files t
          ≡ numbered
              (t.wal_files_processed + length files)
              (replay_entries deserialize (entries_of crc files) t)
    unfolding recover_files replay_entries
    recover_files-entries_of [] t =
        let count : t.wal_files_processed ≡ t.wal_files_processed + 0 = omega arith in
        ap (λ (n : ℕ). numbered n t) count
    recover_files-entries_of (bytes ∷ files) t =
        let u = replay_entries deserialize (read_all crc bytes) t in
        let count : u.wal_files_processed + 1 + length files
            ≡ t.wal_files_processed + suc (length files) =
          omega (arith, count_kept (read_all crc bytes) t) in
        recover_files-entries_of files (next_file u)
        ∙ ap (numbered (u.wal_files_processed + 1 + length files))
            (replay_entries-numbered (u.wal_files_processed + 1) (entries_of crc files) u)
        ∙ ap (λ (n : ℕ). numbered n (replay_entries deserialize (entries_of crc files) u)) count
        ∙ ap (numbered (t.wal_files_processed + suc (length files)))
            (sym (replay_entries-append (read_all crc bytes) (entries_of crc files) t))

    -- The recovery replays the entries of the files as one list, and counts the files; each entry is
    -- counted once, as a put, a removal or skipped, and each put and removal has one call of a handler.
    pub recover-entries_of :
        (w : WriteAheadLog)
        → (recover deserialize crc w
            ≡ numbered
                (length (wal_files w))
                (replay_entries deserialize (entries_of crc (wal_files w)) no_stats))
          × IsBalanced (recover deserialize crc w)
    unfolding recover
    recover-entries_of w =
        let count : 0 + length (wal_files w) ≡ length (wal_files w) = omega arith in
        let e : recover deserialize crc w
            ≡ numbered (length (wal_files w))
                (replay_entries deserialize (entries_of crc (wal_files w)) no_stats) =
          recover_files-entries_of (wal_files w) no_stats
          ∙ ap
              (λ (n : ℕ).
                numbered n (replay_entries deserialize (entries_of crc (wal_files w)) no_stats))
              count in
        (
          e,
          subst IsBalanced (sym e)
              (replay_entries-IsBalanced (entries_of crc (wal_files w)) no_stats (refl, refl)),
        )
