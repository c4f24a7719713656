-- ===== src/Wal/Recovered.antt =====
-- What src/storage/recovery.cpp recovers after a crash of src/storage/wal.cpp.
use amind.Prelude.{
  ℕ, suc, ◌≡◌, refl, sym, ap, ◌∙◌, true, false, Option, List, [], ◌∷◌, ◌++◌, arith, Bool-cases, inl,
  inr,
}
use amind.Prelude.Files.{sort_files, contents}
use amind.Prelude.Ids.{is_empty}
use amind.Prelude.Bytes.{take, append_assoc, append_nil}
use package.amind.Wal.{WalEntry, WriteAheadLog, open_log, read_entries, read_all}
use package.amind.Wal.Framing.{IsCrc}
use package.amind.Wal.Crash.{whole, log_bytes, read_all-take, read_all-log_bytes}
use package.amind.Wal.Recovery.{
  RecoveryStats, no_stats, wal_files, replay_entries, recover, entries_of,
}
use package.amind.Wal.Counters.{recover-entries_of}
use package.amind.Wal.History.{
  Event, AllSmallEvents, split, run, filed, sort-filed, flatten, AllChunks, IsHistory,
  run-IsHistory,
}

-- The active file after a crash: its first `k` bytes
abbrev pub cut : (k : ℕ) → WriteAheadLog → WriteAheadLog
cut k w = record w { bytes = take k w.bytes }

module _ (crc : List ℕ → ℕ) (crc32 : IsCrc crc) where
  entries_of-append :
      (files : List (List ℕ)) (b : List ℕ)
      → entries_of crc (files ++ b ∷ []) ≡ entries_of crc files ++ read_all crc b
  entries_of-append [] b = append_nil (read_all crc b)
  entries_of-append (f ∷ files) b =
      ap (λ (t : List WalEntry). read_all crc f ++ t) (entries_of-append files b)
      ∙ sym (append_assoc (read_all crc f) (entries_of crc files) (read_all crc b))

  read_filed :
      (n : ℕ) (chunks : List (List WalEntry))
      → AllChunks crc chunks
      → entries_of crc (contents (filed crc n chunks)) ≡ flatten crc chunks
  read_filed n [] a = refl
  read_filed n (c ∷ chunks) a =
      ap (λ (t : List WalEntry). t ++ entries_of crc (contents (filed crc (suc n) chunks)))
        (read_all-log_bytes crc crc32 c a.0)
      ∙ ap (λ (t : List WalEntry). c ++ t) (read_filed (suc n) chunks a.1)

  nothing : (b : List ℕ) → is_empty b ≡ true → read_all crc b ≡ []
  unfolding read_entries
  nothing [] h = refl
  nothing (x ∷ b) h = absurd (differ h)
    where
      differ : false ≡ true → ⊥
      differ e = ground (arith, e)

  entries_of-wal_files :
      (w : WriteAheadLog)
      → entries_of crc (wal_files w)
        ≡ entries_of crc (contents (sort_files w.archived)) ++ read_all crc w.bytes
  unfolding wal_files
  entries_of-wal_files w = elim (Bool-cases (is_empty w.bytes)) [
    | inl e ↦
        rw (e, wal_files)
          (sym (
            ap (λ (t : List WalEntry). entries_of crc (contents (sort_files w.archived)) ++ t)
              (nothing w.bytes e)
            ∙ append_nil (entries_of crc (contents (sort_files w.archived)))))
    | inr e ↦ rw (e, wal_files) (entries_of-append (contents (sort_files w.archived)) w.bytes)
  ]

  IsHistory-entries_of :
      (w : WriteAheadLog) (archived current : List WalEntry) (k : ℕ)
      → IsHistory crc w archived current
      → entries_of crc (wal_files (cut k w)) ≡ archived ++ whole k current
  IsHistory-entries_of w archived current k i =
      entries_of-wal_files (cut k w)
      ∙ ap
          (λ (b : List ℕ).
            entries_of crc (contents (sort_files w.archived)) ++ read_all crc (take k b))
          i.active
      ∙ ap (λ (t : List WalEntry). entries_of crc (contents (sort_files w.archived)) ++ t)
          (read_all-take crc crc32 k current i.small)
      ∙ ap (λ (t : List WalEntry). t ++ whole k current)
          (ap (λ (f : List (ℕ × List ℕ)). entries_of crc (contents (sort_files f))) i.files
            ∙ ap (λ (f : List (ℕ × List ℕ)). entries_of crc (contents f))
                (sort-filed crc 1 i.chunks)
            ∙ read_filed 1 i.chunks i.small_old
            ∙ i.old)

  -- A log that was opened on an empty directory, had any appends and rotations of entries whose length
  -- fits 32 bits, and lost the end of its active file in a crash: the recovery calls the handlers for
  -- the entries before the last rotation, all of them and in order, and then for those after it that
  -- stand whole in the bytes that are left.
  pub recover-run :
      {R : Type 0} (deserialize : List ℕ → Option R) (vs : List Event) (k : ℕ)
      → AllSmallEvents vs
      → (recover deserialize crc (cut k (run crc vs (open_log [] [])))).applied
        ≡ (replay_entries deserialize
            ((split vs [] []).0 ++ whole k (split vs [] []).1)
            no_stats).applied
  unfolding log_bytes
  recover-run deserialize vs k a =
      let start : IsHistory crc (open_log [] []) [] [] = record {
        chunks = [];
        numbers = refl;
        files = refl;
        old = refl;
        active = refl;
        small_old = tt;
        small = tt;
      } in
      let w = run crc vs (open_log [] []) in
      ap (λ (t : RecoveryStats _). t.applied) (recover-entries_of deserialize crc (cut k w)).0
      ∙ ap (λ (es : List WalEntry). (replay_entries deserialize es no_stats).applied)
          (IsHistory-entries_of w (split vs [] []).0 (split vs [] []).1 k
            (run-IsHistory crc vs (open_log [] []) [] [] a start))
