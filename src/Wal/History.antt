-- ===== src/Wal/History.antt =====
-- The appends and rotations of src/storage/wal.cpp, and what src/storage/recovery.cpp reads of the
-- files that they leave.
use amind.Prelude.{
  ℕ, suc, ◌+◌, ◌≡◌, refl, sym, ap, ◌∙◌, false, List, [], ◌∷◌, ◌++◌, arith, ◌==◌, ltb, length,
  length-append,
}
use amind.Prelude.Map.{assign}
use amind.Prelude.Files.{insert_file, sort_files}
use amind.Prelude.Bytes.{append_assoc, append_nil}
use package.amind.Wal.{WalEntry, WriteAheadLog, entry_bytes, append_entry, rotate}
use package.amind.Wal.Framing.{IsSmall}
use package.amind.Wal.Crash.{AllSmall, log_bytes, log_bytes-append}

pub data Event : Type 0 where
  appends : WalEntry → Event
  rotates : Event

abbrev pub SmallEvent : Event → Type 0
SmallEvent (appends e) = IsSmall e
SmallEvent rotates = Unit {0}

abbrev pub AllSmallEvents : List Event → Type 0
AllSmallEvents [] = Unit {0}
AllSmallEvents (v ∷ vs) = SmallEvent v × AllSmallEvents vs

-- The entries before the last rotation, and those after it
unfoldable pub split :
    List Event → (archived current : List WalEntry) → List WalEntry × List WalEntry
split [] archived current = (archived, current)
split (appends e ∷ vs) archived current = split vs archived (current ++ e ∷ [])
split (rotates ∷ vs) archived current = split vs (archived ++ current) []

module _ (crc : List ℕ → ℕ) where
  abbrev step : Event → WriteAheadLog → WriteAheadLog
  step (appends e) w = append_entry crc e w
  step rotates w = rotate w

  unfoldable pub run : List Event → WriteAheadLog → WriteAheadLog
  run [] w = w
  run (v ∷ vs) w = run vs (step v w)

  -- The files with the numbers from `n` on
  abbrev pub filed : (n : ℕ) → List (List WalEntry) → List (ℕ × List ℕ)
  filed n [] = []
  filed n (es ∷ chunks) = (n, log_bytes crc es) ∷ filed (suc n) chunks

  assign-filed :
      (n m : ℕ) (chunks : List (List WalEntry)) (es : List WalEntry)
      → m ≡ n + length chunks
      → assign m (log_bytes crc es) (filed n chunks) ≡ filed n (chunks ++ es ∷ [])
  unfolding assign
  assign-filed n m [] es h =
      let eq : m ≡ n = omega (arith, h) in ap (λ (k : ℕ). (k, log_bytes crc es) ∷ []) eq
  assign-filed n m (c ∷ chunks) es h =
      let other : (n == m) ≡ false = ground (arith, h) in
      rw (other, assign)
        (ap (λ (t : List (ℕ × List ℕ)). (n, log_bytes crc c) ∷ t)
          (assign-filed (suc n) m chunks es (omega (arith, h))))

  insert-filed :
      (n : ℕ) (b : List ℕ) (chunks : List (List WalEntry))
      → insert_file (n, b) (filed (suc n) chunks) ≡ (n, b) ∷ filed (suc n) chunks
  unfolding insert_file
  insert-filed n b [] = refl
  insert-filed n b (c ∷ chunks) =
      let later : ltb (suc n) n ≡ false = ground arith in rw (later, insert_file) refl

  one : (e : WalEntry) → log_bytes crc (e ∷ []) ≡ entry_bytes crc e
  unfolding log_bytes
  one e = append_nil (entry_bytes crc e)

  pub sort-filed :
      (n : ℕ) (chunks : List (List WalEntry)) → sort_files (filed n chunks) ≡ filed n chunks
  unfolding sort_files
  sort-filed n [] = refl
  sort-filed n (c ∷ chunks) =
      ap (insert_file (n, log_bytes crc c)) (sort-filed (suc n) chunks)
      ∙ insert-filed n (log_bytes crc c) chunks

  abbrev pub flatten : List (List WalEntry) → List WalEntry
  flatten [] = []
  flatten (c ∷ chunks) = c ++ flatten chunks

  abbrev pub AllChunks : List (List WalEntry) → Type 0
  AllChunks [] = Unit {0}
  AllChunks (c ∷ chunks) = AllSmall c × AllChunks chunks

  flatten-append :
      (chunks : List (List WalEntry)) (c : List WalEntry)
      → flatten (chunks ++ c ∷ []) ≡ flatten chunks ++ c
  flatten-append [] c = append_nil c
  flatten-append (d ∷ chunks) c =
      ap (λ (t : List WalEntry). d ++ t) (flatten-append chunks c)
      ∙ sym (append_assoc d (flatten chunks) c)

  append-AllChunks :
      (chunks : List (List WalEntry)) (c : List WalEntry)
      → AllChunks chunks
      → AllSmall c
      → AllChunks (chunks ++ c ∷ [])
  append-AllChunks [] c a b = (b, tt)
  append-AllChunks (d ∷ chunks) c a b = (a.0, append-AllChunks chunks c a.1 b)

  append-AllSmall :
      (es : List WalEntry) (e : WalEntry) → AllSmall es → IsSmall e → AllSmall (es ++ e ∷ [])
  append-AllSmall [] e a b = (b, tt)
  append-AllSmall (d ∷ es) e a b = (a.0, append-AllSmall es e a.1 b)

  length-chunks :
      (chunks : List (List WalEntry)) (c : List WalEntry)
      → length (chunks ++ c ∷ []) ≡ length chunks + 1
  length-chunks chunks c = length-append chunks (c ∷ [])

  -- The files are those of the chunks between rotations, and the active one.
  pub record IsHistory (w : WriteAheadLog) (archived current : List WalEntry) : Type 0 where
    pub chunks : List (List WalEntry)
    pub numbers : w.rotation_seq ≡ length chunks
    pub files : w.archived ≡ filed 1 chunks
    pub old : flatten chunks ≡ archived
    pub active : w.bytes ≡ log_bytes crc current
    pub small_old : AllChunks chunks
    pub small : AllSmall current

  append-IsHistory :
      (e : WalEntry) (w : WriteAheadLog) (archived current : List WalEntry)
      → IsSmall e
      → IsHistory w archived current
      → IsHistory (append_entry crc e w) archived (current ++ e ∷ [])
  unfolding append_entry
  append-IsHistory e w archived current b i = record {
    chunks = i.chunks;
    numbers = i.numbers;
    files = i.files;
    old = i.old;
    active =
        ap (λ (t : List ℕ). t ++ entry_bytes crc e) i.active
        ∙ ap (λ (t : List ℕ). log_bytes crc current ++ t) (sym (one e))
        ∙ sym (log_bytes-append crc current (e ∷ []));
    small_old = i.small_old;
    small = append-AllSmall current e i.small b;
  }

  rotate-IsHistory :
      (w : WriteAheadLog) (archived current : List WalEntry)
      → IsHistory w archived current
      → IsHistory (rotate w) (archived ++ current) []
  unfolding rotate log_bytes
  rotate-IsHistory w archived current i = record {
    chunks = i.chunks ++ current ∷ [];
    numbers = omega (arith, i.numbers, length-chunks i.chunks current);
    files =
        ap (λ (b : List ℕ). assign (w.rotation_seq + 1) b w.archived) i.active
        ∙ ap (assign (w.rotation_seq + 1) (log_bytes crc current)) i.files
        ∙ assign-filed 1 (w.rotation_seq + 1) i.chunks current (omega (arith, i.numbers));
    old = flatten-append i.chunks current ∙ ap (λ (t : List WalEntry). t ++ current) i.old;
    active = refl;
    small_old = append-AllChunks i.chunks current i.small_old i.small;
    small = tt;
  }

  pub run-IsHistory :
      (vs : List Event) (w : WriteAheadLog) (archived current : List WalEntry)
      → AllSmallEvents vs
      → IsHistory w archived current
      → IsHistory (run vs w) (split vs archived current).0 (split vs archived current).1
  unfolding run split
  run-IsHistory [] w archived current a i = i
  run-IsHistory (appends e ∷ vs) w archived current a i =
      run-IsHistory vs (append_entry crc e w) archived (current ++ e ∷ []) a.1
        (append-IsHistory e w archived current a.0 i)
  run-IsHistory (rotates ∷ vs) w archived current a i =
      run-IsHistory vs (rotate w) (archived ++ current) [] a.1
        (rotate-IsHistory w archived current i)
