-- ===== src/Record/Flags.antt =====
-- `RecordFlags` of src/core/types.h, the bits of a 16-bit mask.
use amind.Prelude.{ℕ}

abbrev pub alive : ℕ
alive = 0x01

abbrev pub versioned : ℕ
versioned = 0x02

abbrev pub archived : ℕ
archived = 0x04

abbrev pub tombstone : ℕ
tombstone = 0x08

abbrev pub has_embedding : ℕ
has_embedding = 0x10

abbrev pub lineage_orphan : ℕ
lineage_orphan = 0x80
