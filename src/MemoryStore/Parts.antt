-- ===== src/MemoryStore/Parts.antt =====
-- What src/memory/memory_store.cpp works with: the storage engine, the codec of records, the vector
-- index and the floats, whose arithmetic is the machine's.
use amind.Prelude.{ℕ, Bool, Option, List}
use amind.Record.{MemoryRecord}

-- The codes of src/core/result.h that the memory store passes on
pub data Error : Type 0 where
  not_found corrupted_data crc_mismatch : Error

pub data Result (A : Type 0) : Type 0 where
  ok : A → Result A
  err : Error → Result A

-- Floats are bit patterns of 32 bits.
pub record Floats : Type 0 where
  pub add : ℕ → ℕ → ℕ
  pub sub : ℕ → ℕ → ℕ
  pub mul : ℕ → ℕ → ℕ
  pub div : ℕ → ℕ → ℕ
  pub neg : ℕ → ℕ
  pub exp : ℕ → ℕ
  pub of_nat : ℕ → ℕ
  pub less : ℕ → ℕ → Bool
  pub at_least : ℕ → ℕ → Bool

pub record Backend : Type 1 where
  pub Engine : Type 0
  pub get_raw : Engine → ℕ → Option (List ℕ)
  pub put_raw : ℕ → List ℕ → Engine → Engine
  pub flush_engine : Engine → Engine
  pub live_entries : Engine → List (ℕ × List ℕ)
  pub serialize : MemoryRecord → List ℕ
  pub deserialize : List ℕ → Result MemoryRecord
  pub Index : Type 0
  pub insert_vector : ℕ → List ℕ → Index → Index
  pub soft_delete : ℕ → Index → Index
  pub has_vector : ℕ → Index → Bool
  pub search : Index → List ℕ → ℕ → List (ℕ × ℕ)
  pub floats : Floats
