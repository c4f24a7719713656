-- ===== src/Record.antt =====
-- src/core/types.h and src/core/memory_record.{h,cpp}: the enumerations of a memory record, their
-- names, the record, and its phase transitions and versions. Texts are lists of bytes, floats the
-- bit patterns of their 32 bits; the clock's reading is an argument.
pub mod Flags
pub mod Names
pub mod Phase
pub mod Sample
mod Tests
use amind.Prelude.{ℕ, ◌+◌, ◌*◌, ◌%◌, ◌^◌, Bool, true, false, not, ◌&&◌, List, bit_and, bit_or, ◌==◌}
use Flags

pub data MemoryScope : Type 0 where
  private agent_shared : MemoryScope

pub data MemoryType : Type 0 where
  user_profile feedback domain_knowledge reference skill ephemeral : MemoryType

pub data MemoryTier : Type 0 where
  working short_term long_term : MemoryTier

pub data MemoryPhase : Type 0 where
  active versioned archived tombstone invalidated : MemoryPhase

pub data Confidence : Type 0 where
  verified inferred stale conflicted : Confidence

pub data MemoryLayer : Type 0 where
  raw derived : MemoryLayer

pub data LineageOp : Type 0 where
  no_lineage summarize aggregate infer distill : LineageOp

pub data SourceTier : Type 0 where
  assertion behavioral inference : SourceTier

pub data GateDecision : Type 0 where
  accepted rejected deferred : GateDecision

pub data RemoveReason : Type 0 where
  user_delete lineage_orphan gc_archive gc_tombstone conflict_loser : RemoveReason

pub record MemoryRecord : Type 0 where
  pub memory_id : ℕ
  pub user_id : List ℕ
  pub agent_id : List ℕ
  pub scope : MemoryScope
  pub memory_type : MemoryType
  pub tier : MemoryTier
  pub phase : MemoryPhase
  pub confidence_level : Confidence
  pub confidence_score : ℕ
  pub flags : ℕ
  pub importance : ℕ
  pub access_count : ℕ
  pub mem_version : ℕ
  pub parent_id : ℕ
  pub created_at : ℕ
  pub last_accessed : ℕ
  pub source_turn : ℕ
  pub embedding : List ℕ
  pub content : List ℕ
  pub metadata : List ℕ
  pub user_metadata : List (List ℕ × List ℕ)
  pub layer : MemoryLayer
  pub lineage_parents : List ℕ
  pub lineage_op : LineageOp
  pub source_tier : SourceTier
  pub gate_decision : GateDecision
  pub marginal_value : ℕ
  pub forget_score : ℕ
  pub last_gc_visit : ℕ
  pub resurrection_count : ℕ

-- `flags & ~ALIVE`, on 16 bits.
abbrev clear_alive : ℕ → ℕ
clear_alive flags = bit_and flags 0xfffe

abbrev pub has_flag : ℕ → ℕ → Bool
has_flag flags flag = not (bit_and flags flag == 0)

abbrev pub is_phase_active : MemoryPhase → Bool
is_phase_active active = true
is_phase_active _ = false

unfoldable pub is_active : MemoryRecord → Bool
is_active r = is_phase_active r.phase && has_flag r.flags Flags.alive

abbrev is_phase_alive : MemoryPhase → Bool
is_phase_alive tombstone = false
is_phase_alive invalidated = false
is_phase_alive _ = true

unfoldable pub is_alive : MemoryRecord → Bool
is_alive r = not (has_flag r.flags Flags.tombstone) && is_phase_alive r.phase

unfoldable pub mark_versioned : MemoryRecord → MemoryRecord
mark_versioned r = record r {
  phase = versioned;
  flags = bit_or (clear_alive r.flags) Flags.versioned;
}

unfoldable pub mark_archived : MemoryRecord → MemoryRecord
mark_archived r = record r { phase = archived; flags = bit_or r.flags Flags.archived }

unfoldable pub mark_tombstone : MemoryRecord → MemoryRecord
mark_tombstone r = record r {
  phase = tombstone;
  flags = bit_or (clear_alive r.flags) Flags.tombstone;
}

unfoldable pub mark_invalidated : MemoryRecord → MemoryRecord
mark_invalidated r = record r {
  phase = invalidated;
  flags = bit_or (clear_alive r.flags) Flags.lineage_orphan;
}

-- `now` is the reading of `currentTimeSec`; the version counter has 32 bits.
unfoldable pub create_new_version : (now : ℕ) → MemoryRecord → ℕ → MemoryRecord
create_new_version now r new_memory_id = record r {
  memory_id = new_memory_id;
  parent_id = r.memory_id;
  mem_version = (r.mem_version + 1) % 2 ^ 32;
  phase = active;
  flags = Flags.alive;
  created_at = now;
  last_accessed = now;
  access_count = 0;
}
