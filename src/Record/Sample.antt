-- ===== src/Record/Sample.antt =====
-- A record for the tests.
use amind.Prelude.{[], ◌∷◌}
use amind.Record.{
  MemoryRecord, MemoryScope, MemoryType, MemoryTier, MemoryPhase, Confidence, MemoryLayer,
  LineageOp, SourceTier, GateDecision,
}

abbrev pub note : MemoryRecord
note = record {
  memory_id = 17;
  user_id = [];
  agent_id = [];
  scope = MemoryScope.private;
  memory_type = MemoryType.ephemeral;
  tier = MemoryTier.working;
  phase = MemoryPhase.active;
  confidence_level = Confidence.inferred;
  confidence_score = 0x3f000000;
  flags = 1;
  importance = 0x3f000000;
  access_count = 0;
  mem_version = 1;
  parent_id = 0;
  created_at = 100;
  last_accessed = 100;
  source_turn = 0;
  embedding = [];
  content = b'h' ∷ b'i' ∷ [];
  metadata = [];
  user_metadata = [];
  layer = MemoryLayer.raw;
  lineage_parents = [];
  lineage_op = LineageOp.no_lineage;
  source_tier = SourceTier.inference;
  gate_decision = GateDecision.accepted;
  marginal_value = 0;
  forget_score = 0;
  last_gc_visit = 0;
  resurrection_count = 0;
}
