-- ===== src/Record/Tests.antt =====
-- The theorems on records at a concrete record.
use amind.Prelude.{◌≡◌, refl, true}
use amind.Record.{is_alive, mark_archived, mark_invalidated}
use amind.Record.Sample.{note}

-- An invalidated record that is archived counts as alive again.
archived_after_invalidated : is_alive (mark_archived (mark_invalidated note)) ≡ true
unfolding is_alive mark_archived mark_invalidated
archived_after_invalidated = refl
