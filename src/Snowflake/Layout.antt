-- ===== src/Snowflake/Layout.antt =====
-- The fields of an id do not overlap.
use amind.Prelude.{ℕ, ◌+◌, ◌-◌, ◌*◌, ◌/◌, ◌^◌, ◌≤◌, ◌<◌, ◌≡◌, arith}
use amind.Prelude.Bits.{or_disjoint, and_ten_ones, and_twelve_ones}
use amind.Snowflake.{
  custom_epoch_ms, max_worker_id, max_sequence, encode, extract_timestamp, extract_worker_id,
  extract_sequence,
}

-- The readings whose distance from the epoch fits the 42 bits above the other fields.
abbrev pub InRange : ℕ → Type 0
InRange t = (custom_epoch_ms ≤ t) × (t < custom_epoch_ms + 2 ^ 42)

pub encode-sum :
    (t w s : ℕ)
    → InRange t
    → w ≤ max_worker_id
    → s ≤ max_sequence
    → encode t w s ≡ (t - custom_epoch_ms) * 2 ^ 22 + w * 2 ^ 12 + s
unfolding encode
encode-sum t w s r hw hs = ground (
  arith,
  or_disjoint 22 (t - custom_epoch_ms) (w * 2 ^ 12) (omega arith),
  or_disjoint 12 ((t - custom_epoch_ms) * 2 ^ 10 + w) s (omega arith),
)

-- Every field of an id can be read back from it, and bit 63 of the id is 0, for a timestamp of the
-- 69 years after the epoch that 41 bits hold.
pub extract-encode :
    (t w s : ℕ)
    → custom_epoch_ms ≤ t
    → t < custom_epoch_ms + 2 ^ 41
    → w ≤ max_worker_id
    → s ≤ max_sequence
    → (encode t w s < 2 ^ 63)
      × (extract_timestamp (encode t w s) ≡ t)
      × (extract_worker_id (encode t w s) ≡ w)
      × (extract_sequence (encode t w s) ≡ s)
unfolding extract_timestamp extract_worker_id extract_sequence
extract-encode t w s from to hw hs = omega (
  arith,
  encode-sum t w s (from, omega (arith, to)) hw hs,
  and_ten_ones (encode t w s / 2 ^ 12),
  and_twelve_ones (encode t w s),
)
