-- ===== src/Utility/Counts.antt =====
-- The laws of the counts of sync messages, and what their `guint` keys do to late rounds.
use qemu_pdes.Base.{ℕ, ◌+◌, ◌^◌, ◌<◌, false, ◌≡◌, refl, arith, if◌then◌else◌, ◌==◌}
use qemu_pdes.Base.Word.{u32}
use qemu_pdes.Utility.{sync_count_get, sync_count_increment}

-- A count goes up at its own round, and at every round that has the same 32 low bits.
pub get-increment :
    (table : ℕ → ℕ) (round other : ℕ)
    → sync_count_get (sync_count_increment table round) other ≡ (
        if u32 other == u32 round
        then u32 (sync_count_get table round + 1)
        else sync_count_get table other)
unfolding sync_count_get sync_count_increment
get-increment table round other = refl

-- While rounds stay below 2 ^ 32 a count is that of its own round alone.
pub get-increment_ne :
    (table : ℕ → ℕ) (round other : ℕ)
    → round < 2 ^ 32
    → other < 2 ^ 32
    → (other == round) ≡ false
    → sync_count_get (sync_count_increment table round) other ≡ sync_count_get table other
unfolding sync_count_get sync_count_increment
get-increment_ne table round other h k e = ground arith
