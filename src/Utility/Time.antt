-- ===== src/Utility/Time.antt =====
-- The time that both nodes share.
use qemu_pdes.Base.{ℕ, ◌^◌, ◌<◌, ◌≤◌, ◌-◌, ◌≢◌, ◌≡◌, arith}
use qemu_pdes.Base.Word.{sub64, minus_one64}
use qemu_pdes.Node.{Node}
use qemu_pdes.Node.Monad.{ret, fault, assertion}
use qemu_pdes.Utility.{get_universal_virtual_time}

abbrev pub universal : Node → ℕ
universal n = sub64 n.virtual_ns n.engine.first_sync_virtual_time

-- Once the first sync time is set, the universal time is the local one less that, and adding it
-- gives the local time back.
pub universal_lem :
    (n : Node)
    → n.engine.first_sync_virtual_time ≢ minus_one64
    → get_universal_virtual_time n ≡ ret (universal n) n
unfolding get_universal_virtual_time
universal_lem n h = ground arith

pub universal_unset :
    (n : Node)
    → n.engine.first_sync_virtual_time ≡ minus_one64
    → get_universal_virtual_time n ≡ fault assertion
unfolding get_universal_virtual_time
universal_unset n h = ground arith

pub universal-eq-sub :
    (n : Node)
    → n.engine.first_sync_virtual_time ≤ n.virtual_ns
    → n.virtual_ns < 2 ^ 64
    → universal n ≡ n.virtual_ns - n.engine.first_sync_virtual_time
universal-eq-sub n h k = omega arith
