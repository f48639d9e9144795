-- ===== src/Checkpoint/Json/Restore.antt =====
-- `pdes_inflight_restore_and_schedule`.
use qemu_pdes.Base.{ℕ, ◌-◌, ◌^◌, Bool, Option, none, some, List, [], ◌∷◌}
use qemu_pdes.Comm.Message.{Message}
use qemu_pdes.Node.{MessageReceiveContext, armed}
use qemu_pdes.Checkpoint.Inflight.{Inflight, pdes_inflight_add}
use qemu_pdes.Checkpoint.Json.{Result, ok, ◌>>=◌, get_json_file_name}
use qemu_pdes.Checkpoint.Json.Load.{pdes_inflight_load_json}

-- What the loop schedules, in order, and the list that it leaves.
pub record Restored : Type 0 where
  pub contexts : List MessageReceiveContext
  pub inflight : Inflight

abbrev pub context : Bool → Message → ℕ → MessageReceiveContext
context has_cb m time = record {
  has_recv_cb = has_cb;
  msg = m;
  one_time_poll_timer = armed time;
  timestamp_ns = time;
}

-- The loop over the two arrays, which have `count` entries each.
unfoldable pub schedule : Bool → List Message → List ℕ → Inflight → Restored
schedule has_cb [] times s = record { contexts = []; inflight = s }
schedule has_cb (m ∷ ms) [] s = record { contexts = []; inflight = s }
schedule has_cb (m ∷ ms) (t ∷ ts) s =
    let later = schedule has_cb ms ts (pdes_inflight_add m t s) in
    record { contexts = context has_cb m t ∷ later.contexts; inflight = later.inflight }

-- The result, -1 without a file, with what is scheduled.
unfoldable pub pdes_inflight_restore_and_schedule :
    (List ℕ → Option (List ℕ)) → List ℕ → Bool → Inflight → Result (ℕ × Restored)
unfolding schedule
pdes_inflight_restore_and_schedule files checkpoint_name has_cb s = do
  arr ← pdes_inflight_load_json files (get_json_file_name checkpoint_name)
  elim arr [
    | none ↦ ok (2 ^ 32 - 1, record { contexts = []; inflight = s })
    | some a ↦ ok (a.count, schedule has_cb a.messages a.scheduled_times s)
  ]
