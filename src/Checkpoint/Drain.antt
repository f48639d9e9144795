-- ===== src/Checkpoint/Drain.antt =====
-- `pdes_drain` of net/pdes-engine.c: the end of draining, announced by the master, and the file of
-- the messages in flight.
pub mod Laws
use qemu_pdes.Base.{
  ℕ, ◌-◌, ◌^◌, Bool, true, false, Option, none, some, List, [], if◌then◌else◌, ◌==◌,
}
use qemu_pdes.Comm.Message.{drain_end}
use qemu_pdes.Node.{Node, PdesEngine, Flexus, write_file}
use qemu_pdes.Node.Monad.{
  M, pure, skip, when, assert, fail, spinning, get, engine, set_engine, emit, message, ◌>>=◌, ◌>>◌,
}
use qemu_pdes.Node.Channel.{pdes_comm_send}
use qemu_pdes.Utility.{get_universal_virtual_time}
use qemu_pdes.Checkpoint.Inflight.{Inflight}
use qemu_pdes.Checkpoint.Json.{Result, ok, failed, unfinished}
use qemu_pdes.Checkpoint.Json.Save.{pdes_inflight_save_json}

abbrev pub is_libqflex : Option Flexus → Bool
is_libqflex none = false
is_libqflex (some f) = true

-- A function on files within a callback: the file that it writes is an effect.
abbrev pub perform : Result (ℕ × Option (List ℕ × List ℕ)) → M (Unit {0})
perform (ok (result, none)) = skip
perform (ok (result, some (name, text))) = emit (write_file name text)
perform (failed e) = fail e
perform unfinished = λ n. spinning n

unfoldable pub announce_drain_end : M (Unit {0})
announce_drain_end = do
  set_engine (λ e. record e { checkpoint_in_progress = true })
  ts ← get_universal_virtual_time
  msg ← message [] drain_end ts
  status ← pdes_comm_send msg
  set_engine (λ e. record e { neighbour_drained = 0 })

-- `opens` says which files can be opened. No result of a call is read, and the result is 0.
unfoldable pub pdes_drain : (List ℕ → Bool) → Inflight → List ℕ → ℕ → M ℕ
unfolding announce_drain_end
pdes_drain opens s snapshot_name format = do
  libqflex ← get (λ n. is_libqflex n.flexus)
  base ← get (λ n. n.base_format)
  when libqflex (assert (format == base))
  master ← engine (λ e. e.master)
  when master announce_drain_end
  perform (pdes_inflight_save_json opens snapshot_name s)
  pure 0
