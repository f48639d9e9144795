-- ===== src/Wwt/Drain/Notify.antt =====
-- What `notify_neighbors_for_drain` does, by the length of the snapshot's name.
use qemu_pdes.Base.{
  ℕ, ◌+◌, ◌<◌, ◌≤◌, true, false, List, [], ◌∷◌, ◌++◌, ◌≡◌, ◌≢◌, arith, if◌then◌else◌, length,
  length-append, leb,
}
use qemu_pdes.Base.Word.{minus_one64}
use qemu_pdes.Base.Bytes.{le_bytes, length-le_bytes, c_str}
use qemu_pdes.Comm.Message.{Message, create_message, drain_start}
use qemu_pdes.Node.{Node}
use qemu_pdes.Node.Monad.{Outcome, ret, fault, overrun}
use qemu_pdes.Node.Channel.{pdes_comm_send}
use qemu_pdes.Utility.{get_universal_virtual_time}
use qemu_pdes.Utility.Time.{universal}
use qemu_pdes.Wwt.Drain.{drain_payload, notify_neighbors_for_drain, send_drain_start}

pub length-drain_payload :
    (name : List ℕ) (format round : ℕ) → length (drain_payload name format round) ≡ length name + 17
unfolding drain_payload
length-drain_payload name format round = omega (
  arith,
  length-append name (le_bytes 4 format ++ le_bytes 8 round),
  length-append (le_bytes 4 format) (le_bytes 8 round),
  length-le_bytes 4 format,
  length-le_bytes 8 round,
)

-- A node whose next drain message has not gone out.
pub record CanNotify (n : Node) : Type 0 where
  pub connected : n.engine.connected ≡ true
  pub first : n.engine.first_sync_virtual_time ≢ minus_one64
  pub needs : n.engine.needs_to_checkpoint ≡ true
  pub pending : n.engine.notified_neighbors ≡ false

abbrev pub notified : Node → Node
notified n = record n { engine = record n.engine { notified_neighbors = true } }

abbrev pub drain_message : Node → List ℕ → ℕ → Message
drain_message n name format = record {
  ts_ns = universal n;
  len = length name + 17;
  payload = drain_payload name format n.wwt.current_quantum_round;
  kind = drain_start;
}

pub send_drain_start_lem :
    (n : Node) (name : List ℕ) (format : ℕ)
    → n.engine.connected ≡ true
    → n.engine.first_sync_virtual_time ≢ minus_one64
    → length name + 17 ≤ 1006
    → send_drain_start name format n
      ≡ ret tt (record n { outbox = n.outbox ++ (drain_message n name format ∷ []) })
unfolding send_drain_start get_universal_virtual_time create_message pdes_comm_send
send_drain_start_lem n name format c f h =
    ground (arith, length-drain_payload name format n.wwt.current_quantum_round)

pub send_drain_start_overrun :
    (n : Node) (name : List ℕ) (format : ℕ)
    → 1006 < length name + 17
    → send_drain_start name format n ≡ fault overrun
unfolding send_drain_start
send_drain_start_overrun n name format h =
    ground (arith, length-drain_payload name format n.wwt.current_quantum_round)

-- What a call does: the message, a copy over the end of the 1006 byte buffer, or nothing.
abbrev pub notify_result : Node → List ℕ → ℕ → Outcome (Unit {0})
notify_result n name format =
    if leb (length name) 989
    then ret tt
        (record (notified n) { outbox = n.outbox ++ (drain_message (notified n) name format ∷ []) })
    else if leb (length name) 1000
    then fault overrun
    else ret tt (notified n)

-- At a connected node that is set up, needs a checkpoint and has not announced it: a name of at
-- most 989 bytes is announced. One of 990 to 1000 bytes passes the test on the text, and then the
-- format or the round is copied over the end of the buffer. A longer one is not announced at all,
-- and still counts as announced.
pub notify_by_length :
    {n : Node} (snapshot_name : List ℕ) (format : ℕ)
    → CanNotify n
    → notify_neighbors_for_drain snapshot_name format n
      ≡ notify_result n (c_str snapshot_name) format
unfolding notify_neighbors_for_drain
notify_by_length {n} snapshot_name format can = ground (
  arith,
  can,
  send_drain_start_lem (notified n) (c_str snapshot_name) format,
  send_drain_start_overrun (notified n) (c_str snapshot_name) format,
)
