-- ===== src/Checkpoint/Protocol/Tell.antt =====
-- The announcement as a move.
use qemu_pdes.Base.{◌+◌, ◌^◌, ◌<◌, ◌≤◌, ◌≡◌, refl, true, [], ◌∷◌, ◌++◌, leb, length, arith}
use qemu_pdes.Base.Word.{sub64}
use qemu_pdes.Base.Bytes.{c_str, of_le_bytes-le_bytes}
use qemu_pdes.Comm.Message.{Message, create_message}
use qemu_pdes.Node.{Node}
use qemu_pdes.Node.Always.{Always, Keeps, Always-map}
use qemu_pdes.Node.Channel.{pdes_comm_send}
use qemu_pdes.Utility.{get_universal_virtual_time}
use qemu_pdes.Utility.Time.{universal}
use qemu_pdes.Wwt.Drain.{drain_prefix, notify_of_checkpoint}
use qemu_pdes.Wwt.Drain.Notify.{notified, drain_message, length-drain_payload}
use qemu_pdes.Checkpoint.Boundary.Announce.{read_name, read_round}
use qemu_pdes.Checkpoint.Protocol.{
  View, view, Exchange, Star, announce, stay_silent, announced_round, announced_name, more, From,
}
use qemu_pdes.Checkpoint.Protocol.Frame.{drains-snoc}

abbrev message_of : Node → Message
message_of n =
    drain_message (notified n) (c_str n.engine.checkpoint_name) n.engine.checkpoint_format

-- The three ends of a call.
data Told (n k : Node) : Type 0 where
  unchanged : k ≡ n → Told n k
  counted :
      n.engine.needs_to_checkpoint ≡ true
      → (n.engine.connected ≡ true → 1000 < length (c_str n.engine.checkpoint_name))
      → k ≡ notified n
      → Told n k
  went_out :
      n.engine.needs_to_checkpoint ≡ true
      → length (c_str n.engine.checkpoint_name) ≤ 989
      → k ≡ record (notified n) { outbox = n.outbox ++ (message_of n ∷ []) }
      → Told n k

notify-Told : (n : Node) → Always (Told n) (notify_of_checkpoint n)
unfolding notify_of_checkpoint get_universal_virtual_time create_message pdes_comm_send
notify-Told n = ground (
  arith,
  length-drain_payload (c_str n.engine.checkpoint_name) n.engine.checkpoint_format
      n.wwt.current_quantum_round,
)

announced_round-message_of :
    (n : Node)
    → length (c_str n.engine.checkpoint_name) ≤ 989
    → n.wwt.current_quantum_round < 2 ^ 64
    → announced_round (message_of n) ≡ n.wwt.current_quantum_round
announced_round-message_of n h small =
    let name = c_str n.engine.checkpoint_name in
    let round = n.wwt.current_quantum_round in
    let at = read_round name n.engine.checkpoint_format round (universal n) h in
    let back = of_le_bytes-le_bytes 8 round small in
    let place : sub64 (sub64 (length name + 17) 4) 8 + 4 ≡ length name + 5 + 4 = omega arith in
    let long : leb 12 (length name + 17) ≡ true = ground arith in rw (long, place, at, back) refl

announced_name-message_of :
    (n : Node)
    → length (c_str n.engine.checkpoint_name) ≤ 989
    → announced_name (message_of n) ≡ drain_prefix ++ c_str n.engine.checkpoint_name
announced_name-message_of n h =
    let name = c_str n.engine.checkpoint_name in
    let at =
      read_name name n.engine.checkpoint_format n.wwt.current_quantum_round (universal n) h in
    let place : sub64 (sub64 (length name + 17) 4) 8 ≡ length name + 5 = omega arith in
    rw (place, at) refl

Told-From : (v : View) (n k : Node) → Star Exchange v (view n) → Told n k → Star Exchange v (view k)
Told-From v n k p (unchanged e) = rw e p
Told-From v n k p (counted needs long e) = more p (stay_silent needs long (rw e refl))
Told-From v n k p (went_out needs h e) = more p (
    announce (message_of n) needs (announced_round-message_of n h) (announced_name-message_of n h)
      (rw (e, drains-snoc n.outbox (message_of n)) refl))

-- The call announces the checkpoint, or does nothing to it.
pub notify-From : (v : View) → Keeps (From Exchange v) notify_of_checkpoint
notify-From v n p =
    Always-map (Told n) (From Exchange v) (notify_of_checkpoint n) (notify-Told n)
      (λ k t. Told-From v n k p t)
