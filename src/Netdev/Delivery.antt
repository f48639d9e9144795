-- ===== src/Netdev/Delivery.antt =====
-- A packet from `pdes_net_receive` of one node to the network client of the other.
use qemu_pdes.Base.{
  ℕ, ◌<◌, ◌≤◌, true, false, List, [], ◌∷◌, ◌++◌, ◌≡◌, ◌≢◌, arith, if◌then◌else◌, length,
  take-append, ltb, replicate,
}
use qemu_pdes.Base.Word.{add64, sub64, signed_lt64, minus_one64}
use qemu_pdes.Comm.Message.{
  Message, create_message, zero_padded, read_at, max_msg_size, msg_type_normal,
}
use qemu_pdes.Node.{Node, MessageReceiveContext, armed, deliver}
use qemu_pdes.Node.Monad.{ret, fault, overrun, assertion}
use qemu_pdes.Node.Channel.{pdes_comm_send}
use qemu_pdes.Utility.{get_universal_virtual_time, process_message_at_virtual_time}
use qemu_pdes.Utility.Time.{universal}
use qemu_pdes.Engine.Exit.{pdes_engine_send}
use qemu_pdes.Engine.Process.{process_message}
use qemu_pdes.Wwt.Receive.{wwt_recivied_callback, receive_normal}
use qemu_pdes.Wwt.Setup.{wwt_send}

pub zero_padded_self : (bytes : List ℕ) → zero_padded (length bytes) bytes ≡ bytes
unfolding zero_padded
zero_padded_self bytes = take-append bytes (replicate (length bytes) 0)

-- A node that can send: it is connected and set up.
pub record IsSetUp (n : Node) : Type 0 where
  pub connected : n.engine.connected ≡ true
  pub first_virtual : n.engine.first_sync_virtual_time ≢ minus_one64
  pub first_sync : n.engine.first_sync_time ≢ minus_one64

abbrev pub packet_message : List ℕ → Node → Message
packet_message bytes n = record {
  ts_ns = add64 (universal n) n.wwt.latencyns;
  len = length bytes;
  payload = bytes;
  kind = msg_type_normal;
}

-- At a connected node that is set up, a packet that fits goes out whole, stamped with the
-- universal time one latency from now, and nothing else changes; a longer one is copied over the
-- end of the message.
pub wwt_send_lem :
    {n : Node} (bytes : List ℕ)
    → IsSetUp n
    → wwt_send bytes n ≡ (
        if ltb max_msg_size (length bytes)
        then fault overrun
        else ret 0 (record n { outbox = n.outbox ++ (packet_message bytes n ∷ []) }))
unfolding wwt_send get_universal_virtual_time create_message pdes_engine_send pdes_comm_send
wwt_send_lem bytes s = ground (arith, s)

-- The local time at which a synchronising node processes a message.
abbrev pub local_time : Node → Message → ℕ
local_time k m = add64 m.ts_ns k.engine.first_sync_virtual_time

abbrev pub context : Node → Message → MessageReceiveContext
context k m = record {
  has_recv_cb = k.wwt.has_recv_cb;
  msg = m;
  one_time_poll_timer = armed (local_time k m);
  timestamp_ns = local_time k m;
}

-- At a synchronising node that is set up, a normal message that is not in the past waits for its
-- own time, in a context of its own; one in the past stops the node at an assertion.
pub process_normal :
    (k : Node) (m : Message)
    → k.engine.first_sync_virtual_time ≢ minus_one64
    → k.wwt.should_sync ≡ true
    → m.kind ≡ msg_type_normal
    → process_message m k ≡ (
        if signed_lt64 m.ts_ns (universal k)
        then fault assertion
        else ret tt (record k { waiting_messages = k.waiting_messages ++ (context k m ∷ []) }))
unfolding process_message wwt_recivied_callback receive_normal get_universal_virtual_time
process_normal k m f s e = ground (arith, e)

-- The timer of a packet hands it to the network client, byte for byte.
pub deliver_packet :
    (bytes : List ℕ) (n k l : Node)
    → 0 < length bytes
    → length bytes ≤ max_msg_size
    → k.wwt.has_recv_cb ≡ true
    → process_message_at_virtual_time (context k (packet_message bytes n)) l
      ≡ ret tt (record l { trace = l.trace ++ (deliver bytes ∷ []) })
unfolding process_message_at_virtual_time read_at
deliver_packet bytes n k l lo hi c = ground (arith, zero_padded_self bytes)

-- A packet of 1 to 2048 bytes that a connected node that is set up sends reaches the other's network
-- client unchanged, at the same universal time on both clocks: one latency after it was sent. The
-- receiver must be set up, synchronise, have its callback, and not be past that time when it reads
-- the message.
pub packet_end_to_end :
    (bytes : List ℕ) (n k : Node)
    → IsSetUp n
    → 0 < length bytes
    → length bytes ≤ max_msg_size
    → k.engine.first_sync_virtual_time < minus_one64
    → k.wwt.should_sync ≡ true
    → k.wwt.has_recv_cb ≡ true
    → signed_lt64 (add64 (universal n) n.wwt.latencyns) (universal k) ≡ false
    → let m = packet_message bytes n in
      let ctx = context k m in
      (wwt_send bytes n ≡ ret 0 (record n { outbox = n.outbox ++ (m ∷ []) }))
      × (process_message m k
          ≡ ret tt (record k { waiting_messages = k.waiting_messages ++ (ctx ∷ []) }))
      × (sub64 ctx.timestamp_ns k.engine.first_sync_virtual_time
          ≡ add64 (universal n) n.wwt.latencyns)
      × ((l : Node)
          → process_message_at_virtual_time ctx l
            ≡ ret tt (record l { trace = l.trace ++ (deliver bytes ∷ []) }))
packet_end_to_end bytes n k s lo hi f y c p = (
  ground (arith, wwt_send_lem bytes s),
  ground (arith, process_normal k (packet_message bytes n), p),
  omega arith,
  λ l. deliver_packet bytes n k l lo hi c,
)
