-- ===== src/System/Invariant.antt =====
-- What holds of one node of the pair between two callbacks, given what its neighbour has sent.
use qemu_pdes.Base.{
  ℕ, ◌+◌, ◌*◌, ◌^◌, ◌<◌, ◌≤◌, ◌≡◌, ◌≢◌, Bool, true, false, not, List, ◌++◌, Option, none, some, ltb,
  All,
}
use qemu_pdes.Base.Word.{minus_one64}
use qemu_pdes.Comm.Message.{Message, max_msg_size, msg_type_normal, end_of_emulation}
use qemu_pdes.Node.{Node, PdesWwt, Flexus, MessageReceiveContext}
use qemu_pdes.Node.Always.{count_kind}
use qemu_pdes.Utility.{sync_count_get}
use qemu_pdes.Engine.Exit.Invariant.{bit}
use qemu_pdes.Wwt.Sync.{is_no_timer}
use qemu_pdes.System.{stream}
use qemu_pdes.System.Wire.{Wire, syncs, permissions}

-- Pause and resume come together in `flexus_api`.
abbrev pub FlexusOk : Option Flexus → Type 0
FlexusOk none = Unit
FlexusOk (some f) = (f.has_pause ≡ true) × (f.has_resume ≡ true)

-- A packet that waits for its timer can be handed to the network client.
pub record Deliverable (ctx : MessageReceiveContext) : Type 0 where
  pub filled : 0 < ctx.msg.len
  pub fits : ctx.msg.len ≤ max_msg_size
  pub kind : ctx.msg.kind ≡ msg_type_normal
  pub has_cb : ctx.has_recv_cb ≡ true

-- What no callback changes, with the clock.
pub record Fixed (q : ℕ) (n : Node) : Type 0 where
  pub connected : n.engine.connected ≡ true
  pub should_sync : n.wwt.should_sync ≡ true
  pub quantum : n.wwt.quantum_ns ≡ q
  pub latency : n.wwt.latencyns ≡ q
  pub first_sync : n.engine.first_sync_time ≢ minus_one64
  pub first : n.engine.first_sync_virtual_time ≤ n.virtual_ns
  pub room : n.virtual_ns + q < 2 ^ 63
  pub flexus_ok : FlexusOk n.flexus
  pub no_checkpoint : n.engine.needs_to_checkpoint ≡ false
  pub has_recv_cb : n.wwt.has_recv_cb ≡ true
  pub has_quantum_timer : is_no_timer n.wwt.quantum_timer ≡ false

-- The clock stays in the quantum, and at its end while the node waits at the barrier.
pub record Clock (q : ℕ) (n : Node) : Type 0 where
  pub late : n.virtual_ns ≤ n.engine.first_sync_virtual_time + n.wwt.current_quantum_round * q
  pub early : n.engine.first_sync_virtual_time + n.wwt.current_quantum_round * q ≤ n.virtual_ns + q
  pub at_end :
      n.wwt.finished_quantum ≡ true
      → n.virtual_ns ≡ n.engine.first_sync_virtual_time + n.wwt.current_quantum_round * q

-- Where a node is in its quantum; `owed` counts a sync of the round that is still to be sent,
-- and `idle` says that no check of the barrier is set.
pub record Phase : Type 0 where
  pub round : ℕ
  pub finished : Bool
  pub owed : ℕ
  pub idle : Bool

-- Rounds against syncs.
pub record Barrier (phase : Phase) (wire outbox received : List Message) (w : PdesWwt)
    : Type 0 where
  pub at_round : w.current_quantum_round ≡ phase.round
  pub at_finished : w.finished_quantum ≡ phase.finished
  pub at_timer : is_no_timer w.sync_check_timer ≡ phase.idle
  pub sent : syncs outbox + phase.owed ≡ w.current_quantum_round + bit w.finished_quantum
  pub heard : w.current_quantum_round ≤ syncs received
  pub lead : syncs wire ≤ w.current_quantum_round + bit w.finished_quantum + 1
  pub small : w.current_quantum_round + 1 < 2 ^ 32
  pub counts : (r : ℕ) → r < 2 ^ 32 → sync_count_get w.sync_counts r ≡ bit (ltb r (syncs received))

-- The exit flags against the messages of both sides.
pub record Grant (wire : List Message) (n : Node) : Type 0 where
  pub granted : bit n.engine.permitted_to_exit ≤ permissions n.outbox + permissions n.received
  pub told : bit n.engine.permitted_to_exit ≡ 0 → permissions n.received ≡ 0
  pub partner : bit n.engine.pair_has_finished ≤ bit n.engine.permitted_to_exit
  pub end_ok :
      n.engine.master ≡ true
      → 1 ≤ count_kind end_of_emulation wire
      → n.engine.permitted_to_exit ≡ true

-- The two wires.
pub record Stream (q : ℕ) (role : Bool) (wire base : List Message) (n : Node) : Type 0 where
  pub master : n.engine.master ≡ role
  pub own : Wire role q 0 0 n.outbox
  pub other : Wire (not role) q 0 0 wire
  pub rest : List Message
  pub split : stream n ++ rest ≡ wire
  pub more : List Message
  pub grown : n.outbox ≡ base ++ more

pub record Inv (q : ℕ) (phase : Phase) (role : Bool) (wire base : List Message) (n : Node)
    : Type 0 where
  pub fixed : Fixed q n
  pub pending : All Deliverable n.waiting_messages
  pub clock : Clock q n
  pub barrier : Barrier phase wire n.outbox n.received n.wwt
  pub grant : Grant wire n
  pub streams : Stream q role wire base n
