-- ===== src/System.antt =====
-- Two nodes, the master and its follower, each running the callbacks of `Callbacks` against the
-- other's messages, in any interleaving that the host program's timers allow.
pub mod Wire
pub mod Invariant
pub mod Send
pub mod Receive
pub mod Barrier
pub mod Start
pub mod Pass
pub mod Check
pub mod Finish
pub mod Handle
pub mod Pair
pub mod Begin
pub mod Safety
pub mod Progress
mod Tests
use qemu_pdes.Base.{
  ℕ, ◌+◌, ◌*◌, ◌-◌, ◌^◌, ◌<◌, ◌≤◌, ◌≡◌, ◌≢◌, Bool, true, false, List, [], ◌∷◌, ◌++◌, Option, none,
  some, length,
}
use qemu_pdes.Comm.Message.{Message, max_msg_size}
use qemu_pdes.Node.{Node, no_bh, MessageReceiveContext}
use qemu_pdes.Node.Monad.{Outcome, ret, exited, spinning}
use qemu_pdes.Callbacks.{
  Event, advance, arrive, setup_timer_fires, quantum_timer_fires, sync_check_timer_fires,
  poll_timer_fires, message_timer_fires, pause_bh_runs, checkpoint_bh_runs, packet_sent,
  flexus_asks_to_stop, flexus_stops, checkpoint_signal, snapshot_asked, handle,
}

abbrev pub flat : List (List Message) → List Message
flat [] = []
flat (ms ∷ mss) = ms ++ flat mss

-- What a node has read, can read and is about to find.
abbrev pub stream : Node → List Message
stream n = n.received ++ (n.inbox ++ flat n.arriving)

-- When an event can happen at a node, of quantum `q`, whose neighbour has sent `wire` so far. The
-- clock does not pass the end of the quantum and stands still at the barrier; the timer of the
-- quantum goes off at its end, once the pause of the quantum before has taken effect. The timer of
-- a packet belongs to a context that this node has created; it may go off at any time, and more than
-- once. A packet that is sent has 1 to 2048 bytes. Checkpoints are left out. The run is looked at
-- for 2 ^ 32 - 2 quanta.
abbrev pub Enabled : ℕ → List Message → Event → Node → Type 0
Enabled q wire (advance v h r) n =
    (n.wwt.finished_quantum ≡ false)
    × (n.virtual_ns ≤ v)
    × (v ≤ n.engine.first_sync_virtual_time + n.wwt.current_quantum_round * q)
    × (v + q < 2 ^ 63)
Enabled q wire (arrive batches) n =
    (rest : List Message) × (stream (record n { arriving = n.arriving ++ batches }) ++ rest ≡ wire)
Enabled q wire quantum_timer_fires n =
    (n.wwt.finished_quantum ≡ false)
    × (n.engine.pause_bh ≡ no_bh)
    × (n.virtual_ns ≡ n.engine.first_sync_virtual_time + n.wwt.current_quantum_round * q)
Enabled q wire sync_check_timer_fires n =
    (n.wwt.finished_quantum ≡ true) × (n.wwt.current_quantum_round + 2 < 2 ^ 32)
Enabled q wire poll_timer_fires n = Unit
Enabled q wire (message_timer_fires ctx) n =
    (before : List MessageReceiveContext) × (behind : List MessageReceiveContext)
    × (n.waiting_messages ≡ before ++ (ctx ∷ behind))
Enabled q wire pause_bh_runs n = Unit
Enabled q wire (packet_sent bytes) n = (0 < length bytes) × (length bytes ≤ max_msg_size)
Enabled q wire flexus_asks_to_stop n = Unit
Enabled q wire flexus_stops n = Unit
Enabled q wire setup_timer_fires n = ⊥
Enabled q wire (checkpoint_bh_runs b) n = ⊥
Enabled q wire checkpoint_signal n = ⊥
Enabled q wire (snapshot_asked name) n = ⊥

-- `b` says whether the node still runs. A callback that waits for messages goes on as the next
-- `sync_check_timer_fires`: its loop begins by the same test.
pub data Next (o : Outcome (Unit {0})) (n : Node) (b : Bool) : Type 0 where
  returned : o ≡ ret tt n → b ≡ true → Next o n b
  left : o ≡ exited n → b ≡ false → Next o n b
  waits : o ≡ spinning n → b ≡ true → Next o n b

pub record System : Type 0 where
  pub master : Node
  pub follower : Node
  pub master_runs : Bool
  pub follower_runs : Bool

pub data Step (q : ℕ) (s t : System) : Type 0 where
  master_moves :
      (e : Event) (n : Node) (b : Bool)
      → s.master_runs ≡ true
      → Enabled q s.follower.outbox e s.master
      → Next (handle e s.master) n b
      → t ≡ record s { master = n; master_runs = b }
      → Step q s t
  follower_moves :
      (e : Event) (n : Node) (b : Bool)
      → s.follower_runs ≡ true
      → Enabled q s.master.outbox e s.follower
      → Next (handle e s.follower) n b
      → t ≡ record s { follower = n; follower_runs = b }
      → Step q s t

pub data Reach (q : ℕ) (z : System) : System → Type 0 where
  here : Reach q z z
  later : {s t : System} → Reach q z s → Step q s t → Reach q z t
