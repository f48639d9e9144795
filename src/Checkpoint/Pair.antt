-- ===== src/Checkpoint/Pair.antt =====
-- Two nodes, the master and its follower, with checkpoints: the callbacks of `Callbacks` in any
-- order, each node against the messages of the other.
pub mod Invariant
pub mod OneQuantum
pub mod OneRound
pub mod LastAct
pub mod New
mod Tests
mod Late
use qemu_pdes.Base.{◌≡◌, Bool, true, false, List, [], ◌++◌}
use qemu_pdes.Comm.Message.{Message}
use qemu_pdes.Node.{Node, no_bh, scheduled}
use qemu_pdes.Wwt.Sync.{is_no_timer}
use qemu_pdes.Callbacks.{Event, arrive, checkpoint_bh_runs, handle}
use qemu_pdes.System.{System, Next, stream}

-- When an event can happen at a node whose neighbour has sent `wire` so far: messages arrive in the
-- order in which they were sent, and the bottom half runs when it is scheduled, with the argument
-- that it was made with. Nothing is asked of the other events.
abbrev pub Due : List Message → Event → Node → Type 0
Due wire (arrive batches) n =
    (rest : List Message) × (stream (record n { arriving = n.arriving ++ batches }) ++ rest ≡ wire)
Due wire (checkpoint_bh_runs exit_after) n = n.engine.boundry_checkpoint_bh ≡ scheduled exit_after
Due wire _ n = Unit

pub data Step (s t : System) : Type 0 where
  master_moves :
      (e : Event) (n : Node) (b : Bool)
      → s.master_runs ≡ true
      → Due s.follower.outbox e s.master
      → Next (handle e s.master) n b
      → t ≡ record s { master = n; master_runs = b }
      → Step s t
  follower_moves :
      (e : Event) (n : Node) (b : Bool)
      → s.follower_runs ≡ true
      → Due s.master.outbox e s.follower
      → Next (handle e s.follower) n b
      → t ≡ record s { follower = n; follower_runs = b }
      → Step s t

pub data Reach (z : System) : System → Type 0 where
  here : Reach z z
  later : {s t : System} → Reach z s → Step s t → Reach z t

-- A node that was created and has run no callback.
pub record IsNew (role : Bool) (n : Node) : Type 0 where
  pub master : n.engine.master ≡ role
  pub needs : n.engine.needs_to_checkpoint ≡ false
  pub bh : n.engine.boundry_checkpoint_bh ≡ no_bh
  pub round : n.wwt.current_quantum_round ≡ 0
  pub timer : is_no_timer n.wwt.sync_check_timer ≡ true
  pub outbox : n.outbox ≡ []
  pub incoming : stream n ≡ []
  pub received : n.received ≡ []
