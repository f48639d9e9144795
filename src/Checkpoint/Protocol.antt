-- ===== src/Checkpoint/Protocol.antt =====
-- What a callback can do to a coordinated checkpoint: the flags of `PDESEngine` for it, the round
-- and the barrier of `PDESWWT`, the announcements and the snapshots, as a machine of a few moves.
pub mod Frame
pub mod Tell
pub mod Order
pub mod Turn
pub mod Stars
pub mod Stop
pub mod Barrier
pub mod Refine
pub mod Facts
pub mod Last
pub mod History
pub mod Quiet
use qemu_pdes.Base.{
  ℕ, ◌+◌, ◌<◌, ◌≤◌, ◌^◌, ◌≡◌, Bool, true, false, not, Option, none, some, List, [], ◌∷◌, ◌++◌,
  if◌then◌else◌, ◌==◌, leb, length, arith,
}
use qemu_pdes.Base.Word.{u32, u64, signed_lt32}
use qemu_pdes.Base.Bytes.{of_le_bytes, c_str}
use qemu_pdes.Comm.Message.{Message, drain_start, read_at}
use qemu_pdes.Node.{Node, Effect, save_snapshot, Bh, no_bh, scheduled}
use qemu_pdes.Engine.Exit.{scheduled_bh}
use qemu_pdes.Engine.Pause.{is_null}
use qemu_pdes.Engine.Process.{init_warmed, drain_name_len}
use qemu_pdes.Wwt.Drain.{drain_prefix}
use qemu_pdes.Wwt.Sync.{is_no_timer}
use qemu_pdes.System.{stream}

-- The announcements among messages.
unfoldable pub drains : List Message → List Message
drains [] = []
drains (m ∷ ms) = if m.kind == drain_start then m ∷ drains ms else drains ms

abbrev pub is_save : Effect → Bool
is_save (save_snapshot name format) = true
is_save _ = false

unfoldable pub saves : List Effect → List Effect
saves [] = []
saves (e ∷ es) = if is_save e then e ∷ saves es else saves es

abbrev pub number_of : Option (List ℕ) → ℕ
number_of none = 0
number_of (some bytes) = of_le_bytes bytes

-- The round in an announcement, as `parse_drain_start` reads it.
abbrev pub announced_round : Message → ℕ
announced_round m = if leb 12 m.len then number_of (read_at m (drain_name_len m + 4) 8) else 0

abbrev pub bytes_of : Option (List ℕ) → List ℕ
bytes_of none = []
bytes_of (some bytes) = bytes

-- The name in it, with the mark in front.
abbrev pub announced_name : Message → List ℕ
announced_name m = bytes_of (read_at m 0 (drain_name_len m))

-- `told` are the announcements that were sent, `heard` those that were read, and `coming` those with
-- the ones that are still to be read.
pub record View : Type 0 where
  pub master : Bool
  pub connected : Bool
  pub needs : Bool
  pub notified : Bool
  pub target : ℕ
  pub name : List ℕ
  pub bh : Bh Bool
  pub should_sync : Bool
  pub finished : Bool
  pub waiting : Bool
  pub round : ℕ
  pub told : List Message
  pub heard : List Message
  pub coming : List Message
  pub saved : List Effect

abbrev pub view : Node → View
view n = record {
  master = n.engine.master;
  connected = n.engine.connected;
  needs = n.engine.needs_to_checkpoint;
  notified = n.engine.notified_neighbors;
  target = n.engine.checkpoint_quantum_round;
  name = n.engine.checkpoint_name;
  bh = n.engine.boundry_checkpoint_bh;
  should_sync = n.wwt.should_sync;
  finished = n.wwt.finished_quantum;
  waiting = not (is_no_timer n.wwt.sync_check_timer);
  round = n.wwt.current_quantum_round;
  told = drains n.outbox;
  heard = drains n.received;
  coming = drains (stream n);
  saved = saves n.trace;
}

-- What messages and signals do.
pub data Exchange (v t : View) : Type 0 where
  -- The announcement goes out, with the round and the name of the node,
  announce :
      (m : Message)
      → v.needs ≡ true
      → (v.round < 2 ^ 64 → announced_round m ≡ v.round)
      → announced_name m ≡ drain_prefix ++ c_str v.name
      → t ≡ record v { notified = true; told = v.told ++ (m ∷ []) }
      → Exchange v t
  -- or counts as gone out.
  stay_silent :
      v.needs ≡ true
      → (v.connected ≡ true → 1000 < length (c_str v.name))
      → t ≡ record v { notified = true }
      → Exchange v t
  -- The master decides on its checkpoint,
  request :
      v.master ≡ true
      → t ≡ record v { needs = true; notified = false; target = v.round; name = init_warmed }
      → Exchange v t
  -- and the follower is told.
  order :
      (m : Message)
      → v.master ≡ false
      → t ≡ record v {
        needs = true;
        target = announced_round m;
        name = announced_name m;
        heard = v.heard ++ (m ∷ []);
      }
      → Exchange v t
  -- An announcement that is not followed.
  ignore : (m : Message) → t ≡ record v { heard = v.heard ++ (m ∷ []) } → Exchange v t

-- What the barrier adds. A snapshot is no move.
pub data Move (v t : View) : Type 0 where
  exchange : Exchange v t → Move v t
  -- The end of a quantum, and the wait at the barrier.
  finish : t ≡ record v { finished = true } → Move v t
  wait : v.finished ≡ true → t ≡ record v { waiting = true } → Move v t
  stop_waiting : t ≡ record v { waiting = false } → Move v t
  -- The barrier stops for the checkpoint,
  stop :
      v.waiting ≡ true
      → v.needs ≡ true
      → (v.should_sync ≡ true → v.round ≡ v.target)
      → t ≡ record v { bh = if is_null v.bh then scheduled false else v.bh }
      → Move v t
  -- or the node goes on to the next quantum.
  pass :
      v.waiting ≡ false
      → (v.needs ≡ true → (v.round < v.target) × (v.should_sync ≡ true))
      → t ≡ record v { finished = false; round = u64 (v.round + 1) }
      → Move v t
  -- The node is to leave, and its checkpoint comes first.
  leave : v.needs ≡ true → t ≡ record v { bh = scheduled_bh true v.bh } → Move v t

-- Any number of steps.
pub data Star (R : View → View → Type 0) (v : View) : View → Type 0 where
  none_yet : Star R v v
  more : {t u : View} → Star R v t → R t u → Star R v u

-- What a node has come to from a view.
abbrev pub From : (View → View → Type 0) → View → Node → Type 0
From R v k = Star R v (view k)
