-- ===== src/Checkpoint/Tests.antt =====
-- Checkpoints of concrete nodes, in round 1 of a quantum of 1000 ns.
use qemu_pdes.Sample
use qemu_pdes.Base.{ℕ, ◌≡◌, refl, Bool, true, false, some, List, [], ◌∷◌, arith, All, codes}
use qemu_pdes.Base.Bytes.{c_str}
use qemu_pdes.Checkpoint.Inflight.{Inflight}
use qemu_pdes.Checkpoint.Inflight.Laws.{IsCounted}
use qemu_pdes.Checkpoint.Boundary.{create_checkpoint_bh}
use qemu_pdes.Checkpoint.Boundary.Outcome.{bottom_half_result, create_checkpoint_bh_outcomes}
use qemu_pdes.Engine.Process.{init_warmed}
use qemu_pdes.Checkpoint.Coordinated.{coordinated, stopped_follower}
use qemu_pdes.Checkpoint.Coordinated.Follower.{Waits}
use qemu_pdes.Checkpoint.Coordinated.Master.{Announces, announced, synced}
use qemu_pdes.Node.Ends.{Holds}
use qemu_pdes.Checkpoint.Cycle.{
  AtBarrier, told, stopped_for_checkpoint, checkpointed, sync_checkpoint_check_lem,
}
use qemu_pdes.Wwt.Sync.{sync_checkpoint_check, quanta_sync, wwt_sync_check}
use qemu_pdes.Checkpoint.Drain.{pdes_drain}
use qemu_pdes.Checkpoint.Drain.Laws.{drained, drain-restore}
use qemu_pdes.Checkpoint.Json.{ok, get_json_file_name}
use qemu_pdes.Checkpoint.Json.Restore.{pdes_inflight_restore_and_schedule}
use qemu_pdes.Checkpoint.Json.RoundTrip.{Fits}
use qemu_pdes.Checkpoint.Json.RoundTrip.File.{files_after, restored}
use qemu_pdes.Node.{Node, PdesWwt, armed, save_snapshot}
use qemu_pdes.Node.Monad.{ret}
use qemu_pdes.Sample.{engine}

abbrev wwt : PdesWwt
wwt = Sample.wwt1

abbrev node : Bool → Node
node = Sample.node1

abbrev waiting : Inflight
waiting = record {
  pending =
      record {
        msg = record { ts_ns = 5; len = 0; payload = []; kind = 0 };
        scheduled_time_ns = 900;
      }
      ∷ [];
  count = 1;
}

abbrev no_messages : Inflight
no_messages = record { pending = []; count = 0 }

waiting-Fits : All Fits waiting.pending
waiting-Fits = (
  record {
    time = omega arith;
    ts = omega arith;
    kind = omega arith;
    len = omega arith;
    bytes = tt;
  },
  tt,
)

waiting-IsCounted : IsCounted waiting
waiting-IsCounted = record { counted = refl; small = omega arith }

-- The master drains with one message in flight.
drain-restore_example :
    (text : List ℕ) × (pdes_drain (λ f. true) waiting (codes "a") 2 (node true)
      ≡ ret 0 (drained (node true) (codes "a") text))
    × (pdes_inflight_restore_and_schedule
          (files_after (some (get_json_file_name (codes "a"), text)))
          (codes "a")
          true
          no_messages
        ≡ ok (1, restored true waiting no_messages))
drain-restore_example =
    drain-restore (λ f. true) waiting no_messages (codes "a") 2 true (node true)
      (record { connected = refl; first = omega arith }) waiting-IsCounted waiting-Fits refl refl
      (record { counted = refl; small = omega arith }) (omega arith)

-- A node that stops for the checkpoint of its round.
abbrev at_checkpoint : Node
at_checkpoint = record (node false) {
  engine = record (node false).engine {
    needs_to_checkpoint = true;
    checkpoint_quantum_round = 1;
    checkpoint_name = codes "snap";
    checkpoint_format = 2;
  };
  wwt = record wwt { sync_check_timer = armed 0 };
}

at_checkpoint-AtBarrier : AtBarrier at_checkpoint
unfolding c_str
at_checkpoint-AtBarrier = record {
  connected = refl;
  first = omega arith;
  timer = refl;
  name = omega arith;
}

sync_checkpoint_check_lem_example :
    sync_checkpoint_check at_checkpoint ≡ ret true (stopped_for_checkpoint (told at_checkpoint))
sync_checkpoint_check_lem_example = sync_checkpoint_check_lem at_checkpoint at_checkpoint-AtBarrier

-- The master ends round 1 with a checkpoint to announce, and the follower waits at that barrier.
abbrev announcing : Node
announcing = record (node true) {
  engine = record (node true).engine {
    needs_to_checkpoint = true;
    checkpoint_quantum_round = 1;
    checkpoint_name = codes "snap";
    checkpoint_format = 2;
  };
}

announcing-Announces : Announces announcing
unfolding c_str
announcing-Announces = record {
  connected = refl;
  first = omega arith;
  synchronises = refl;
  needs = refl;
  pending = refl;
  running = refl;
  no_check = refl;
  pauses = refl;
  nothing_arrives = refl;
  nothing_there = refl;
  short = omega arith;
}

abbrev waiting_follower : Node
waiting_follower = record (node false) {
  wwt = record wwt { sync_check_timer = armed 0; finished_quantum = true };
  inbox = announced announcing ∷ synced announcing ∷ [];
}

waiting_follower-Waits : Waits waiting_follower 1
waiting_follower-Waits = record {
  connected = refl;
  first = omega arith;
  follower = refl;
  synchronises = refl;
  at_round = refl;
  small = omega arith;
  none_yet = refl;
  timer = refl;
  nothing_more = refl;
}

coordinated_example :
    Holds (λ n. n.outbox ≡ announced announcing ∷ synced announcing ∷ []) (quanta_sync announcing)
    × (wwt_sync_check waiting_follower ≡ ret tt (stopped_follower announcing waiting_follower))
    × ((stopped_follower announcing waiting_follower).wwt.current_quantum_round ≡ 1)
    × (create_checkpoint_bh false (stopped_follower announcing waiting_follower)
        ≡ ret tt (checkpointed (stopped_follower announcing waiting_follower)))
    × ((checkpointed (stopped_follower announcing waiting_follower)).trace
        ≡ save_snapshot (codes "QPDESsnap") 2 ∷ [])
unfolding c_str
coordinated_example =
    coordinated announcing waiting_follower announcing-Announces waiting_follower-Waits
      (omega arith) (omega arith) refl

-- The master at its first checkpoint.
abbrev ending : Node
ending = record (node true) {
  engine = record (node true).engine {
    needs_to_checkpoint = true;
    checkpoint_quantum_round = 1;
    checkpoint_name = init_warmed;
    checkpoint_format = 2;
  };
}

create_checkpoint_bh_outcomes_example :
    create_checkpoint_bh false ending ≡ bottom_half_result false ending
create_checkpoint_bh_outcomes_example =
    create_checkpoint_bh_outcomes false ending refl (omega arith)
