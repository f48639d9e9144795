-- ===== src/Checkpoint/Coordinated.antt =====
-- One checkpoint at both nodes: the master announces it before its sync of the round, so that the
-- follower stops in the same round.
pub mod Follower
pub mod Master
use qemu_pdes.Base.{
  ℕ, ◌+◌, ◌^◌, ◌<◌, ◌≤◌, ◌≡◌, ◌≢◌, refl, ap, ◌∙◌, Bool, true, false, List, [], ◌∷◌, ◌++◌, arith,
  length, All, if◌then◌else◌,
}
use qemu_pdes.Base.Bytes.{c_str, c_str-eq_self}
use qemu_pdes.Node.{Node, PdesEngine, save_snapshot}
use qemu_pdes.Node.Monad.{ret}
use qemu_pdes.Node.Ends.{Holds}
use qemu_pdes.Wwt.Drain.{drain_prefix}
use qemu_pdes.Wwt.Sync.{quanta_sync, wwt_sync_check}
use qemu_pdes.Checkpoint.Boundary.{create_checkpoint_bh}
use qemu_pdes.Checkpoint.Cycle.{
  told, stopped_for_checkpoint, checkpointed, create_checkpoint_bh_lem,
}
use qemu_pdes.Checkpoint.Coordinated.Follower.{Waits, checks, check_stops, full-whole}
use qemu_pdes.Checkpoint.Coordinated.Master.{Announces, announced, synced, quanta_sync-Out}

c_str_no_zero : (bs : List ℕ) → All (λ b. b ≢ 0) (c_str bs)
unfolding c_str
c_str_no_zero [] = tt
c_str_no_zero (b ∷ bs) = grind (arith, c_str_no_zero bs)

module _ (m f : Node) where
  -- The follower at its check for a checkpoint.
  abbrev pub informed_follower : Node
  informed_follower =
      checks f (c_str m.engine.checkpoint_name) m.engine.checkpoint_format
        m.wwt.current_quantum_round (announced m).ts_ns (synced m).ts_ns

  -- The follower when it has stopped for the bottom half.
  abbrev pub stopped_follower : Node
  stopped_follower = stopped_for_checkpoint (told informed_follower)

  -- A master that ends the quantum of a round with a checkpoint to announce sends the announcement
  -- and then the sync of the round. A follower at the barrier of that round that finds the two in the
  -- ring does not pass: its check stops for the checkpoint in the same round, and its bottom half
  -- takes one snapshot, under the announced name with "QPDES" in front and in the announced
  -- format. The name has at most 984 bytes, as the follower announces it in turn, and neither node has
  -- anything else to read.
  pub coordinated :
      Announces m
      → Waits f m.wwt.current_quantum_round
      → length (c_str m.engine.checkpoint_name) ≤ 984
      → m.engine.checkpoint_format < 256 ^ 4
      → f.inbox ≡ announced m ∷ synced m ∷ []
      → Holds (λ n. n.outbox ≡ m.outbox ++ (announced m ∷ synced m ∷ [])) (quanta_sync m)
        × (wwt_sync_check f ≡ ret tt stopped_follower)
        × (stopped_follower.wwt.current_quantum_round ≡ m.wwt.current_quantum_round)
        × (create_checkpoint_bh false stopped_follower ≡ ret tt (checkpointed stopped_follower))
        × ((checkpointed stopped_follower).trace
            ≡ f.trace
              ++ (save_snapshot
                    (drain_prefix ++ c_str m.engine.checkpoint_name)
                    m.engine.checkpoint_format
                  ∷ []))
  coordinated a w short four ring =
      let name = c_str m.engine.checkpoint_name in
      let whole = c_str_no_zero m.engine.checkpoint_name in
      let format = m.engine.checkpoint_format in
      let round = m.wwt.current_quantum_round in
      let ts = (announced m).ts_ns in
      let mark = full-whole f name format round ts (synced m).ts_ns w short whole four ring in
      (
        quanta_sync-Out m a,
        check_stops f name format round ts (synced m).ts_ns w short whole four ring,
        grind (arith, w.at_round),
        create_checkpoint_bh_lem stopped_follower (grind arith) (grind (arith, w.follower)),
        grind (arith, mark),
      )
