-- ===== src/System/Progress.antt =====
-- A node at the barrier goes on as soon as its neighbour's sync is there.
use qemu_pdes.Base.{ℕ, ◌+◌, ◌^◌, ◌<◌, ◌≡◌, ap, Bool, true, false, not, List, [], ◌++◌, arith}
use qemu_pdes.Comm.Message.{Message}
use qemu_pdes.Node.{Node}
use qemu_pdes.Node.Ends.{Ends, Holds, after-Ends, Ends-map}
use qemu_pdes.Engine.Process.{pdes_engine_poll}
use qemu_pdes.Engine.Process.Reads.{HasRead, poll-HasRead}
use qemu_pdes.Wwt.Sync.{is_waiting, is_waiting_for_quanta, wait_loop, wwt_sync_check}
use qemu_pdes.Callbacks.{sync_check_timer_fires, handle}
use qemu_pdes.System.{System, Reach}
use qemu_pdes.System.Wire.{syncs}
use qemu_pdes.System.Invariant.{Inv}
use qemu_pdes.System.Receive.{receive-Inv, len_small}
use qemu_pdes.System.Start.{Began}
use qemu_pdes.System.Pass.{pass-Inv}
use qemu_pdes.System.Check.{Resting}
use qemu_pdes.System.Safety.{IsStart, node_of, runs_of, Reach-SysInv}

module _ (q r : ℕ) (role : Bool) (wire base : List Message) where
  abbrev P : Node → Type 0
  P = Inv q (record { round = r; finished = true; owed = 0; idle = false }) role wire base

  heard-is_waiting : (k : Node) → P k → r < syncs k.received → is_waiting k.wwt ≡ false
  heard-is_waiting k i h =
      ground
        (arith, i.barrier.counts k.wwt.current_quantum_round, i.barrier.small, i.barrier.at_round)

  abbrev D : Node → Type 0
  D n = ⊥

  no_wait :
      (n : Node)
      → P n
      → n.arriving ≡ []
      → r < syncs (n.received ++ n.inbox)
      → Ends (λ w k. (w ≡ false) × P k × (is_waiting k.wwt ≡ false)) D D (is_waiting_for_quanta n)
  unfolding is_waiting_for_quanta
  no_wait n i e h =
      let all = n.received ++ n.inbox in
      let R =
        HasRead P (λ m rest k f j. receive-Inv j m rest f)
          (λ m rest k f j. omega (arith, len_small j m rest f)) (λ k j. j.fixed.connected) all in
      after-Ends (λ _. R) (λ w k. (w ≡ false) × P k × (is_waiting k.wwt ≡ false)) D D
        (pdes_engine_poll n) _
        (poll-HasRead P (λ m rest k f j. receive-Inv j m rest f)
          (λ m rest k f j. omega (arith, len_small j m rest f)) (λ k j. j.fixed.connected) n e i)
        (λ _ k x. let w = heard-is_waiting k (x.0) (rw (x.2) h) in (w, x.0, w))

  check-Began :
      (n : Node)
      → P n
      → n.arriving ≡ []
      → r < syncs (n.received ++ n.inbox)
      → r + 2 < 2 ^ 32
      → Holds (Began q r role wire base) (wwt_sync_check n)
  unfolding wwt_sync_check wait_loop
  check-Began n i e h small =
      after-Ends (λ w k. (w ≡ false) × P k × (is_waiting k.wwt ≡ false))
        (λ _. Began q r role wire base) D D (is_waiting_for_quanta n) _ (no_wait n i e h)
        (λ w k x. rw (x.0) (pass-Inv q r false role wire base k (x.1) (x.2) small))

next_round :
    (q : ℕ) (role : Bool) (wire base : List Message) (n : Node)
    → Resting q role wire base n
    → n.wwt.finished_quantum ≡ true
    → n.arriving ≡ []
    → n.received ++ n.inbox ≡ wire
    → n.wwt.current_quantum_round < syncs wire
    → n.wwt.current_quantum_round + 2 < 2 ^ 32
    → Holds (λ k. k.wwt.current_quantum_round ≡ n.wwt.current_quantum_round + 1) (wwt_sync_check n)
next_round q role wire base n (r, false, i) f e all h small =
    absurd (ground (arith, i.barrier.at_finished, f))
next_round q role wire base n (r, true, i) f e all h small =
    let S : Node → Type 0 = λ k. k.wwt.current_quantum_round ≡ n.wwt.current_quantum_round + 1 in
    Ends-map (λ _. Began q r role wire base) (λ _. S) (λ _. ⊥) (λ _. ⊥) (λ _. ⊥) (λ _. ⊥)
      (wwt_sync_check n) (λ _ k j. omega (arith, j.barrier.at_round, i.barrier.at_round)) (λ _ x. x)
      (λ _ x. x)
      (check-Began q r role wire base n i e (omega (arith, ap syncs all, h, i.barrier.at_round))
        (omega (arith, small, i.barrier.at_round)))

-- In every reachable state, the check of the barrier at a node that runs and waits returns with the
-- node in the next round, if all that its neighbour has sent lies in the ring or was read before, and
-- the neighbour's sync of the round is in it. The round is below 2 ^ 32 - 2.
pub barrier_passes :
    {q : ℕ} {z s : System}
    → IsStart q z
    → Reach q z s
    → (role : Bool)
    → let n = node_of role s in
      let sent = (node_of (not role) s).outbox in
      runs_of role s ≡ true
      → n.wwt.finished_quantum ≡ true
      → n.arriving ≡ []
      → n.received ++ n.inbox ≡ sent
      → n.wwt.current_quantum_round < syncs sent
      → n.wwt.current_quantum_round + 2 < 2 ^ 32
      → Holds
          (λ k. k.wwt.current_quantum_round ≡ n.wwt.current_quantum_round + 1)
          (handle sync_check_timer_fires n)
unfolding handle
barrier_passes {q} {z} {s} start r true b f e all h small =
    next_round q true s.follower.outbox s.master.outbox s.master
      ((Reach-SysInv start r).of_master.resting b) f e all h small
barrier_passes {q} {z} {s} start r false b f e all h small =
    next_round q false s.master.outbox s.follower.outbox s.follower
      ((Reach-SysInv start r).of_follower.resting b) f e all h small
