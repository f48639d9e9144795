-- ===== src/Checkpoint/Pair/OneQuantum.antt =====
-- The two snapshots of a checkpoint are taken in one quantum.
use mathlib.Core.Path.{subst}
use qemu_pdes.Base.{
  List, ℕ, ◌≡◌, refl, ap, ◌∙◌, Bool, true, false, not, [], ◌∷◌, ◌++◌, arith, Bool-cases, inl, inr,
}
use qemu_pdes.Base.Bytes.{c_str}
use qemu_pdes.Node.{Node, Effect, save_snapshot, Bh, no_bh, idle, scheduled}
use qemu_pdes.Engine.Pause.{is_null}
use qemu_pdes.Engine.Process.{init_warmed}
use qemu_pdes.Checkpoint.Boundary.Outcome.{c_str-init_warmed}
use qemu_pdes.Callbacks.{Event, checkpoint_bh_runs, handle}
use qemu_pdes.System.{System, Next, stream, flat}
use qemu_pdes.System.Safety.{node_of, runs_of}
use qemu_pdes.Checkpoint.Protocol.{View, view, drains, saves, From, Move}
use qemu_pdes.Checkpoint.Protocol.Facts.{goes_on, follower_name, Says}
use qemu_pdes.Checkpoint.Protocol.Refine.{
  first_view, handle_refines, begins, unchanged, arrived, saves_snapshot,
}
use qemu_pdes.Checkpoint.Protocol.History.{saved-moves}
use qemu_pdes.Checkpoint.Pair.{Due, Reach, IsNew}
use qemu_pdes.Checkpoint.Pair.Invariant.{PairInv, Reach-PairInv, Next-Always, drains-prefix}

-- The names of the two snapshots. `validate_checkpoint` takes the mark off the follower's.
abbrev pub snapshot_name : Bool → List ℕ
snapshot_name true = init_warmed
snapshot_name false = follower_name

abbrev pub snapshot_of : Bool → Node → Effect
snapshot_of role n = save_snapshot (snapshot_name role) n.engine.checkpoint_format

-- The snapshots that one event at a node brings: none; or one, by the bottom half, at the end of a
-- quantum, of the round in which the master is; or one by a node that then leaves.
pub data Brings (role : Bool) (master : Node) (e : Event) (n k : Node) : Type 0 where
  not_taken : saves k.trace ≡ saves n.trace → Brings role master e n k
  at_the_end :
      e ≡ checkpoint_bh_runs false
      → saves k.trace ≡ saves n.trace ++ (snapshot_of role n ∷ [])
      → n.wwt.finished_quantum ≡ true
      → n.wwt.current_quantum_round ≡ master.wwt.current_quantum_round
      → Brings role master e n k
  before_exit :
      e ≡ checkpoint_bh_runs true
      → saves k.trace ≡ saves n.trace ++ (snapshot_of role n ∷ [])
      → Brings role master e n k

c_str-follower_name : c_str follower_name ≡ follower_name
unfolding c_str
c_str-follower_name = refl

pub goes_on-is_null : (bh : Bh Bool) → goes_on bh ≡ true → is_null bh ≡ false
goes_on-is_null no_bh h = cc
goes_on-is_null (idle b) h = refl
goes_on-is_null (scheduled b) h = refl

-- What the follower has heard carries every round that all announcements of the master carry.
pub heard-Says :
    (s : System)
    → PairInv s
    → (r : ℕ) → Says r (drains s.master.outbox)
    → Says r (drains s.follower.received)
heard-Says s i r h =
    let n = s.follower in
    drains-prefix r n.received (n.inbox ++ flat n.arriving) (stream n) refl
      (i.of_follower.hears r h)

module _ {z s : System} (new_master : IsNew true z.master) (new_follower : IsNew false z.follower)
    (r : Reach z s) where
  invariant : PairInv s
  invariant = Reach-PairInv new_master new_follower r

  -- In every state that a pair of new nodes comes to, checkpoints included: a synchronising node
  -- that runs and has a bottom half for a checkpoint after which it goes on stands at the end of a
  -- quantum, the master is in the same round, and that is the round of the node's checkpoint.
  pub one_quantum :
      (role : Bool)
      → runs_of role s ≡ true
      → (node_of role s).wwt.should_sync ≡ true
      → goes_on (node_of role s).engine.boundry_checkpoint_bh ≡ true
      → ((node_of role s).wwt.finished_quantum ≡ true)
        × ((node_of role s).wwt.current_quantum_round ≡ s.master.wwt.current_quantum_round)
        × ((node_of role s).engine.checkpoint_quantum_round ≡ s.master.wwt.current_quantum_round)
  one_quantum true running sync h =
      let i = invariant.of_master.facts running in
      (
        i.stopped h,
        refl,
        i.at (i.common.pending (goes_on-is_null s.master.engine.boundry_checkpoint_bh h)),
      )
  one_quantum false running sync h =
      let n = s.follower in
      let round = s.master.wwt.current_quantum_round in
      let i = invariant.of_follower.facts running round in
      let says = heard-Says s invariant round invariant.of_master.says in
      let stop = i.stopped says h in
      let needs = i.common.pending (goes_on-is_null n.engine.boundry_checkpoint_bh h) in
      (stop.0, stop.1 sync, (i.at says needs).0)

  name_of :
      (role : Bool)
      → runs_of role s ≡ true
      → (node_of role s).engine.needs_to_checkpoint ≡ true
      → c_str (node_of role s).engine.checkpoint_name ≡ snapshot_name role
  name_of true running needs =
      ap c_str ((invariant.of_master.facts running).name needs) ∙ c_str-init_warmed
  name_of false running needs =
      let round = s.master.wwt.current_quantum_round in
      let says = heard-Says s invariant round invariant.of_master.says in
      ap c_str (((invariant.of_follower.facts running round).at says needs).1) ∙ c_str-follower_name

  -- In every state that a pair of new nodes comes to, what one more event does to the snapshots of a
  -- synchronising node: nothing; or the bottom half of a checkpoint takes one, in the format of the
  -- checkpoint, at the end of a quantum and in the round in which the master is; or the bottom half of
  -- a node that leaves takes one. The name is init_warmed, at the follower with "QPDES" in front.
  pub one_snapshot :
      (role : Bool) (e : Event) (k : Node) (b : Bool)
      → runs_of role s ≡ true
      → (node_of role s).wwt.should_sync ≡ true
      → Due (node_of (not role) s).outbox e (node_of role s)
      → Next (handle e (node_of role s)) k b
      → Brings role s.master e (node_of role s) k
  one_snapshot role e k b running sync due next =
      let n = node_of role s in
      let moves =
        Next-Always (From Move (first_view e n)) (handle e n) k b next (handle_refines e n) in
      let kept = saved-moves (first_view e n) (view k) moves in
      elim (begins e n) [
        | unchanged f ↦ not_taken (kept ∙ ap (λ (v : View). v.saved) f)
        | arrived batches f ↦ not_taken (kept ∙ rw f refl)
        | saves_snapshot exit_after f h ↦
            let saved : saves k.trace ≡ saves n.trace ++ (snapshot_of role n ∷ []) =
              kept
              ∙ (rw f (ground (arith, h))
                  ∙ ap
                      (λ (name : List ℕ).
                        saves n.trace ++ (save_snapshot name n.engine.checkpoint_format ∷ []))
                      (name_of role running h)) in
            let is_due = subst (λ e'. Due (node_of (not role) s).outbox e' n) f due in
            elim (Bool-cases exit_after) [
              | inl x ↦ before_exit (f ∙ ap checkpoint_bh_runs x) saved
              | inr x ↦
                  let stop = one_quantum role running sync (ap goes_on is_due ∙ ap not x) in
                  at_the_end (f ∙ ap checkpoint_bh_runs x) saved stop.0 stop.1
            ]
      ]
