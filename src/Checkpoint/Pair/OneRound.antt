-- ===== src/Checkpoint/Pair/OneRound.antt =====
-- A run of the pair has one round in which its nodes stop for a checkpoint.
use mathlib.Core.Path.{subst}
use qemu_pdes.Base.{ℕ, ◌≡◌, refl, sym, ◌∙◌, Bool, true, false, arith, Bool-cases, inl, inr}
use qemu_pdes.Node.{Node}
use qemu_pdes.Callbacks.{Event, handle}
use qemu_pdes.System.{System, Next}
use qemu_pdes.System.Safety.{node_of, runs_of}
use qemu_pdes.Checkpoint.Protocol.{view, From, Move}
use qemu_pdes.Checkpoint.Protocol.Facts.{goes_on, Settled, Settled-moves}
use qemu_pdes.Checkpoint.Protocol.Frame.{Shows}
use qemu_pdes.Checkpoint.Protocol.Refine.{
  first_view, handle_refines, begins, unchanged, arrived, saves_snapshot,
}
use qemu_pdes.Checkpoint.Protocol.Last.{gone_view, last_snapshot}
use qemu_pdes.Checkpoint.Pair.{Step, master_moves, follower_moves, Reach, here, later, IsNew}
use qemu_pdes.Checkpoint.Pair.Invariant.{
  PairInv, MasterSide, Reach-PairInv, Next-Always, Next-Leaves, Step-PairInv,
}
use qemu_pdes.Checkpoint.Pair.OneQuantum.{one_quantum, goes_on-is_null, heard-Says}

pub Reach-append : {z s t : System} → Reach z s → Reach s t → Reach z t
Reach-append r here = r
Reach-append r (later q x) = later (Reach-append r q) x

-- The master has its round for good.
record Stays (r : ℕ) (runs : Bool) (n : Node) : Type 0 where
  needs : runs ≡ true → n.engine.needs_to_checkpoint ≡ true
  round : n.wwt.current_quantum_round ≡ r

module _ (r : ℕ) where
  Settled-step :
      (e : Event) (n k : Node) (b : Bool)
      → Next (handle e n) k b
      → Settled r (view n)
      → Settled r (first_view e n)
      → Stays r b k
  Settled-step e n k b x i j =
      let s =
        Settled-moves r (first_view e n) (view k)
          (Next-Always (From Move (first_view e n)) (handle e n) k b x (handle_refines e n)) j in
      record { needs = λ _. s.needs; round = s.round }

  Stays-event :
      (e : Event) (n k : Node) (runs b : Bool)
      → runs ≡ true
      → Next (handle e n) k b
      → MasterSide runs n
      → Stays r runs n
      → Stays r b k
  unfolding handle
  Stays-event e n k runs b t x m i =
      let j : Settled r (view n) = record {
        master = m.facts t;
        needs = i.needs t;
        round = i.round;
      } in
      elim (begins e n) [
        | unchanged f ↦ Settled-step e n k b x j (subst (Settled r) (sym f) j)
        | arrived batches f ↦ Settled-step e n k b x j (rw f (ground (arith, j)))
        | saves_snapshot a f h ↦
            let (s, gone) =
              Next-Leaves (Shows (gone_view n)) (handle e n) k b x
                (rw f (last_snapshot a n j.master.role h (j.master.name h))) in
            record { needs = λ c. absurd (ground (arith, c, gone)); round = s.round ∙ i.round }
      ]

  Stays-Step :
      {s t : System}
      → PairInv s
      → Stays r s.master_runs s.master
      → Step s t
      → Stays r t.master_runs t.master
  Stays-Step {s} p i (master_moves e n b t d x f) =
      subst (λ (u : System). Stays r u.master_runs u.master) (sym f)
        (Stays-event e s.master n s.master_runs b t x p.of_master i)
  Stays-Step {s} p i (follower_moves e n b t d x f) =
      subst (λ (u : System). Stays r u.master_runs u.master) (sym f) i

  Stays-Reach :
      {s t : System}
      → PairInv s
      → Stays r s.master_runs s.master
      → Reach s t
      → PairInv t × Stays r t.master_runs t.master
  Stays-Reach p i here = (p, i)
  Stays-Reach p i (later q x) =
      let (p', i') = Stays-Reach p i q in (Step-PairInv p' x, Stays-Step p' i' x)

-- A follower that needs a checkpoint has been told, so that the master needs one too.
told-needs :
    (s : System)
    → PairInv s
    → s.master_runs ≡ true
    → s.follower_runs ≡ true
    → s.follower.engine.needs_to_checkpoint ≡ true
    → s.master.engine.needs_to_checkpoint ≡ true
told-needs s i m f h = elim (Bool-cases s.master.engine.needs_to_checkpoint) [
  | inl e ↦ e
  | inr e ↦
      let silent = (i.of_master.facts m).unsaid e in
      let target : (r : ℕ) → s.follower.engine.checkpoint_quantum_round ≡ r =
        λ r. ((i.of_follower.facts f r).at (heard-Says s i r (rw silent tt)) h).0 in
      absurd (ground (arith, target 0, target 1))
]

module _ {z s t : System} (new_master : IsNew true z.master) (new_follower : IsNew false z.follower)
    (r : Reach z s) (r' : Reach s t) where
  invariant : PairInv s
  invariant = Reach-PairInv new_master new_follower r

  stays :
      (role : Bool)
      → runs_of role s ≡ true
      → goes_on (node_of role s).engine.boundry_checkpoint_bh ≡ true
      → Stays s.master.wwt.current_quantum_round s.master_runs s.master
  stays true running h = record {
    needs = λ m.
        (invariant.of_master.facts m).common.pending
          (goes_on-is_null s.master.engine.boundry_checkpoint_bh h);
    round = refl;
  }
  stays false running h = record {
    needs = λ m. told-needs s invariant m running (
        (invariant.of_follower.facts running 0).common.pending
          (goes_on-is_null s.follower.engine.boundry_checkpoint_bh h));
    round = refl;
  }

  -- In a run of a pair of new nodes, whatever callbacks run in whatever order: when a synchronising
  -- node that runs has a bottom half for a checkpoint after which it goes on, and then, or later, the
  -- same or the other node runs, synchronises and has one, both are in the same round, at its end.
  pub one_round :
      (role role' : Bool)
      → runs_of role s ≡ true
      → runs_of role' t ≡ true
      → (node_of role s).wwt.should_sync ≡ true
      → (node_of role' t).wwt.should_sync ≡ true
      → goes_on (node_of role s).engine.boundry_checkpoint_bh ≡ true
      → goes_on (node_of role' t).engine.boundry_checkpoint_bh ≡ true
      → ((node_of role s).wwt.current_quantum_round ≡ (node_of role' t).wwt.current_quantum_round)
        × ((node_of role s).wwt.finished_quantum ≡ true)
        × ((node_of role' t).wwt.finished_quantum ≡ true)
  one_round role role' a b sync sync' h h' =
      let x = one_quantum new_master new_follower r role a sync h in
      let y = one_quantum new_master new_follower (Reach-append r r') role' b sync' h' in
      let keep = (Stays-Reach s.master.wwt.current_quantum_round invariant (stays role a h) r').1 in
      (x.1 ∙ sym (y.1 ∙ keep.round), x.0, y.0)
