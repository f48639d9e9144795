-- ===== src/Checkpoint/Pair/LastAct.antt =====
-- The one snapshot of the master.
use mathlib.Core.Path.{subst}
use qemu_pdes.Base.{
  ℕ, ◌≡◌, refl, sym, ap, ◌∙◌, Bool, true, false, List, [], ◌∷◌, ◌++◌, arith, ◌⊎◌, inl, inr,
}
use qemu_pdes.Node.{Node, Effect, save_snapshot}
use qemu_pdes.Callbacks.{Event, handle}
use qemu_pdes.System.{System, Next}
use qemu_pdes.Engine.Process.{init_warmed}
use qemu_pdes.Checkpoint.Boundary.Outcome.{c_str-init_warmed}
use qemu_pdes.Checkpoint.Protocol.{View, view, saves, From, Move}
use qemu_pdes.Checkpoint.Protocol.Frame.{Shows}
use qemu_pdes.Checkpoint.Protocol.History.{saved-moves}
use qemu_pdes.Checkpoint.Protocol.Last.{gone_view, last_snapshot}
use qemu_pdes.Checkpoint.Protocol.Refine.{
  first_view, handle_refines, begins, unchanged, arrived, saves_snapshot,
}
use qemu_pdes.Checkpoint.Pair.{Step, master_moves, follower_moves, Reach, here, later, IsNew}
use qemu_pdes.Checkpoint.Pair.Invariant.{
  PairInv, MasterSide, Reach-PairInv, Next-Always, Next-Leaves,
}

-- The snapshots of a master since it had those of `base`: none while it runs, and at the end at
-- most one, under the name that ends the emulation.
pub record Saves (base : List Effect) (runs : Bool) (n : Node) : Type 0 where
  pub running : runs ≡ true → saves n.trace ≡ base
  pub at_most :
      (saves n.trace ≡ base)
      ⊎ ((format : ℕ) × (saves n.trace ≡ base ++ (save_snapshot init_warmed format ∷ [])))

module _ (base : List Effect) where
  event-Saves :
      (e : Event) (n k : Node) (runs b : Bool)
      → runs ≡ true
      → Next (handle e n) k b
      → MasterSide runs n
      → Saves base runs n
      → Saves base b k
  unfolding handle
  event-Saves e n k runs b t x m i =
      let moves =
        Next-Always (From Move (first_view e n)) (handle e n) k b x (handle_refines e n) in
      let kept = saved-moves (first_view e n) (view k) moves in
      let same = λ (f : (first_view e n).saved ≡ saves n.trace). kept ∙ (f ∙ i.running t) in
      elim (begins e n) [
        | unchanged f ↦
            let s = same (ap (λ (v : View). v.saved) f) in
            record { running = λ c. s; at_most = inl s }
        | arrived batches f ↦
            let s = same (rw f refl) in record { running = λ c. s; at_most = inl s }
        | saves_snapshot a f h ↦
            let facts = m.facts t in
            let (s, gone) =
              Next-Leaves (Shows (gone_view n)) (handle e n) k b x
                (rw f (last_snapshot a n facts.role h (facts.name h))) in
            record {
              running = λ c. absurd (ground (arith, c, gone));
              at_most = inr (
                n.engine.checkpoint_format,
                s.saved ∙ rw (i.running t, facts.name h, c_str-init_warmed) refl,
              );
            }
      ]

  Step-Saves :
      {s t : System}
      → PairInv s
      → Saves base s.master_runs s.master
      → Step s t
      → Saves base t.master_runs t.master
  Step-Saves {s} p i (master_moves e n b r d x f) =
      subst (λ (u : System). Saves base u.master_runs u.master) (sym f)
        (event-Saves e s.master n s.master_runs b r x p.of_master i)
  Step-Saves {s} p i (follower_moves e n b r d x f) =
      subst (λ (u : System). Saves base u.master_runs u.master) (sym f) i

-- In a run of a pair of new nodes, whatever callbacks run in whatever order, the master has taken no
-- snapshot for a checkpoint while it runs. When it has left it has taken at most one, and that
-- under the name init_warmed.
pub last_act :
    {z s : System}
    → IsNew true z.master
    → IsNew false z.follower
    → Reach z s
    → Saves (saves z.master.trace) s.master_runs s.master
last_act m f here = record { running = λ c. refl; at_most = inl refl }
last_act {z} m f (later r x) =
    Step-Saves (saves z.master.trace) (Reach-PairInv m f r) (last_act m f r) x
