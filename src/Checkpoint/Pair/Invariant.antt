-- ===== src/Checkpoint/Pair/Invariant.antt =====
-- What holds of the pair with checkpoints in every reachable state.
use mathlib.Core.Path.{subst}
use qemu_pdes.Base.{ℕ, ◌≡◌, refl, sym, ap, ◌∙◌, Bool, true, false, List, [], ◌∷◌, ◌++◌, arith}
use qemu_pdes.Comm.Message.{Message}
use qemu_pdes.Node.{Node}
use qemu_pdes.Node.Monad.{Outcome}
use qemu_pdes.Node.Always.{Always}
use qemu_pdes.Callbacks.{Event, handle}
use qemu_pdes.System.{System, Next, returned, left, waits, stream}
use qemu_pdes.Checkpoint.Protocol.{View, view, drains, Move, From}
use qemu_pdes.Checkpoint.Protocol.Frame.{Shows, drains-append}
use qemu_pdes.Checkpoint.Protocol.History.{told-moves, coming-moves}
use qemu_pdes.Checkpoint.Protocol.Refine.{
  first_view, handle_refines, begins, unchanged, arrived, saves_snapshot,
}
use qemu_pdes.Checkpoint.Protocol.Facts.{
  Says, Common, Master, Follower, Master-moves, Follower-moves,
}
use qemu_pdes.Checkpoint.Protocol.Last.{Leaves, gone_view, last_snapshot}
use qemu_pdes.Checkpoint.Pair.{Due, Step, master_moves, follower_moves, Reach, here, later, IsNew}

pub Next-Always :
    (P : Node → Type 0) (o : Outcome (Unit {0})) (n : Node) (b : Bool)
    → Next o n b
    → Always P o
    → P n
Next-Always P o n b (returned e r) h = subst (Always P) e h
Next-Always P o n b (left e r) h = subst (Always P) e h
Next-Always P o n b (waits e r) h = subst (Always P) e h

pub Next-Leaves :
    (P : Node → Type 0) (o : Outcome (Unit {0})) (n : Node) (b : Bool)
    → Next o n b
    → Leaves P o
    → P n × (b ≡ false)
Next-Leaves P o n b (returned e r) h = absurd (subst (Leaves P) e h)
Next-Leaves P o n b (left e r) h = (subst (Leaves P) e h, r)
Next-Leaves P o n b (waits e r) h = absurd (subst (Leaves P) e h)

-- The snapshot, and what arrives, leave the facts of a follower as they are.
first-Follower : (r : ℕ) (e : Event) (n : Node) → Follower r (view n) → Follower r (first_view e n)
first-Follower r e n i = elim (begins e n) [
  | unchanged f ↦ subst (Follower r) (sym f) i
  | arrived batches f ↦ rw f (ground (arith, i))
  | saves_snapshot b f h ↦ rw f (ground (arith, i))
]

-- A snapshot ends the master; before that its facts hold.
data First (e : Event) (n : Node) : Type 0 where
  goes_on : Master (first_view e n) → First e n
  ends : Leaves (Shows (gone_view n)) (handle e n) → First e n

first-Master : (e : Event) (n : Node) → Master (view n) → First e n
unfolding handle
first-Master e n i = elim (begins e n) [
  | unchanged f ↦ goes_on (subst Master (sym f) i)
  | arrived batches f ↦ goes_on (rw f (ground (arith, i)))
  | saves_snapshot b f h ↦ ends (rw f (last_snapshot b n i.role h (i.name h)))
]

first-told : (e : Event) (n : Node) → (first_view e n).told ≡ drains n.outbox
first-told e n = elim (begins e n) [
  | unchanged f ↦ ap (λ (v : View). v.told) f
  | arrived batches f ↦ rw f refl
  | saves_snapshot b f h ↦ rw f (ground arith)
]

Says-prefix : (r : ℕ) (xs ys : List Message) → Says r (xs ++ ys) → Says r xs
Says-prefix r [] ys h = tt
Says-prefix r (m ∷ xs) ys h = (h.0, Says-prefix r xs ys h.1)

pub drains-prefix :
    (r : ℕ) (xs ys wire : List Message)
    → xs ++ ys ≡ wire
    → Says r (drains wire)
    → Says r (drains xs)
drains-prefix r xs ys wire e h =
    Says-prefix r (drains xs) (drains ys)
      (subst (Says r) (sym (ap drains e) ∙ drains-append xs ys) h)

first-coming :
    (r : ℕ) (e : Event) (wire : List Message) (n : Node)
    → Due wire e n
    → Says r (drains wire)
    → Says r (drains (stream n))
    → Says r (first_view e n).coming
first-coming r e wire n d h i = elim (begins e n) [
  | unchanged f ↦ subst (λ (v : View). Says r v.coming) (sym f) i
  | arrived batches f ↦
      let (rest, split) = subst (λ e'. Due wire e' n) f d in
      rw f
        (drains-prefix r (stream (record n { arriving = n.arriving ++ batches })) rest wire split h)
  | saves_snapshot b f x ↦ rw f (ground (arith, i))
]

-- The announcements of the master, and of what it has left.
pub record MasterSide (runs : Bool) (n : Node) : Type 0 where
  pub facts : runs ≡ true → Master (view n)
  pub says : Says n.wwt.current_quantum_round (drains n.outbox)

master-step :
    (e : Event) (n k : Node) (runs b : Bool)
    → runs ≡ true
    → Next (handle e n) k b
    → MasterSide runs n
    → MasterSide b k × ((r : ℕ) → Says r (drains k.outbox) → Says r (drains n.outbox))
master-step e n k runs b r x i = elim (first-Master e n (i.facts r)) [
  | goes_on m ↦
      let s = Next-Always (From Move (first_view e n)) (handle e n) k b x (handle_refines e n) in
      let m' = Master-moves (first_view e n) (view k) s m in
      (
        record { facts = λ _. m'; says = m'.says },
        λ r h. subst (Says r) (first-told e n) (told-moves r (first_view e n) (view k) s h),
      )
  | ends h ↦
      let (s, f) = Next-Leaves _ (handle e n) k b x h in
      (
        record { facts = λ t. absurd (ground (arith, t, f)); says = rw (s.round, s.told) i.says },
        λ r h. rw⁻¹ s.told h,
      )
]

-- The follower, for every round that all announcements of its neighbour carry.
pub record FollowerSide (wire : List Message) (runs : Bool) (n : Node) : Type 0 where
  pub facts : runs ≡ true → (r : ℕ) → Follower r (view n)
  pub hears : (r : ℕ) → Says r (drains wire) → Says r (drains (stream n))

follower-step :
    (wire : List Message) (e : Event) (n k : Node) (runs b : Bool)
    → runs ≡ true
    → Due wire e n
    → Next (handle e n) k b
    → FollowerSide wire runs n
    → FollowerSide wire b k
follower-step wire e n k runs b r d x i =
    let s = Next-Always (From Move (first_view e n)) (handle e n) k b x (handle_refines e n) in
    record {
      facts = λ _ r'.
          Follower-moves r' (first_view e n) (view k) s (first-Follower r' e n (i.facts r r'));
      hears = λ r' h.
          subst (Says r') (sym (coming-moves (first_view e n) (view k) s))
            (first-coming r' e wire n d h (i.hears r' h));
    }

pub record PairInv (s : System) : Type 0 where
  pub of_master : MasterSide s.master_runs s.master
  pub of_follower : FollowerSide s.master.outbox s.follower_runs s.follower

pub Step-PairInv : {s t : System} → PairInv s → Step s t → PairInv t
Step-PairInv {s} i (master_moves e n b r d x f) =
    let (m, said) = master-step e s.master n s.master_runs b r x i.of_master in
    subst PairInv (sym f) (record {
      of_master = m;
      of_follower = record {
        facts = i.of_follower.facts;
        hears = λ r' h. i.of_follower.hears r' (said r' h);
      };
    })
Step-PairInv {s} i (follower_moves e n b r d x f) = subst PairInv (sym f) (record {
  of_master = i.of_master;
  of_follower = follower-step s.master.outbox e s.follower n s.follower_runs b r d x i.of_follower;
})

new-Common : (role : Bool) (n : Node) → IsNew role n → Common (view n)
new-Common role n i = ground (arith, i)

new-Says : (r : ℕ) (ms : List Message) → ms ≡ [] → Says r (drains ms)
unfolding drains
new-Says r ms e = rw e tt

nothing-told : (n : Node) → n.outbox ≡ [] → drains n.outbox ≡ []
unfolding drains
nothing-told n e = rw e refl

new-Master : (n : Node) → IsNew true n → Master (view n)
new-Master n i = record {
  common = new-Common true n i;
  role = i.master;
  at = λ h. absurd (ground (arith, h, i.needs));
  stopped = λ h. absurd (ground (arith, h, i.bh));
  name = λ h. absurd (ground (arith, h, i.needs));
  unsaid = λ h. nothing-told n i.outbox;
  says = new-Says n.wwt.current_quantum_round n.outbox i.outbox;
}

new-Follower : (n : Node) (r : ℕ) → IsNew false n → Follower r (view n)
new-Follower n r i = record {
  common = new-Common false n i;
  role = i.master;
  at = λ s h. absurd (ground (arith, h, i.needs));
  stopped = λ s h. absurd (ground (arith, h, i.bh));
}

pub Reach-PairInv :
    {z s : System} → IsNew true z.master → IsNew false z.follower → Reach z s → PairInv s
Reach-PairInv {z} m f here = record {
  of_master = record {
    facts = λ _. new-Master z.master m;
    says = new-Says z.master.wwt.current_quantum_round z.master.outbox m.outbox;
  };
  of_follower = record {
    facts = λ _ r. new-Follower z.follower r f;
    hears = λ r h. new-Says r (stream z.follower) f.incoming;
  };
}
Reach-PairInv m f (later r s) = Step-PairInv (Reach-PairInv m f r) s
