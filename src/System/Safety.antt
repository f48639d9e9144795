-- ===== src/System/Safety.antt =====
-- What holds in every reachable state of the pair.
use mathlib.Core.Path.{subst}
use native.Mathlib.Nat.{mul-le-mul_right}
use qemu_pdes.Base.{
  ℕ, ◌+◌, ◌*◌, ◌-◌, ◌<◌, ◌≤◌, ◌≡◌, refl, sym, Bool, true, false, not, arith, Bool-cases, inl, inr,
  ◌⊎◌,
}
use qemu_pdes.Comm.Message.{msg_type_sync}
use qemu_pdes.Node.{Node}
use qemu_pdes.Node.Monad.{Outcome, ret, fault, exited, spinning}
use qemu_pdes.Node.Ends.{Ends}
use qemu_pdes.Engine.Exit.Invariant.{bit}
use qemu_pdes.Callbacks.{Event, handle}
use qemu_pdes.Callbacks.Exit.{handle-ExitInv}
use qemu_pdes.System.{System, Enabled, Next, Step, master_moves, follower_moves, Reach, here, later}
use qemu_pdes.System.Wire.{syncs}
use qemu_pdes.System.Check.{Resting, Left}
use qemu_pdes.System.Handle.{handle-Inv}
use qemu_pdes.System.Pair.{Side, Side-rebase, Next-Side, Side-neighbour, read-le, permitted-le}
use qemu_pdes.System.Begin.{Begun, begun-Side}

abbrev SideOf : ℕ → Bool → Bool → Node → Node → Type 0
SideOf q role runs n other = Side q role other.outbox n.outbox runs n

pub record SysInv (q : ℕ) (s : System) : Type 0 where
  pub of_master : SideOf q true s.master_runs s.master s.follower
  pub of_follower : SideOf q false s.follower_runs s.follower s.master

-- The moves of one side.
module _ (q : ℕ) (role : Bool) (n other : Node) (runs runs' : Bool)
    (mine : SideOf q role runs n other) (theirs : SideOf q (not role) runs' other n)
    (running : runs ≡ true) where
  ends :
      (e : Event)
      → Enabled q other.outbox e n
      → Ends
          (λ _. Resting q role other.outbox n.outbox)
          (Left q role other.outbox n.outbox)
          (Resting q role other.outbox n.outbox)
          (handle e n)
  ends e h = handle-Inv q role other.outbox n.outbox e n (mine.resting running) h

  moved :
      (e : Event) (k : Node) (b : Bool)
      → Enabled q other.outbox e n
      → Next (handle e n) k b
      → Side q role other.outbox n.outbox b k
  moved e k b h x =
      Next-Side q role other.outbox n.outbox (handle e n) k b (ends e h)
        (handle-ExitInv e n mine.exit) x

module _ (q : ℕ) where
  Step-SysInv : {s t : System} → SysInv q s → Step q s t → SysInv q t
  Step-SysInv {s} i (master_moves e n b r h x f) =
      let k =
        moved q true s.master s.follower s.master_runs s.follower_runs i.of_master i.of_follower r e
          n b h x in
      subst (SysInv q) (sym f) (record {
        of_master = Side-rebase q true s.follower.outbox s.master.outbox k;
        of_follower = Side-neighbour q false s.follower_runs b k i.of_follower;
      })
  Step-SysInv {s} i (follower_moves e n b r h x f) =
      let k =
        moved q false s.follower s.master s.follower_runs s.master_runs i.of_follower i.of_master r
          e n b h x in
      subst (SysInv q) (sym f) (record {
        of_follower = Side-rebase q false s.master.outbox s.follower.outbox k;
        of_master = Side-neighbour q true s.master_runs b k i.of_master;
      })

-- Both nodes set up with the quantum `q`, nothing sent yet, and the rings shared.
pub record IsStart (q : ℕ) (z : System) : Type 0 where
  pub begun_master : Begun q true z.master
  pub begun_follower : Begun q false z.follower
  pub master_there : z.master_runs ≡ true
  pub follower_there : z.follower_runs ≡ true

module _ {q : ℕ} {z : System} (start : IsStart q z) where
  start-SysInv : SysInv q z
  start-SysInv = record {
    of_master =
        rw (start.begun_follower.nothing_sent, start.master_there)
          (begun-Side q true z.master start.begun_master);
    of_follower =
        rw (start.begun_master.nothing_sent, start.follower_there)
          (begun-Side q false z.follower start.begun_follower);
  }

  pub Reach-SysInv : {s : System} → Reach q z s → SysInv q s
  Reach-SysInv here = start-SysInv
  Reach-SysInv (later r x) = Step-SysInv q (Reach-SysInv r) x

abbrev pub node_of : Bool → System → Node
node_of true s = s.master
node_of false s = s.follower

abbrev pub runs_of : Bool → System → Bool
runs_of true s = s.master_runs
runs_of false s = s.follower_runs

-- No assertion failed, no pointer was NULL, and no access left its array.
abbrev pub NoFault : {A : Type 0} → Outcome A → Type 0
NoFault (ret a n) = Unit
NoFault (fault e) = ⊥
NoFault (exited n) = Unit
NoFault (spinning n) = Unit

Ends-NoFault :
    {A : Type 0} (R : A → Node → Type 0) (E W : Node → Type 0) (o : Outcome A)
    → Ends R E W o
    → NoFault o
Ends-NoFault R E W (ret a n) h = tt
Ends-NoFault R E W (fault e) h = h
Ends-NoFault R E W (exited n) h = tt
Ends-NoFault R E W (spinning n) h = tt

-- The universal time of a node that is set up, without the wrap-around.
abbrev pub time : Node → ℕ
time n = n.virtual_ns - n.engine.first_sync_virtual_time

abbrev pub progress : Node → ℕ
progress n = n.wwt.current_quantum_round + bit n.wwt.finished_quantum

module _ (q : ℕ) (role : Bool) {n other : Node} {b b' : Bool} (mine : SideOf q role b n other)
    (theirs : SideOf q (not role) b' other n) where
  round-le : n.wwt.current_quantum_round ≤ progress other
  round-le = omega (
    arith,
    mine.placed.1.barrier.heard,
    read-le q role mine.placed.1 msg_type_sync,
    theirs.placed.1.barrier.sent,
  )

  time-le : time n ≤ time other + q
  time-le =
      let i = mine.placed.1 in
      let j = theirs.placed.1 in
      let less = mul-le-mul_right q round-le in
      elim (Bool-cases other.wwt.finished_quantum) [
        | inl f ↦
            let same : progress other * q ≡ (other.wwt.current_quantum_round + 1) * q = rw f refl in
            omega (arith, less, same, i.clock.late, j.clock.at_end f, j.fixed.first)
        | inr f ↦
            let same : progress other * q ≡ (other.wwt.current_quantum_round + 0) * q = rw f refl in
            omega (arith, less, same, i.clock.late, j.clock.early, j.fixed.first)
      ]

module _ {q : ℕ} {z s : System} (start : IsStart q z) (r : Reach q z s) where
  here_inv : SysInv q s
  here_inv = Reach-SysInv start r

  -- In every reachable state of two synchronised nodes without checkpoints, whatever callback can
  -- run next at a node that runs, none of its assertions fails, it follows no NULL pointer and it
  -- leaves no array: no sync is of a wrong round, no packet is in the past, and END_OF_EMULATION
  -- finds its permission. Reachable is meant under the conditions of `Enabled` and `IsStart`: so the
  -- packets that are sent have 1 to 2048 bytes.
  pub no_fault :
      (role : Bool) (e : Event)
      → runs_of role s ≡ true
      → Enabled q (node_of (not role) s).outbox e (node_of role s)
      → NoFault (handle e (node_of role s))
  no_fault true e b h = Ends-NoFault _ _ _ (handle e s.master) (
      ends q true s.master s.follower s.master_runs s.follower_runs here_inv.of_master
        here_inv.of_follower b e h)
  no_fault false e b h = Ends-NoFault _ _ _ (handle e s.follower) (
      ends q false s.follower s.master s.follower_runs s.master_runs here_inv.of_follower
        here_inv.of_master b e h)

  -- In every reachable state the two nodes keep step: a node is in no later round than its neighbour
  -- has reached, where a finished quantum counts, and their universal times are at most one quantum
  -- apart, in both directions. This holds too when a node has left.
  pub clocks_close :
      (s.master.wwt.current_quantum_round ≤ progress s.follower)
      × (s.follower.wwt.current_quantum_round ≤ progress s.master)
      × (time s.master ≤ time s.follower + q)
      × (time s.follower ≤ time s.master + q)
  clocks_close =
      let i = here_inv in
      (
        round-le q true i.of_master i.of_follower,
        round-le q false i.of_follower i.of_master,
        time-le q true i.of_master i.of_follower,
        time-le q false i.of_follower i.of_master,
      )

  -- In every reachable state in which both nodes run and both wait at the barrier, one of them has had
  -- the sync sent that it waits for: they do not wait for each other.
  pub no_deadlock :
      s.master_runs ≡ true
      → s.follower_runs ≡ true
      → s.master.wwt.finished_quantum ≡ true
      → s.follower.wwt.finished_quantum ≡ true
      → (s.master.wwt.current_quantum_round < syncs s.follower.outbox)
        ⊎ (s.follower.wwt.current_quantum_round < syncs s.master.outbox)
  no_deadlock a b f g =
      let (r, x, i) = here_inv.of_master.resting a in
      let (t, y, j) = here_inv.of_follower.resting b in
      let sent : syncs s.master.outbox ≡ s.master.wwt.current_quantum_round + 1 =
        ground (arith, i.barrier.sent, f) in
      let sent' : syncs s.follower.outbox ≡ s.follower.wwt.current_quantum_round + 1 =
        ground (arith, j.barrier.sent, g) in
      ground (arith, sent, sent')

  -- In every reachable state the follower is permitted to exit only if the master is, and neither node
  -- takes its pair for finished without its own permission.
  pub permission_order :
      (bit s.follower.engine.permitted_to_exit ≤ bit s.master.engine.permitted_to_exit)
      × (bit s.master.engine.pair_has_finished ≤ bit s.master.engine.permitted_to_exit)
      × (bit s.follower.engine.pair_has_finished ≤ bit s.follower.engine.permitted_to_exit)
  permission_order =
      let i = here_inv in
      (
        omega
            (arith, permitted-le q false i.of_follower.placed.1 refl, i.of_master.exit.permissions),
        i.of_master.placed.1.grant.partner,
        i.of_follower.placed.1.grant.partner,
      )
