-- ===== src/System/Pass.antt =====
-- A node of the pair passes the barrier, and gives the permission to exit.
use mathlib.Core.Path.{subst}
use qemu_pdes.Base.{
  ℕ, ◌+◌, ◌^◌, ◌<◌, ◌≡◌, ◌≢◌, refl, sym, ap, ◌∙◌, Bool, true, false, not, ◌&&◌, List, [], ◌∷◌, ◌++◌,
  arith, if◌then◌else◌,
}
use qemu_pdes.Base.Word.{minus_one64, signed_le32}
use qemu_pdes.Comm.Message.{Message, msg_type_sync, permission_to_end_emulation}
use qemu_pdes.Node.{Node, PdesWwt, no_timer}
use qemu_pdes.Node.Monad.{ret, Outcome}
use qemu_pdes.Node.Always.{count_kind, count_kind-snoc}
use qemu_pdes.Node.Ends.{Holds, when-Holds}
use qemu_pdes.Engine.Exit.{permit}
use qemu_pdes.Engine.Process.Kinds.{permit_lem, permitting, permission_message}
use qemu_pdes.Wwt.Sync.{
  is_waiting, permit_at_boundary, sync_checkpoint_check, pass_barrier, next_quantum,
}
use qemu_pdes.System.Wire.{good_permission, syncs}
use qemu_pdes.System.Invariant.{Phase, Barrier, Inv}
use qemu_pdes.System.Send.{Stream-snoc, Barrier-snoc, ended-Inv, Inv-engine, Inv-idle}
use qemu_pdes.System.Start.{AtEnd, Began, next_quantum-Inv}

module _ (q : ℕ) (phase : Phase) (role : Bool) (wire base : List Message) where
  abbrev P : Node → Type 0
  P = Inv q phase role wire base

  -- The master's permission.
  pub permit-Inv : (n : Node) → P n → n.engine.master ≡ true → Holds P (permit n)
  permit-Inv n i master =
      let m = permission_message n in
      let is_master : role ≡ true = sym i.streams.master ∙ master in
      rw (permit_lem n (omega (arith, i.fixed)) i.fixed.connected) (
        ended-Inv
          {n = record n {
            engine = record n.engine { permitted_to_exit = true };
            outbox = n.outbox ++ (m ∷ []);
          }}
          (record {
            fixed = ground (arith, i.fixed);
            pending = i.pending;
            clock = ground (arith, i.clock);
            barrier = Barrier-snoc m refl i.barrier;
            grant = ground (arith, i.grant, count_kind-snoc permission_to_end_emulation n.outbox m);
            streams =
                Stream-snoc m (record n.engine { permitted_to_exit = true }) i.streams.master
                  (good_permission refl refl is_master) i.streams;
          })
          refl (λ _. omega (arith, count_kind-snoc permission_to_end_emulation n.outbox m)))

  pub permit_at_boundary-Inv : (n : Node) → P n → Holds P (permit_at_boundary n)
  unfolding permit_at_boundary
  permit_at_boundary-Inv n i = when-Holds P _ permit n i (λ ask. permit-Inv n i (ground arith))

-- A sync of the current round has been counted.
counted-heard :
    {phase : Phase} {wire outbox received : List Message} {w : PdesWwt}
    → Barrier phase wire outbox received w
    → w.should_sync ≡ true
    → is_waiting w ≡ false
    → w.current_quantum_round < count_kind msg_type_sync received
counted-heard {w = w} b s e = ground (arith, b.counts w.current_quantum_round, b.small)

-- A node after `permit_at_boundary`.
abbrev boundary : Node → Node
boundary n =
    if n.engine.master
      && signed_le32 1 n.engine.ready_to_exit_neighbors
      && n.engine.ready_to_exit
      && not n.engine.permitted_to_exit
    then permitting n
    else n

boundary_lem :
    (n : Node)
    → n.engine.first_sync_virtual_time ≢ minus_one64
    → n.engine.connected ≡ true
    → permit_at_boundary n ≡ ret tt (boundary n)
unfolding permit_at_boundary
boundary_lem n f c = ground (arith, permit_lem n f c)

received-boundary : (n : Node) → (boundary n).received ≡ n.received
received-boundary n = ground arith

check_lem :
    (n : Node) → n.engine.needs_to_checkpoint ≡ false → sync_checkpoint_check n ≡ ret false n
unfolding sync_checkpoint_check
check_lem n e = ground arith

abbrev crossing : Node → Node
crossing n = record n {
  engine = record n.engine { skip_boundry_check_after_checkpoint = false };
  wwt = record n.wwt { sync_check_timer = no_timer };
}

pass_lem :
    (n : Node)
    → n.engine.needs_to_checkpoint ≡ false
    → n.engine.first_sync_virtual_time ≢ minus_one64
    → n.engine.connected ≡ true
    → pass_barrier n ≡ next_quantum (boundary (crossing n))
unfolding pass_barrier
pass_lem n e f c = ground (
  arith,
  check_lem (record n { engine = record n.engine { skip_boundry_check_after_checkpoint = false } }),
  boundary_lem (crossing n) f c,
)

module _ (q r : ℕ) (b : Bool) (role : Bool) (wire base : List Message) where
  abbrev Waits : Node → Type 0
  Waits = Inv q (record { round = r; finished = true; owed = 0; idle = b }) role wire base

  crossing-Inv : (n : Node) → Waits n → AtEnd q r role wire base (crossing n)
  crossing-Inv n i = Inv-idle (
      Inv-engine (record n.engine { skip_boundry_check_after_checkpoint = false }) (ground arith) i)

  boundary-Inv : (n : Node) → AtEnd q r role wire base n → AtEnd q r role wire base (boundary n)
  boundary-Inv n i =
      subst (λ (o : Outcome (Unit {0})). Holds (AtEnd q r role wire base) o)
        (boundary_lem n (omega (arith, i.fixed)) i.fixed.connected)
        (permit_at_boundary-Inv q _ role wire base n i)

  pub pass-Inv :
      (n : Node)
      → Waits n
      → is_waiting n.wwt ≡ false
      → r + 2 < 2 ^ 32
      → Holds (Began q r role wire base) (pass_barrier n)
  pass-Inv n i w small =
      let k = crossing n in
      let j = boundary-Inv k (crossing-Inv n i) in
      let heard : r < syncs (boundary k).received = omega (
        arith,
        i.barrier.at_round,
        counted-heard i.barrier i.fixed.should_sync w,
        ap syncs (received-boundary k),
      ) in
      rw (pass_lem n i.fixed.no_checkpoint (omega (arith, i.fixed)) i.fixed.connected)
        (next_quantum-Inv q r role wire base (boundary k) j small heard)
