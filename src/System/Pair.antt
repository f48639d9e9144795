-- ===== src/System/Pair.antt =====
-- Both nodes of the pair at once: what one node's callback leaves to the other.
use mathlib.Core.List.{append_assoc, append-nil}
use mathlib.Core.Path.{subst}
use qemu_pdes.Base.{ℕ, ◌+◌, ◌≤◌, ◌≡◌, sym, ap, ◌∙◌, Bool, true, false, not, List, [], ◌++◌, arith}
use qemu_pdes.Comm.Message.{Message, msg_type_sync, permission_to_end_emulation, end_of_emulation}
use qemu_pdes.Node.{Node}
use qemu_pdes.Node.Monad.{Outcome}
use qemu_pdes.Node.Always.{Always, count_kind, count_kind-append}
use qemu_pdes.Node.Ends.{Ends}
use qemu_pdes.Engine.Exit.Invariant.{bit, bit-le, ExitInv}
use qemu_pdes.System.{stream, flat, Next, returned, left, waits}
use qemu_pdes.System.Wire.{syncs, permissions, permissions-Wire}
use qemu_pdes.System.Invariant.{Phase, Inv}
use qemu_pdes.System.Check.{Resting, Left}

module _ (q : ℕ) (role : Bool) where
  -- The history up to now becomes the base.
  rebase :
      {phase : Phase} {wire base : List Message} {n : Node}
      → Inv q phase role wire base n
      → Inv q phase role wire n.outbox n
  rebase {n = n} i = record {
    fixed = i.fixed;
    pending = i.pending;
    clock = i.clock;
    barrier = i.barrier;
    grant = i.grant;
    streams = record {
      master = i.streams.master;
      own = i.streams.own;
      other = i.streams.other;
      rest = i.streams.rest;
      split = i.streams.split;
      more = [];
      grown = sym (append-nil n.outbox);
    };
  }

  -- What a node has read is no more than what its neighbour has sent.
  pub read-le :
      {phase : Phase} {wire base : List Message} {n : Node}
      → Inv q phase role wire base n
      → (k : ℕ) → count_kind k n.received ≤ count_kind k wire
  read-le {n = n} i k = omega (
    arith,
    ap (count_kind k) i.streams.split,
    count_kind-append k (stream n) i.streams.rest,
    count_kind-append k n.received (n.inbox ++ flat n.arriving),
  )

  -- A permission that the follower has is one that its neighbour gave.
  pub permitted-le :
      {phase : Phase} {wire base : List Message} {n : Node}
      → Inv q phase role wire base n
      → role ≡ false
      → bit n.engine.permitted_to_exit ≤ permissions wire
  permitted-le {n = n} i r = omega (
    arith,
    i.grant.granted,
    permissions-Wire role q 0 0 n.outbox r i.streams.own,
    read-le i permission_to_end_emulation,
  )

module _ (q : ℕ) (role : Bool) {a b : Phase} {before : List Message} {m n : Node}
    (moved : Inv q a (not role) n.outbox before m) (exit_m : ExitInv m)
    (stays : Inv q b role before n.outbox n) (exit_n : ExitInv n) where
  lead_kept : syncs m.outbox ≤ n.wwt.current_quantum_round + bit n.wwt.finished_quantum + 1
  lead_kept = omega (
    arith,
    moved.barrier.sent,
    moved.barrier.heard,
    read-le q (not role) moved msg_type_sync,
    stays.barrier.sent,
    bit-le m.wwt.finished_quantum,
  )

  end_kept :
      role ≡ true → 1 ≤ count_kind end_of_emulation m.outbox → n.engine.permitted_to_exit ≡ true
  end_kept r h =
      let given : bit m.engine.permitted_to_exit ≤ permissions n.outbox =
        permitted-le q (not role) moved (ap not r) in
      ground (arith, exit_m.ends, exit_m.permitted, exit_n.permissions, given, h)

  -- The neighbour of a node that has moved sees a longer history.
  pub neighbour-Inv : Inv q b role m.outbox n.outbox n
  neighbour-Inv = record {
    fixed = stays.fixed;
    pending = stays.pending;
    clock = stays.clock;
    barrier = record {
      at_round = stays.barrier.at_round;
      at_finished = stays.barrier.at_finished;
      at_timer = stays.barrier.at_timer;
      sent = stays.barrier.sent;
      heard = stays.barrier.heard;
      lead = lead_kept;
      small = stays.barrier.small;
      counts = stays.barrier.counts;
    };
    grant = record {
      granted = stays.grant.granted;
      told = stays.grant.told;
      partner = stays.grant.partner;
      end_ok = λ e. end_kept (sym stays.streams.master ∙ e);
    };
    streams = record {
      master = stays.streams.master;
      own = stays.streams.own;
      other = moved.streams.own;
      rest = stays.streams.rest ++ moved.streams.more;
      split =
          sym (append_assoc (stream n) stays.streams.rest moved.streams.more)
          ∙ (ap (λ (l : List Message). l ++ moved.streams.more) stays.streams.split
              ∙ sym moved.streams.grown);
      more = stays.streams.more;
      grown = stays.streams.grown;
    };
  }

-- One side, running or not.
pub record Side (q : ℕ) (role : Bool) (wire base : List Message) (runs : Bool) (n : Node)
    : Type 0 where
  pub exit : ExitInv n
  pub placed : Left q role wire base n
  pub resting : runs ≡ true → Resting q role wire base n

module _ (q : ℕ) (role : Bool) (wire base : List Message) where
  pub Side-rebase :
      {runs : Bool} {n : Node} → Side q role wire base runs n → Side q role wire n.outbox runs n
  Side-rebase s = record {
    exit = s.exit;
    placed = (s.placed.0, rebase q role s.placed.1);
    resting = λ e. let (r, f, i) = s.resting e in (r, f, rebase q role i);
  }

  -- After a callback that met no fault.
  pub Next-Side :
      (o : Outcome (Unit {0})) (n : Node) (b : Bool)
      → Ends (λ _. Resting q role wire base) (Left q role wire base) (Resting q role wire base) o
      → Always ExitInv o
      → Next o n b
      → Side q role wire base b n
  Next-Side o n b e x (returned h g) =
      let r : Resting q role wire base n =
        subst
          (Ends (λ _. Resting q role wire base) (Left q role wire base) (Resting q role wire base))
          h e in
      record { exit = subst (Always ExitInv) h x; placed = (_, r.2); resting = λ _. r }
  Next-Side o n b e x (waits h g) =
      let r : Resting q role wire base n =
        subst
          (Ends (λ _. Resting q role wire base) (Left q role wire base) (Resting q role wire base))
          h e in
      record { exit = subst (Always ExitInv) h x; placed = (_, r.2); resting = λ _. r }
  Next-Side o n b e x (left h g) = record {
    exit = subst (Always ExitInv) h x;
    placed =
        subst
          (Ends (λ _. Resting q role wire base) (Left q role wire base) (Resting q role wire base))
          h e;
    resting = λ c. cc;
  }

-- The other side after this one has moved.
pub Side-neighbour :
    (q : ℕ) (role runs runs' : Bool) {before : List Message} {m n : Node}
    → Side q (not role) n.outbox before runs' m
    → Side q role before n.outbox runs n
    → Side q role m.outbox n.outbox runs n
Side-neighbour q role runs runs' s t = record {
  exit = t.exit;
  placed = (t.placed.0, neighbour-Inv q role s.placed.1 s.exit t.placed.1 t.exit);
  resting =
      λ e. let (r, f, i) = t.resting e in (r, f, neighbour-Inv q role s.placed.1 s.exit i t.exit);
}
