-- ===== src/System/Send.antt =====
-- A node of the pair puts one more message on its wire.
use mathlib.Core.List.{append_assoc}
use mathlib.Core.Path.{subst₂}
use native.Mathlib.Nat.{add-zero}
use qemu_pdes.Base.{
  ℕ, ◌≤◌, ◌≡◌, refl, sym, ap, ◌∙◌, Bool, true, false, List, [], ◌∷◌, ◌++◌, arith, if◌then◌else◌,
  Option,
}
use qemu_pdes.Comm.Message.{Message, msg_type_sync, permission_to_end_emulation}
use qemu_pdes.Node.{Node, PdesEngine, PdesWwt, Effect, no_timer}
use qemu_pdes.Node.Always.{count_kind-snoc}
use qemu_pdes.Engine.Process.Kinds.{end_message, ended}
use qemu_pdes.System.Wire.{Good, good_end, Wire-snoc, syncs, permissions, is_kind}
use qemu_pdes.System.Invariant.{Phase, Barrier, Stream, Inv}

pub Stream-snoc :
    {q : ℕ} {role : Bool} {wire base : List Message} {n : Node} (m : Message) (e : PdesEngine)
    → e.master ≡ role
    → Good role q (syncs n.outbox) (permissions n.outbox) m
    → Stream q role wire base n
    → Stream q role wire base (record n { engine = e; outbox = n.outbox ++ (m ∷ []) })
Stream-snoc {q} {role} {wire} {base} {n} m e r g s = record {
  master = r;
  own = Wire-snoc role q 0 0 n.outbox m s.own (
      subst₂ (λ (a b : ℕ). Good role q a b m) (sym (add-zero (syncs n.outbox)))
        (sym (add-zero (permissions n.outbox))) g);
  other = s.other;
  rest = s.rest;
  split = s.split;
  more = s.more ++ (m ∷ []);
  grown = ap (λ (l : List Message). l ++ (m ∷ [])) s.grown ∙ append_assoc base s.more (m ∷ []);
}

-- The message of a kind other than a sync leaves the barrier alone.
pub Barrier-snoc :
    {phase : Phase} {wire outbox received : List Message} {w : PdesWwt} (m : Message)
    → is_kind msg_type_sync m ≡ 0
    → Barrier phase wire outbox received w
    → Barrier phase wire (outbox ++ (m ∷ [])) received w
Barrier-snoc {outbox = outbox} m z b = record {
  at_round = b.at_round;
  at_finished = b.at_finished;
  at_timer = b.at_timer;
  sent = omega (arith, b, count_kind-snoc msg_type_sync outbox m);
  heard = b.heard;
  lead = b.lead;
  small = b.small;
  counts = b.counts;
}

module _ {q : ℕ} {phase : Phase} {role : Bool} {wire base : List Message} where
  pub choose-Inv :
      (b : Bool) {n k : Node}
      → Inv q phase role wire base n
      → Inv q phase role wire base k
      → Inv q phase role wire base (if b then n else k)
  choose-Inv true i j = i
  choose-Inv false i j = j

  -- The one END_OF_EMULATION of a node that is permitted to exit.
  pub ended-Inv :
      {n : Node}
      → Inv q phase role wire base n
      → n.engine.permitted_to_exit ≡ true
      → (role ≡ true → 1 ≤ permissions n.outbox)
      → Inv q phase role wire base (ended n)
  ended-Inv {n} i p order = choose-Inv n.engine.end_message_sent i (record {
    fixed = ground (arith, i.fixed);
    pending = i.pending;
    clock = ground (arith, i.clock);
    barrier = Barrier-snoc (end_message n) refl i.barrier;
    grant =
        ground
          (arith, i.grant, count_kind-snoc permission_to_end_emulation n.outbox (end_message n));
    streams =
        Stream-snoc (end_message n) (record n.engine { end_message_sent = true }) i.streams.master
          (good_end refl refl order) i.streams;
  })

-- The fields of the engine that the invariant speaks of.
pub record SameFlags (e e' : PdesEngine) : Type 0 where
  pub connected : e'.connected ≡ e.connected
  pub first : e'.first_sync_virtual_time ≡ e.first_sync_virtual_time
  pub first_sync : e'.first_sync_time ≡ e.first_sync_time
  pub needs : e'.needs_to_checkpoint ≡ e.needs_to_checkpoint
  pub permitted : e'.permitted_to_exit ≡ e.permitted_to_exit
  pub finished : e'.pair_has_finished ≡ e.pair_has_finished
  pub master : e'.master ≡ e.master

module _ {q : ℕ} {phase : Phase} {role : Bool} {wire base : List Message} where
  pub Inv-engine :
      {n : Node} (e : PdesEngine)
      → SameFlags n.engine e
      → Inv q phase role wire base n
      → Inv q phase role wire base (record n { engine = e })
  Inv-engine e s i = record {
    fixed = ground (arith, i.fixed, s);
    pending = i.pending;
    clock = ground (arith, i.clock, s);
    barrier = i.barrier;
    grant = ground (arith, i.grant, s);
    streams = record {
      master = s.master ∙ i.streams.master;
      own = i.streams.own;
      other = i.streams.other;
      rest = i.streams.rest;
      split = i.streams.split;
      more = i.streams.more;
      grown = i.streams.grown;
    };
  }

  -- What the invariant does not speak of: the host's side of a node.
  pub Inv-host :
      {n : Node} (cpu : Option ℕ) (stop : ℕ → Bool) (t : List Effect)
      → Inv q phase role wire base n
      → Inv q phase role wire base (record n { paused_cpu = cpu; cpu_stop = stop; trace = t })
  Inv-host cpu stop t i = record {
    fixed = ground (arith, i.fixed);
    pending = i.pending;
    clock = ground (arith, i.clock);
    barrier = i.barrier;
    grant = ground (arith, i.grant);
    streams = record {
      master = i.streams.master;
      own = i.streams.own;
      other = i.streams.other;
      rest = i.streams.rest;
      split = i.streams.split;
      more = i.streams.more;
      grown = i.streams.grown;
    };
  }

  -- The check of the barrier is cancelled.
  pub Inv-idle :
      {n : Node}
      → Inv q phase role wire base n
      → Inv q
          (record phase { idle = true })
          role
          wire
          base
          (record n { wwt = record n.wwt { sync_check_timer = no_timer } })
  Inv-idle i = record {
    fixed = ground (arith, i.fixed);
    pending = i.pending;
    clock = ground (arith, i.clock);
    barrier = record {
      at_round = i.barrier.at_round;
      at_finished = i.barrier.at_finished;
      at_timer = refl;
      sent = i.barrier.sent;
      heard = i.barrier.heard;
      lead = i.barrier.lead;
      small = i.barrier.small;
      counts = i.barrier.counts;
    };
    grant = ground (arith, i.grant);
    streams = ground (arith, i.streams);
  }
