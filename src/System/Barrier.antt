-- ===== src/System/Barrier.antt =====
-- A node of the pair at the barrier: `quanta_sync` and `wwt_sync_check` meet no fault, and a node
-- passes only when its neighbour has finished the same quantum.
use mathlib.Core.List.{append_assoc}
use qemu_pdes.Base.{
  ℕ, zero, suc, ◌≤◌, ◌≡◌, refl, sym, ap, ◌∙◌, Bool, true, false, not, List, [], ◌∷◌, ◌++◌, arith,
  if◌then◌else◌, Bool-cases, inl, inr,
}
use qemu_pdes.Comm.Message.{Message, permission_to_end_emulation}
use qemu_pdes.Node.{Node, Effect, flexus_stop}
use qemu_pdes.Node.Always.{count_kind-append}
use qemu_pdes.Node.Ends.{Ends, Holds, after-Ends, if-Ends, Holds-weaken, when-Holds}
use qemu_pdes.Engine.Exit.{
  send_end_if_handshake_complete, notify_neighbours_of_end, checkpoint_or_exit, pdes_engine_destroy,
}
use qemu_pdes.Engine.Process.{pdes_engine_poll}
use qemu_pdes.Engine.Process.Poll.{accepted}
use qemu_pdes.Engine.Process.PollEnds.{poll-Holds}
use qemu_pdes.Engine.Process.Kinds.{send_end_lem, send_end_skip, exit_lem, exit_trace}
use qemu_pdes.Wwt.Sync.{
  is_waiting, is_waiting_for_quanta, leave_with_neighbor, wait_loop, has_flexus_stop,
}
use qemu_pdes.System.{stream, flat}
use qemu_pdes.System.Wire.{permissions, permissions-Wire}
use qemu_pdes.System.Invariant.{Phase, Inv}
use qemu_pdes.System.Send.{ended-Inv, Inv-engine, Inv-host, Inv-idle}
use qemu_pdes.System.Receive.{receive-Inv, len_small}

leave_trace : Node → List Effect
leave_trace n = if has_flexus_stop n.flexus then n.trace ++ (flexus_stop ∷ []) else n.trace

leave_lem :
    (n : Node)
    → n.engine.permitted_to_exit ≡ true
    → leave_with_neighbor n ≡ pdes_engine_destroy (record n { trace = leave_trace n })
unfolding leave_with_neighbor leave_trace
leave_lem n p = ground arith

module _ (q : ℕ) (phase : Phase) (role : Bool) (wire base : List Message) where
  abbrev pub P : Node → Type 0
  P = Inv q phase role wire base

  -- A node that has left the emulation, with its check of the barrier cancelled or not.
  abbrev pub Gone : Node → Type 0
  Gone n = (idle : Bool) × Inv q (record phase { idle = idle }) role wire base n

  pub gone : (n : Node) → P n → Gone n
  gone n i = (phase.idle, i)

  accept-Inv :
      (n : Node) (batch : List Message) (later : List (List Message))
      → n.arriving ≡ batch ∷ later
      → P n
      → P (accepted batch later n)
  accept-Inv n batch later e i = record {
    fixed = ground (arith, i.fixed);
    pending = i.pending;
    clock = ground (arith, i.clock);
    barrier = i.barrier;
    grant = ground (arith, i.grant);
    streams = record {
      master = i.streams.master;
      own = i.streams.own;
      other = i.streams.other;
      rest = i.streams.rest;
      split =
          ap (λ (l : List Message). (n.received ++ l) ++ i.streams.rest)
            (append_assoc n.inbox batch (flat later)
              ∙ ap (λ (l : List (List Message)). n.inbox ++ flat l) (sym e))
          ∙ i.streams.split;
      more = i.streams.more;
      grown = i.streams.grown;
    };
  }

  pub poll-Inv : (n : Node) → P n → Holds P (pdes_engine_poll n)
  poll-Inv =
      poll-Holds P (λ m rest n e i. receive-Inv i m rest e)
        (λ m rest n e i. omega (arith, len_small i m rest e)) accept-Inv

  -- A master that is permitted to exit has given its permission.
  pub permission_given :
      {n : Node} → P n → n.engine.permitted_to_exit ≡ true → role ≡ true → 1 ≤ permissions n.outbox
  permission_given {n} i p r =
      let none_heard : permissions wire ≡ 0 =
        permissions-Wire (not role) q 0 0 wire (ap not r) i.streams.other in
      ground (
        arith,
        i.grant.granted,
        ap permissions i.streams.split,
        count_kind-append permission_to_end_emulation (stream n) i.streams.rest,
        count_kind-append permission_to_end_emulation n.received (n.inbox ++ flat n.arriving),
        none_heard,
        p,
      )

  pub send_end-Inv : (n : Node) → P n → Holds P (send_end_if_handshake_complete n)
  send_end-Inv n i = elim (Bool-cases n.engine.permitted_to_exit) [
    | inl p ↦
        rw (send_end_lem n (omega (arith, i.fixed)) i.fixed.connected p)
          (ended-Inv i p (permission_given i p))
    | inr p ↦ rw (send_end_skip n p) i
  ]

  notify_end-Inv : (n : Node) → P n → Holds P (notify_neighbours_of_end n)
  unfolding notify_neighbours_of_end
  notify_end-Inv n i =
      let n' = record n { engine = record n.engine { notified_neighbors_for_exit = true } } in
      let i' : P n' = Inv-engine n'.engine (ground arith) i in
      when-Holds P (not n.engine.notified_neighbors_for_exit) send_end_if_handshake_complete n' i'
        (λ _. send_end-Inv n' i')

  exits : (R : Unit {0} → Node → Type 0) (n : Node) → P n → Ends R Gone P (checkpoint_or_exit n)
  exits R n i =
      rw (exit_lem n i.fixed.no_checkpoint)
        (true, Inv-idle (Inv-host n.paused_cpu n.cpu_stop (exit_trace n) i))

  -- Without a checkpoint `pdes_engine_destroy` leaves.
  pub destroy-Inv :
      (R : Unit {0} → Node → Type 0) (n : Node) → P n → Ends R Gone P (pdes_engine_destroy n)
  unfolding pdes_engine_destroy
  destroy-Inv R n i =
      after-Ends (λ _. P) R Gone P (notify_neighbours_of_end n) _
        (Holds-weaken P Gone P (notify_neighbours_of_end n) (notify_end-Inv n i))
        (λ _ k j. exits R k j)

  leave-Inv :
      (R : Unit {0} → Node → Type 0) (n : Node)
      → P n
      → n.engine.pair_has_finished ≡ true
      → Ends R Gone P (leave_with_neighbor n)
  unfolding leave_with_neighbor
  leave-Inv R n i f =
      let p : n.engine.permitted_to_exit ≡ true = ground (arith, i.grant.partner) in
      rw (leave_lem n p) (destroy-Inv R _ (Inv-host n.paused_cpu n.cpu_stop (leave_trace n) i))

  pub waiting-Inv :
      (n : Node) → P n → Ends (λ w k. P k × (w ≡ is_waiting k.wwt)) Gone P (is_waiting_for_quanta n)
  unfolding is_waiting_for_quanta
  waiting-Inv n i =
      after-Ends (λ _. P) (λ w k. P k × (w ≡ is_waiting k.wwt)) Gone P (pdes_engine_poll n) _
        (Holds-weaken P Gone P (pdes_engine_poll n) (poll-Inv n i)) (λ _ k j. (j, refl))

  -- The loop ends with a sync of this round counted, or by leaving.
  abbrev pub Passed : Bool → Node → Type 0
  Passed left k = (left ≡ false) × P k × (is_waiting k.wwt ≡ false)

  pub wait_loop-Inv :
      (fuel : ℕ) (w : Bool) (n : Node)
      → P n
      → w ≡ is_waiting n.wwt
      → Ends Passed Gone P (wait_loop fuel w n)
  unfolding wait_loop
  wait_loop-Inv zero true n i e = i
  wait_loop-Inv zero false n i e = (refl, i, sym e)
  wait_loop-Inv (suc fuel) false n i e = (refl, i, sym e)
  wait_loop-Inv (suc fuel) true n i e =
      after-Ends (λ _. P) Passed Gone P (pdes_engine_poll n) _
        (Holds-weaken P Gone P (pdes_engine_poll n) (poll-Inv n i))
        (λ _ k j.
          if-Ends Passed Gone P k.engine.pair_has_finished _ _ k
            (λ f.
              after-Ends (λ _ _. ⊥) Passed Gone P (leave_with_neighbor k) _
                (leave-Inv (λ _ _. ⊥) k j f) (λ _ l x. absurd x))
            (λ _.
              after-Ends (λ w l. P l × (w ≡ is_waiting l.wwt)) Passed Gone P
                (is_waiting_for_quanta k) _ (waiting-Inv k j)
                (λ w l x. wait_loop-Inv fuel w l x.0 x.1)))
