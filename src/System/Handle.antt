-- ===== src/System/Handle.antt =====
-- Every callback that can run at a node of the pair.
use qemu_pdes.Base.{
  ℕ, ◌+◌, ◌*◌, ◌-◌, ◌^◌, ◌<◌, ◌≤◌, ◌≡◌, refl, ap, Bool, true, false, not, List, [], ◌∷◌, ◌++◌,
  arith, length, ltb, ◌==◌, All-at, Bool-cases, inl, inr,
}
use qemu_pdes.Base.Word.{add64}
use qemu_pdes.Comm.Message.{
  Message, max_msg_size, msg_type_sync, permission_to_end_emulation, intent_to_end_emulation,
  create_message, read_at,
}
use qemu_pdes.Node.{Node, PdesEngine, MessageReceiveContext, no_bh, vm_stop, deliver}
use qemu_pdes.Node.Monad.{Outcome, set_engine, ◌>>◌}
use qemu_pdes.Node.Always.{count_kind-snoc}
use qemu_pdes.Node.Channel.{pdes_comm_send}
use qemu_pdes.Node.Ends.{Ends, Holds, Ends-map, when-Holds, after-Holds, if-Ends}
use qemu_pdes.Utility.{get_universal_virtual_time, process_message_at_virtual_time}
use qemu_pdes.Utility.Time.{universal, universal-eq-sub}
use qemu_pdes.Engine.Exit.{send_control, can_stop, ask_to_stop, permit}
use qemu_pdes.Engine.Pause.{pdes_pause_bh}
use qemu_pdes.Netdev.{pdes_net_receive}
use qemu_pdes.Netdev.Delivery.{IsSetUp, packet_message, wwt_send_lem}
use qemu_pdes.Callbacks.{
  Event, advance, arrive, setup_timer_fires, quantum_timer_fires, sync_check_timer_fires,
  poll_timer_fires, message_timer_fires, pause_bh_runs, checkpoint_bh_runs, packet_sent,
  flexus_asks_to_stop, flexus_stops, checkpoint_signal, snapshot_asked, handle,
}
use qemu_pdes.System.{Enabled}
use qemu_pdes.System.Wire.{Good, good_packet, good_intent, syncs, permissions}
use qemu_pdes.System.Invariant.{Deliverable, Phase, Stream, Inv}
use qemu_pdes.System.Send.{Stream-snoc, Barrier-snoc, SameFlags, Inv-engine, Inv-host}
use qemu_pdes.System.Barrier.{poll-Inv, destroy-Inv}
use qemu_pdes.System.Pass.{permit-Inv}
use qemu_pdes.System.Check.{Resting, Left, check-Inv}
use qemu_pdes.System.Finish.{quanta-Inv}

module _ (q : ℕ) (phase : Phase) (role : Bool) (wire base : List Message) where
  abbrev P : Node → Type 0
  P = Inv q phase role wire base

  advance-Inv :
      (v h t : ℕ) (n : Node)
      → P n
      → Enabled q wire (advance v h t) n
      → P (record n { virtual_ns = v; host_ns = h; realtime_ns = t })
  advance-Inv v h t n i e = record {
    fixed = ground (arith, i.fixed, e);
    pending = i.pending;
    clock = record { late = e.2; early = omega (arith, i.clock.early, e.1); at_end = λ f. cc };
    barrier = i.barrier;
    grant = ground (arith, i.grant);
    streams = record {
      master = i.streams.master;
      own = i.streams.own;
      other = i.streams.other;
      rest = i.streams.rest;
      split = i.streams.split;
      more = i.streams.more;
      grown = i.streams.grown;
    };
  }

  arrive-Inv :
      (batches : List (List Message)) (n : Node)
      → P n
      → Enabled q wire (arrive batches) n
      → P (record n { arriving = n.arriving ++ batches })
  arrive-Inv batches n i e = record {
    fixed = ground (arith, i.fixed);
    pending = i.pending;
    clock = ground (arith, i.clock);
    barrier = i.barrier;
    grant = ground (arith, i.grant);
    streams = record {
      master = i.streams.master;
      own = i.streams.own;
      other = i.streams.other;
      rest = e.0;
      split = e.1;
      more = i.streams.more;
      grown = i.streams.grown;
    };
  }

  message_timer-Inv :
      (ctx : MessageReceiveContext) (n : Node)
      → P n
      → Enabled q wire (message_timer_fires ctx) n
      → Holds P (process_message_at_virtual_time ctx n)
  unfolding process_message_at_virtual_time read_at
  message_timer-Inv ctx n i (before, behind, e) = ground (
    arith,
    All-at Deliverable before ctx behind (rw e at i.pending),
    λ (bytes : List ℕ). Inv-host n.paused_cpu n.cpu_stop (n.trace ++ (deliver bytes ∷ [])) i,
  )

  pause_bh-Inv : (n : Node) → P n → Holds P (pdes_pause_bh n)
  unfolding pdes_pause_bh
  pause_bh-Inv n i =
      Inv-engine (record n.engine { pause_bh = no_bh }) (ground arith)
        (Inv-host n.paused_cpu n.cpu_stop (n.trace ++ (vm_stop ∷ [])) i)

  -- A message that is no sync and no control message that the invariant counts.
  sent-Inv :
      (m : Message) (e : PdesEngine) (n : Node)
      → SameFlags n.engine e
      → (m.kind == msg_type_sync) ≡ false
      → (m.kind == permission_to_end_emulation) ≡ false
      → Stream q role wire base (record n { engine = e; outbox = n.outbox ++ (m ∷ []) })
      → P n
      → P (record n { engine = e; outbox = n.outbox ++ (m ∷ []) })
  sent-Inv m e n s x y t i = record {
    fixed = ground (arith, i.fixed, s);
    pending = i.pending;
    clock = ground (arith, i.clock, s);
    barrier = Barrier-snoc m (ground arith) i.barrier;
    grant = ground (arith, i.grant, s, count_kind-snoc permission_to_end_emulation n.outbox m);
    streams = t;
  }

  set_up : (n : Node) → P n → IsSetUp n
  set_up n i = record {
    connected = i.fixed.connected;
    first_virtual = omega (arith, i.fixed);
    first_sync = i.fixed.first_sync;
  }

  -- A packet is due after the quantum in which it is sent.
  packet_due :
      (n : Node)
      → P n
      → phase.owed ≡ 0
      → let t = (n.virtual_ns - n.engine.first_sync_virtual_time) + q in
        (add64 (universal n) n.wwt.latencyns ≡ t) × (syncs n.outbox * q ≤ t) × (t < 2 ^ 63)
  packet_due n i z =
      let u : universal n ≡ n.virtual_ns - n.engine.first_sync_virtual_time =
        universal-eq-sub n i.fixed.first (omega (arith, i.fixed)) in
      let e : add64 (universal n) n.wwt.latencyns
          ≡ (n.virtual_ns - n.engine.first_sync_virtual_time) + q =
        omega (arith, u, i.fixed) in
      let due : syncs n.outbox * q ≤ (n.virtual_ns - n.engine.first_sync_virtual_time) + q =
        elim (Bool-cases n.wwt.finished_quantum) [
          | inl f ↦
              let s : syncs n.outbox ≡ n.wwt.current_quantum_round + 1 =
                ground (arith, i.barrier.sent) in
              let same : syncs n.outbox * q ≡ (n.wwt.current_quantum_round + 1) * q =
                ap (λ (x : ℕ). x * q) s in
              omega (arith, same, i.clock.at_end f)
          | inr f ↦
              let s : syncs n.outbox ≡ n.wwt.current_quantum_round =
                ground (arith, i.barrier.sent) in
              let same : syncs n.outbox * q ≡ n.wwt.current_quantum_round * q =
                ap (λ (x : ℕ). x * q) s in
              omega (arith, same, i.clock.early, i.fixed.first)
        ] in
      (e, due, omega (arith, i.fixed))

  packet-Inv :
      (bytes : List ℕ) (n : Node)
      → P n
      → phase.owed ≡ 0
      → 0 < length bytes
      → length bytes ≤ max_msg_size
      → Holds P (pdes_net_receive bytes n)
  unfolding pdes_net_receive
  packet-Inv bytes n i z filled short =
      let m = packet_message bytes n in
      let d = packet_due n i z in
      let fits : ltb max_msg_size (length bytes) ≡ false = ground arith in
      let good : Good role q (syncs n.outbox) (permissions n.outbox) m =
        good_packet refl (rw (d.0) (d.1)) (rw (d.0) (d.2)) filled short in
      let j =
        sent-Inv m n.engine n (ground arith) refl refl
          (Stream-snoc m n.engine i.streams.master good i.streams) i in
      simp (wwt_send_lem bytes (set_up n i), fits) j

  intent-Inv :
      (n : Node)
      → P n
      → n.engine.master ≡ false
      → Holds P (
          (do
            send_control intent_to_end_emulation
            set_engine (λ e. record e { intent_sent = true }))
            n)
  unfolding get_universal_virtual_time create_message pdes_comm_send
  intent-Inv n i f =
      let m : Message = record {
        ts_ns = universal n;
        len = 0;
        payload = [];
        kind = intent_to_end_emulation;
      } in
      let e = record n.engine { intent_sent = true } in
      let j =
        sent-Inv m e n (ground arith) refl refl
          (Stream-snoc m e i.streams.master (good_intent refl refl) i.streams) i in
      ground (arith, j, i.fixed)

  ask-Inv : (n : Node) → P n → Holds P (ask_to_stop n)
  unfolding ask_to_stop
  ask-Inv n i =
      let D = λ (_ : Node). ⊥ in
      if-Ends (λ _. P) D D (not n.engine.master) _ _ n
        (λ f. when-Holds P (not n.engine.intent_sent) _ n i (λ _. intent-Inv n i (ground arith)))
        (λ f. when-Holds P _ permit n i (λ _. permit-Inv q phase role wire base n i (ground arith)))

  can_stop-Inv : (n : Node) → P n → Holds P (can_stop n)
  unfolding can_stop
  can_stop-Inv n i =
      after-Holds P (ask_to_stop n) _ (ask-Inv n i)
        (λ _ k j. Inv-engine (record k.engine { ready_to_exit = true }) (ground arith) j)

module _ (q : ℕ) (role : Bool) (wire base : List Message) where
  abbrev Outcomes : Outcome (Unit {0}) → Type 0
  Outcomes o =
      Ends (λ _. Resting q role wire base) (Left q role wire base) (Resting q role wire base) o

  returns :
      (r : ℕ) (f : Bool) (o : Outcome (Unit {0}))
      → Holds (Inv q (record { round = r; finished = f; owed = 0; idle = not f }) role wire base) o
      → Outcomes o
  returns r f o =
      Ends-map (λ _. Inv q _ role wire base) (λ _. Resting q role wire base) (λ _. ⊥)
        (Left q role wire base) (λ _. ⊥) (Resting q role wire base) o (λ _ n j. (r, f, j))
        (λ _ x. absurd x) (λ _ x. absurd x)

  quantum_timer-Inv :
      (n : Node) (r : ℕ) (f : Bool)
      → Inv q (record { round = r; finished = f; owed = 0; idle = not f }) role wire base n
      → Enabled q wire quantum_timer_fires n
      → Outcomes (handle quantum_timer_fires n)
  unfolding handle
  quantum_timer-Inv n r true i e = absurd (ground (arith, i.barrier.at_finished, e.0))
  quantum_timer-Inv n r false i e = returns r true _ (quanta-Inv q r role wire base n i e.1 e.2)

  sync_check_timer-Inv :
      (n : Node) (r : ℕ) (f : Bool)
      → Inv q (record { round = r; finished = f; owed = 0; idle = not f }) role wire base n
      → Enabled q wire sync_check_timer_fires n
      → Outcomes (handle sync_check_timer_fires n)
  unfolding handle
  sync_check_timer-Inv n r false i e = absurd (ground (arith, i.barrier.at_finished, e.0))
  sync_check_timer-Inv n r true i e =
      check-Inv q r role wire base (omega (arith, e.1, i.barrier.at_round)) n i

  -- Whatever callback runs, no assertion of the node fails.
  pub handle-Inv :
      (e : Event) (n : Node)
      → Resting q role wire base n
      → Enabled q wire e n
      → Outcomes (handle e n)
  unfolding handle
  handle-Inv (advance v h t) n (r, f, i) e = (r, f, advance-Inv q _ role wire base v h t n i e)
  handle-Inv (arrive batches) n (r, f, i) e = (r, f, arrive-Inv q _ role wire base batches n i e)
  handle-Inv quantum_timer_fires n (r, f, i) e = quantum_timer-Inv n r f i e
  handle-Inv sync_check_timer_fires n (r, f, i) e = sync_check_timer-Inv n r f i e
  handle-Inv poll_timer_fires n (r, f, i) e = returns r f _ (poll-Inv q _ role wire base n i)
  handle-Inv (message_timer_fires ctx) n (r, f, i) e =
      returns r f _ (message_timer-Inv q _ role wire base ctx n i e)
  handle-Inv pause_bh_runs n (r, f, i) e = returns r f _ (pause_bh-Inv q _ role wire base n i)
  handle-Inv (packet_sent bytes) n (r, f, i) e =
      let P' = Inv q (record { round = r; finished = f; owed = 0; idle = not f }) role wire base in
      returns r f _ (
        after-Holds P' (pdes_net_receive bytes n) _
          (packet-Inv q _ role wire base bytes n i refl e.0 e.1) (λ _ _ j. j))
  handle-Inv flexus_asks_to_stop n (r, f, i) e =
      let P' = Inv q (record { round = r; finished = f; owed = 0; idle = not f }) role wire base in
      returns r f _
        (after-Holds P' (can_stop n) _ (can_stop-Inv q _ role wire base n i) (λ _ _ j. j))
  handle-Inv flexus_stops n (r, f, i) e =
      Ends-map (λ _. Resting q role wire base) (λ _. Resting q role wire base) _
        (Left q role wire base) _ (Resting q role wire base) _ (λ _ _ j. j) (λ _ x. (_, x.1))
        (λ _ x. (r, f, x)) (destroy-Inv q _ role wire base (λ _. Resting q role wire base) n i)
  handle-Inv setup_timer_fires n w e = absurd e
  handle-Inv (checkpoint_bh_runs b) n w e = absurd e
  handle-Inv checkpoint_signal n w e = absurd e
  handle-Inv (snapshot_asked name) n w e = absurd e
