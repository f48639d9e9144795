-- ===== src/System/Finish.antt =====
-- `quanta_sync` at a node of the pair: the end of a quantum.
use qemu_pdes.Base.{
  ℕ, ◌+◌, ◌*◌, ◌≡◌, ◌≢◌, refl, ap, Bool, true, false, List, [], ◌∷◌, ◌++◌, arith, Option, none,
  some, if◌then◌else◌, ◌==◌,
}
use qemu_pdes.Base.Word.{minus_one64, add64}
use qemu_pdes.Base.Bytes.{le_bytes, length-le_bytes}
use qemu_pdes.Comm.Message.{Message, msg_type_sync, permission_to_end_emulation, create_message}
use qemu_pdes.Node.{Node, PdesEngine, Flexus, armed, scheduled, no_bh, flexus_pause, Effect}
use qemu_pdes.Node.Monad.{ret, when}
use qemu_pdes.Node.Channel.{pdes_comm_send}
use qemu_pdes.Node.Always.{count_kind-snoc}
use qemu_pdes.Node.Ends.{Holds, after-Ends, when-Holds}
use qemu_pdes.Utility.{get_universal_virtual_time}
use qemu_pdes.Utility.Time.{universal}
use qemu_pdes.Engine.Exit.{pdes_engine_send}
use qemu_pdes.Engine.Process.{pdes_engine_poll}
use qemu_pdes.System.Barrier.{poll-Inv}
use qemu_pdes.Engine.Pause.{pdes_pause}
use qemu_pdes.Wwt.Sync.{send_sync, quanta_sync}
use qemu_pdes.System.Wire.{good_sync, syncs}
use qemu_pdes.System.Invariant.{Phase, Inv}
use qemu_pdes.System.Send.{Stream-snoc, Inv-engine, Inv-host}

module _ (q : ℕ) (phase : Phase) (role : Bool) (wire base : List Message) where
  abbrev P : Node → Type 0
  P = Inv q phase role wire base

  abbrev pausing : PdesEngine → PdesEngine
  pausing e = record e { paused = true; pause_bh = scheduled tt }

  pausing-Inv :
      (n : Node) (cpu : Option ℕ) (stop : ℕ → Bool) (t : List Effect)
      → P n
      → P (record n { engine = pausing n.engine; paused_cpu = cpu; cpu_stop = stop; trace = t })
  pausing-Inv n cpu stop t i = Inv-host cpu stop t (Inv-engine (pausing n.engine) (ground arith) i)

  abbrev unpaused : Option Flexus → Option ℕ → Node → Node
  unpaused f cpu n = record n {
    flexus = f;
    current_cpu = cpu;
    engine = record n.engine { pause_bh = no_bh };
  }

  pause_cases :
      (f : Option Flexus) (cpu : Option ℕ) (n : Node)
      → P (unpaused f cpu n)
      → Holds P (pdes_pause (unpaused f cpu n))
  unfolding pdes_pause
  pause_cases none none n i = pausing-Inv (unpaused none none n) n.paused_cpu n.cpu_stop n.trace i
  pause_cases none (some c) n i =
      pausing-Inv (unpaused none (some c) n) (some c) (λ k. if k == c then true else n.cpu_stop k)
        n.trace i
  pause_cases (some f) cpu n i = simp (i.fixed.flexus_ok.0) (
      pausing-Inv (unpaused (some f) cpu n) n.paused_cpu n.cpu_stop (n.trace ++ (flexus_pause ∷ []))
        i)

  no_pause : (n : Node) → n.engine.pause_bh ≡ no_bh → n ≡ unpaused n.flexus n.current_cpu n
  no_pause n e = ap (λ b. record n { engine = record n.engine { pause_bh = b } }) e

  pub pause-Inv : (n : Node) → n.engine.pause_bh ≡ no_bh → P n → Holds P (pdes_pause n)
  pause-Inv n e i =
      let same = no_pause n e in rw same (pause_cases n.flexus n.current_cpu n (rw (← same) i))

abbrev sync_message : Node → Message
sync_message n = record {
  ts_ns = universal n;
  len = 8;
  payload = le_bytes 8 n.wwt.current_quantum_round;
  kind = msg_type_sync;
}

send_sync_lem :
    (n : Node)
    → n.engine.first_sync_virtual_time ≢ minus_one64
    → n.engine.first_sync_time ≢ minus_one64
    → n.engine.connected ≡ true
    → send_sync n ≡ ret tt (record n { outbox = n.outbox ++ (sync_message n ∷ []) })
unfolding send_sync get_universal_virtual_time create_message pdes_engine_send pdes_comm_send
send_sync_lem n f s c = ground (arith, length-le_bytes 8 n.wwt.current_quantum_round)

module _ (q r : ℕ) (role : Bool) (wire base : List Message) where
  abbrev InQuantum : Node → Type 0
  InQuantum = Inv q (record { round = r; finished = false; owed = 0; idle = true }) role wire base

  abbrev Owes : Node → Type 0
  Owes = Inv q (record { round = r; finished = true; owed = 1; idle = true }) role wire base

  abbrev pub AtBarrier : Node → Type 0
  AtBarrier = Inv q (record { round = r; finished = true; owed = 0; idle = false }) role wire base

  abbrev finished : Node → Node
  finished n = record n { wwt = record n.wwt { finished_quantum = true } }

  finished-Inv :
      (n : Node)
      → InQuantum n
      → n.virtual_ns ≡ n.engine.first_sync_virtual_time + n.wwt.current_quantum_round * q
      → Owes (finished n)
  finished-Inv n i e = record {
    fixed = ground (arith, i.fixed);
    pending = i.pending;
    clock = record { late = i.clock.late; early = i.clock.early; at_end = λ _. e };
    barrier = record {
      at_round = i.barrier.at_round;
      at_finished = refl;
      at_timer = i.barrier.at_timer;
      sent = ground (arith, i.barrier);
      heard = i.barrier.heard;
      lead = ground (arith, i.barrier);
      small = i.barrier.small;
      counts = i.barrier.counts;
    };
    grant = ground (arith, i.grant);
    streams = record {
      master = i.streams.master;
      own = i.streams.own;
      other = i.streams.other;
      rest = i.streams.rest;
      split = i.streams.split;
      more = i.streams.more;
      grown = i.streams.grown;
    };
  }

  -- The state once the sync has gone out and the check is set.
  abbrev waiting_state : Node → Node
  waiting_state n = record n {
    outbox = n.outbox ++ (sync_message n ∷ []);
    wwt = record n.wwt { sync_check_timer = armed (add64 n.realtime_ns 1) };
  }

  waiting_state-Inv : (n : Node) → Owes n → AtBarrier (waiting_state n)
  waiting_state-Inv n i =
      let m = sync_message n in
      let number : n.wwt.current_quantum_round ≡ syncs n.outbox = ground (arith, i.barrier) in
      let s =
        Stream-snoc m n.engine i.streams.master (good_sync refl refl (ap (le_bytes 8) number))
          i.streams in
      record {
        fixed = ground (arith, i.fixed);
        pending = i.pending;
        clock = ground (arith, i.clock);
        barrier = record {
          at_round = i.barrier.at_round;
          at_finished = i.barrier.at_finished;
          at_timer = refl;
          sent = ground (arith, i.barrier.sent, count_kind-snoc msg_type_sync n.outbox m);
          heard = i.barrier.heard;
          lead = i.barrier.lead;
          small = i.barrier.small;
          counts = i.barrier.counts;
        };
        grant = ground (arith, i.grant, count_kind-snoc permission_to_end_emulation n.outbox m);
        streams = record {
          master = s.master;
          own = s.own;
          other = s.other;
          rest = s.rest;
          split = s.split;
          more = s.more;
          grown = s.grown;
        };
      }

  pub quanta-Inv :
      (n : Node)
      → InQuantum n
      → n.engine.pause_bh ≡ no_bh
      → n.virtual_ns ≡ n.engine.first_sync_virtual_time + n.wwt.current_quantum_round * q
      → Holds AtBarrier (quanta_sync n)
  unfolding quanta_sync
  quanta-Inv n i p e =
      let owes : Phase = record { round = r; finished = true; owed = 1; idle = true } in
      let j = finished-Inv n i e in
      let D = λ (_ : Node). ⊥ in
      after-Ends (λ _. Owes) (λ _. AtBarrier) D D (when n.wwt.should_sync pdes_pause (finished n)) _
        (when-Holds Owes n.wwt.should_sync pdes_pause (finished n) j
          (λ _. pause-Inv q owes role wire base (finished n) p j))
        (λ _ k x.
          after-Ends (λ _. Owes) (λ _. AtBarrier) D D (pdes_engine_poll k) _
            (poll-Inv q owes role wire base k x)
            (λ _ l y.
              simp
                (
                  i.fixed.should_sync,
                  y.fixed.no_checkpoint,
                  send_sync_lem l (omega (arith, y.fixed)) y.fixed.first_sync y.fixed.connected,
                  y.barrier.at_timer,
                )
                (waiting_state-Inv l y)))
