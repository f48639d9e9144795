-- ===== src/System/Start.antt =====
-- A node of the pair starts its next quantum.
use qemu_pdes.Base.{
  ℕ, ◌+◌, ◌*◌, ◌^◌, ◌<◌, ◌≡◌, refl, ap, Bool, true, false, List, [], ◌∷◌, ◌++◌, arith, Option, none,
  some, if◌then◌else◌, ◌==◌,
}
use qemu_pdes.Base.Word.{u64, sub64, add64, mul64}
use qemu_pdes.Comm.Message.{Message}
use qemu_pdes.Node.{Node, Flexus, Timer, no_timer, stopped, armed, vm_start, flexus_resume, Effect}
use qemu_pdes.Node.Monad.{ret, timer_mod}
use qemu_pdes.Node.Ends.{Holds, when-Holds}
use qemu_pdes.Engine.Pause.{pdes_play}
use qemu_pdes.Wwt.Sync.{next_quantum, is_no_timer}
use qemu_pdes.System.Wire.{syncs}
use qemu_pdes.System.Invariant.{Phase, Inv}
use qemu_pdes.System.Send.{Inv-engine, Inv-host}

module _ (q : ℕ) (phase : Phase) (role : Bool) (wire base : List Message) where
  abbrev P : Node → Type 0
  P = Inv q phase role wire base

  abbrev playing : Node → Option ℕ → (ℕ → Bool) → List Effect → Node
  playing n cpu stop t = record n {
    engine = record n.engine { paused = false };
    paused_cpu = cpu;
    cpu_stop = stop;
    trace = t;
  }

  playing-Inv :
      (n : Node) (cpu : Option ℕ) (stop : ℕ → Bool) (t : List Effect)
      → P n
      → P (playing n cpu stop t)
  playing-Inv n cpu stop t i =
      Inv-host cpu stop t (Inv-engine (record n.engine { paused = false }) (ground arith) i)

  abbrev with_host : Option Flexus → Option ℕ → Node → Node
  with_host f cpu n = record n { flexus = f; paused_cpu = cpu }

  play_cases :
      (f : Option Flexus) (cpu : Option ℕ) (n : Node)
      → P (with_host f cpu n)
      → Holds P (pdes_play (with_host f cpu n))
  unfolding pdes_play
  play_cases none none n i =
      playing-Inv (with_host none none n) none n.cpu_stop (n.trace ++ (vm_start ∷ [])) i
  play_cases none (some c) n i =
      playing-Inv (with_host none (some c) n) none (λ k. if k == c then false else n.cpu_stop k)
        (n.trace ++ (vm_start ∷ [])) i
  play_cases (some f) cpu n i = simp (i.fixed.flexus_ok.1) (
      playing-Inv (with_host (some f) cpu n) cpu n.cpu_stop
        ((n.trace ++ (vm_start ∷ [])) ++ (flexus_resume ∷ [])) i)

  pub play-Inv : (n : Node) → P n → Holds P (pdes_play n)
  play-Inv n i = play_cases n.flexus n.paused_cpu n i

-- The state of the next quantum, before the processors run again.
abbrev pub next_state : Node → Node
next_state k = record k {
  wwt = record k.wwt {
    number_of_neighbors_finished =
        sub64 k.wwt.number_of_neighbors_finished k.wwt.number_of_neighbors;
    current_quantum_round = u64 (k.wwt.current_quantum_round + 1);
    finished_quantum = false;
    quantum_timer = armed (
        add64 (mul64 (u64 (k.wwt.current_quantum_round + 1)) k.wwt.quantum_ns)
          k.engine.first_sync_virtual_time);
  };
}

module _ (q r : ℕ) (role : Bool) (wire base : List Message) where
  abbrev pub AtEnd : Node → Type 0
  AtEnd = Inv q (record { round = r; finished = true; owed = 0; idle = true }) role wire base

  abbrev pub Began : Node → Type 0
  Began = Inv q (record { round = r + 1; finished = false; owed = 0; idle = true }) role wire base

  next_state-Inv :
      (k : Node) → AtEnd k → r + 2 < 2 ^ 32 → r < syncs k.received → Began (next_state k)
  next_state-Inv k i small heard =
      let up : u64 (k.wwt.current_quantum_round + 1) ≡ r + 1 = omega (arith, i.barrier) in
      let same : k.wwt.current_quantum_round * q ≡ r * q =
        ap (λ (x : ℕ). x * q) i.barrier.at_round in
      let grow : (r + 1) * q ≡ r * q + q = omega arith in
      let here = i.clock.at_end i.barrier.at_finished in
      record {
        fixed = ground (arith, i.fixed);
        pending = i.pending;
        clock = record {
          late = rw up (omega (arith, i.clock.late, same, grow));
          early = rw up (omega (arith, here, same, grow));
          at_end = λ e. cc;
        };
        barrier = record {
          at_round = up;
          at_finished = refl;
          at_timer = i.barrier.at_timer;
          sent = rw up (ground (arith, i.barrier));
          heard = rw up (omega (arith, heard));
          lead = rw up (ground (arith, i.barrier));
          small = rw up (omega arith);
          counts = i.barrier.counts;
        };
        grant = ground (arith, i.grant);
        streams = record {
          master = i.streams.master;
          own = i.streams.own;
          other = i.streams.other;
          rest = i.streams.rest;
          split = i.streams.split;
          more = i.streams.more;
          grown = i.streams.grown;
        };
      }

  with_timer :
      (t : Timer) (v : ℕ) (n : Node) → is_no_timer t ≡ false → timer_mod t v n ≡ ret (armed v) n
  with_timer no_timer v n e = cc
  with_timer stopped v n e = refl
  with_timer (armed t) v n e = refl

  pub next_quantum-Inv :
      (k : Node) → AtEnd k → r + 2 < 2 ^ 32 → r < syncs k.received → Holds Began (next_quantum k)
  unfolding next_quantum
  next_quantum-Inv k i small heard =
      simp (with_timer k.wwt.quantum_timer _ _ i.fixed.has_quantum_timer) (
        when-Holds Began k.wwt.should_sync pdes_play (next_state k) (next_state-Inv k i small heard)
          (λ _. play-Inv q _ role wire base (next_state k) (next_state-Inv k i small heard)))
