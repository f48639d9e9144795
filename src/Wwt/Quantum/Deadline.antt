-- ===== src/Wwt/Quantum/Deadline.antt =====
-- The barrier sets the end of the next quantum to its quantum time.
use qemu_pdes.Base.{
  ℕ, ◌+◌, ◌^◌, ◌<◌, ◌≡◌, ◌≢◌, Bool, true, false, Option, none, some, not, ◌||◌, arith,
}
use qemu_pdes.Base.Word.{u64, add64, mul64, minus_one64, sub64-add64}
use qemu_pdes.Node.{Node, Flexus, armed}
use qemu_pdes.Node.Monad.{Outcome, ret, fault, exited, spinning}
use qemu_pdes.Utility.{get_universal_virtual_time}
use qemu_pdes.Engine.Pause.{pdes_play}
use qemu_pdes.Wwt.Sync.{next_quantum, is_no_timer}
use qemu_pdes.Wwt.Quantum.{get_quantum_time_local, get_quantum_time_universal}

-- The assertion of `pdes_play` holds.
abbrev pub can_play : Option Flexus → Bool
can_play none = true
can_play (some f) = f.has_resume || not f.has_stop

abbrev pub at_time : ℕ → Node → Node
at_time t n = record n { virtual_ns = t }

abbrev universal_deadline : ℕ → Node → ℕ
universal_deadline round n = mul64 round n.wwt.quantum_ns

abbrev deadline : ℕ → Node → ℕ
deadline round n = add64 (universal_deadline round n) n.engine.first_sync_virtual_time

-- A node in round `round`, whose timer goes off at the end of that quantum.
abbrev pub EndsAt : ℕ → Outcome (Unit {0}) → Type 0
EndsAt round (ret u n) =
    (n.wwt.current_quantum_round ≡ round)
    × (n.wwt.quantum_timer ≡ armed (deadline round n))
    × (get_quantum_time_local round n ≡ ret (deadline round n) n)
    × (get_quantum_time_universal round n ≡ ret (universal_deadline round n) n)
    × (get_universal_virtual_time (at_time (deadline round n) n)
        ≡ ret (universal_deadline round n) (at_time (deadline round n) n))
EndsAt round (fault e) = ⊥
EndsAt round (exited n) = ⊥
EndsAt round (spinning n) = ⊥

-- What `next_quantum` computes in place is the quantum time of the next round: at a node that is
-- set up, has its timer and can be resumed, it returns with the timer of the quantum at
-- `get_quantum_time_local` of the new round, and when the clock shows that time, the universal time
-- is `get_quantum_time_universal` of the round, whatever the node's first sync time was.
pub next_quantum-EndsAt :
    (n : Node)
    → n.engine.first_sync_virtual_time ≢ minus_one64
    → n.engine.first_sync_virtual_time < 2 ^ 64
    → is_no_timer n.wwt.quantum_timer ≡ false
    → can_play n.flexus ≡ true
    → EndsAt (u64 (n.wwt.current_quantum_round + 1)) (next_quantum n)
unfolding next_quantum pdes_play get_quantum_time_local get_quantum_time_universal
    get_universal_virtual_time
next_quantum-EndsAt n t s a p = grind (arith, sub64-add64)
