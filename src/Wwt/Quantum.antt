-- ===== src/Wwt/Quantum.antt =====
-- `get_quantum_time_universal` and `get_quantum_time_local` of net/pdes-wwt.c, which the disabled
-- test of the drift and nothing else uses: the ends of quanta as the barrier sets them.
pub mod Deadline
use qemu_pdes.Base.{ℕ}
use qemu_pdes.Base.Word.{add64, mul64}
use qemu_pdes.Node.Monad.{M, wwt, engine, ◌>>=◌, pure}

unfoldable pub get_quantum_time_universal : ℕ → M ℕ
get_quantum_time_universal quantum_round = do
  quantum ← wwt (λ w. w.quantum_ns)
  pure (mul64 quantum_round quantum)

unfoldable pub get_quantum_time_local : ℕ → M ℕ
unfolding get_quantum_time_universal
get_quantum_time_local quantum_round = do
  time ← get_quantum_time_universal quantum_round
  first ← engine (λ e. e.first_sync_virtual_time)
  pure (add64 time first)
