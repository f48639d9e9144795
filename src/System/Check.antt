-- ===== src/System/Check.antt =====
-- `wwt_sync_check` at a node of the pair.
use qemu_pdes.Base.{ℕ, suc, ◌+◌, ◌^◌, ◌<◌, ◌≡◌, Bool, true, false, not, List, length}
use qemu_pdes.Comm.Message.{Message}
use qemu_pdes.Node.{Node}
use qemu_pdes.Node.Ends.{Ends, after-Ends, Ends-map}
use qemu_pdes.Wwt.Sync.{is_waiting, is_waiting_for_quanta, wait_loop, wwt_sync_check, pass_barrier}
use qemu_pdes.System.Invariant.{Phase, Inv}
use qemu_pdes.System.Barrier.{Gone, waiting-Inv, wait_loop-Inv, Passed}
use qemu_pdes.System.Start.{Began}
use qemu_pdes.System.Pass.{pass-Inv}

module _ (q : ℕ) (role : Bool) (wire base : List Message) where
  -- A node between two callbacks: in a quantum, or at the barrier with its check set.
  abbrev pub Resting : Node → Type 0
  Resting n =
      (r : ℕ) × (f : Bool) × Inv q (record { round = r; finished = f; owed = 0; idle = not f }) role
        wire base n

  -- A node that has left.
  abbrev pub Left : Node → Type 0
  Left n = (phase : Phase) × Inv q phase role wire base n

module _ (q r : ℕ) (role : Bool) (wire base : List Message) (small : r + 2 < 2 ^ 32) where
  abbrev at_barrier : Phase
  at_barrier = record { round = r; finished = true; owed = 0; idle = false }

  abbrev P : Node → Type 0
  P = Inv q at_barrier role wire base

  abbrev R : Unit {0} → Node → Type 0
  R u = Resting q role wire base

  passes :
      (k : Node)
      → P k
      → is_waiting k.wwt ≡ false
      → Ends R (Left q role wire base) (Resting q role wire base) (pass_barrier k)
  passes k i w =
      Ends-map (λ _. Began q r role wire base) R (λ _. ⊥) (Left q role wire base) (λ _. ⊥)
        (Resting q role wire base) (pass_barrier k) (λ u n b. (r + 1, false, b)) (λ n x. absurd x)
        (λ n x. absurd x) (pass-Inv q r false role wire base k i w small)

  pub check-Inv :
      (n : Node)
      → P n
      → Ends R (Left q role wire base) (Resting q role wire base) (wwt_sync_check n)
  unfolding wwt_sync_check
  check-Inv n i =
      let E = Left q role wire base in
      let W = Resting q role wire base in
      let W' : (k : Node) → P k → W k = λ k j. (r, true, j) in
      let E' : (k : Node) → Gone q at_barrier role wire base k → E k = λ k j. (_, j.1) in
      let Q = λ (w : Bool) (k : Node). P k × (w ≡ is_waiting k.wwt) in
      let S = Passed q at_barrier role wire base in
      after-Ends Q R E W (is_waiting_for_quanta n) _
        (Ends-map Q Q (Gone q at_barrier role wire base) E P W (is_waiting_for_quanta n)
          (λ w k x. x) E' W' (waiting-Inv q at_barrier role wire base n i))
        (λ w k x.
          after-Ends S R E W (wait_loop (suc (length k.arriving)) w k) _
            (Ends-map S S (Gone q at_barrier role wire base) E P W
              (wait_loop (suc (length k.arriving)) w k) (λ w k x. x) E' W'
              (wait_loop-Inv q at_barrier role wire base (suc (length k.arriving)) w k x.0 x.1))
            (λ left l y. rw (y.0) (passes l (y.1) (y.2))))
