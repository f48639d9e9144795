-- ===== src/Comm/Ring/Spsc/Progress.antt =====
-- What a reachable ring lets each side conclude.
use qemu_pdes.Base.{
  ℕ, ◌+◌, ◌-◌, ◌<◌, ◌≤◌, ◌≡◌, ◌≢◌, refl, sym, ap, List, [], ◌∷◌, ◌++◌, arith, length, length-append,
  ◌⊎◌,
}
use qemu_pdes.Comm.Ring.{ring_size, next_idx}
use qemu_pdes.Comm.Ring.Window.{used, contents, length-window}
use qemu_pdes.Comm.Ring.Spsc.{waiting, copying, Reader, found, copied, Shared, Step, send_go, Reach}
use qemu_pdes.Comm.Ring.Spsc.Invariant.{Reach-Inv}

module _ {A : Type 0} where
  -- In every interleaving the receiver has a prefix of what was sent, in order, each message once
  -- and whole, and the rest is what lies in the ring: at most RING_SIZE - 1 messages.
  pub received-IsPrefix :
      {z : A} {s : Shared A}
      → Reach z s
      → (rest : List A) × (s.sent ≡ s.received ++ rest)
        × (rest ≡ contents s.ring)
        × (length rest ≤ ring_size - 1)
  received-IsPrefix {s = s} r = (
    contents s.ring,
    sym (Reach-Inv r).fifo,
    refl,
    omega (arith, length-window s.ring.messages s.ring.read_idx (used s.ring)),
  )

  -- In every reachable state, while the writer is about to copy and the reader is past its test,
  -- the slot that is written is not the slot that is read, and both are inside the array.
  pub slots_apart :
      {z : A} {s : Shared A} (m : A) (n : ℕ)
      → Reach z s
      → s.writer ≡ copying m n
      → (s.reader ≡ found) ⊎ ((k : A) × (s.reader ≡ copied k))
      → (s.ring.write_idx ≢ s.ring.read_idx)
        × (s.ring.write_idx < ring_size)
        × (s.ring.read_idx < ring_size)
  slots_apart m n r w q = let i = Reach-Inv r in ground (arith, i)

  -- In every reachable state, a send that waits finds RING_SIZE - 1 messages in the ring that were
  -- sent and not yet received, and the ring is not empty, so that the test of a receive finds a
  -- message.
  pub waits_only_if_full :
      {z : A} {s : Shared A} (m : A) (n : ℕ)
      → Reach z s
      → s.writer ≡ waiting m n
      → n ≡ s.ring.read_idx
      → (length s.sent ≡ length s.received + (ring_size - 1)) × (s.ring.read_idx ≢ s.ring.write_idx)
  waits_only_if_full {s = s} m n r w e =
      let i = Reach-Inv r in
      let full : next_idx s.ring.write_idx ≡ s.ring.read_idx = ground (arith, i) in
      let v = i.valid in
      let total : length s.received + used s.ring ≡ length s.sent = omega (
        arith,
        length-append s.received (contents s.ring),
        length-window s.ring.messages s.ring.read_idx (used s.ring),
        ap length i.fifo,
      ) in
      (omega arith, omega arith)

  -- In every reachable state, once a receive has published its index a send that was waiting
  -- passes its test at its next look.
  pub recv_frees :
      {z : A} {s t : Shared A} (m k : A) (n : ℕ)
      → Reach z s
      → s.writer ≡ waiting m n
      → s.reader ≡ copied k
      → t ≡ record s {
        reader = Reader.ready;
        ring = record s.ring { read_idx = next_idx s.ring.read_idx };
        received = s.received ++ (k ∷ []);
      }
      → Step t (record t { writer = copying m n })
  recv_frees {s = s} m k n r w q e =
      let i = Reach-Inv r in send_go m n (ground arith) (ground (arith, i)) refl
