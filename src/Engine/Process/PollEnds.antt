-- ===== src/Engine/Process/PollEnds.antt =====
-- The total rule for `pdes_engine_poll`: it meets no fault and keeps a property if the reading and
-- handling of each message does, and if every message is short enough for its length to be taken
-- for no error code.
use qemu_pdes.Base.{
  ℕ, zero, suc, ◌^◌, ◌<◌, Bool, true, false, List, [], ◌∷◌, ◌≡◌, refl, if◌then◌else◌, ◌==◌, arith,
  none, length,
}
use qemu_pdes.Base.Word.{u32, signed_lt32}
use qemu_pdes.Comm.Message.{Message}
use qemu_pdes.Node.{Node}
use qemu_pdes.Node.Monad.{M, after, pure}
use qemu_pdes.Node.Ends.{Holds, after-Holds}
use qemu_pdes.Node.Channel.{pdes_comm_recv, take_head, no_message, minus_einval}
use qemu_pdes.Engine.Process.{process_message, poll_loop, pdes_engine_poll}
use qemu_pdes.Engine.Process.Poll.{taken, accepted, handle}

module _ (P : Node → Type 0)
    (process : (m : Message) (rest : List Message) (n : Node)
      → n.inbox ≡ m ∷ rest
      → P n
      → Holds P (process_message m (taken m rest n)))
    (short : (m : Message) (rest : List Message) (n : Node)
      → n.inbox ≡ m ∷ rest
      → P n
      → m.len < 2 ^ 31) where
  handle-Holds :
      (again : M (Unit {0}))
      → ((n : Node) → P n → Holds P (again n))
      → (xs : List Message) (n : Node) → n.inbox ≡ xs
      → P n
      → Holds P (after (take_head xs n) (handle again))
  unfolding take_head
  handle-Holds again k [] n e p = p
  handle-Holds again k (m ∷ rest) n e p =
      let s = short m rest n e p in
      let more : (u32 m.len == no_message) ≡ false = ground arith in
      let pos : signed_lt32 (u32 m.len) 0 ≡ false = ground arith in
      rw (more, pos)
        (after-Holds P (process_message m (taken m rest n)) _ (process m rest n e p)
          (λ _ n' q. k n' q))

  received-Holds :
      (again : M (Unit {0}))
      → ((n : Node) → P n → Holds P (again n))
      → (c : Bool) (n : Node) → P n
      → Holds P (
          after
            ((if c then (λ k. take_head k.inbox k) else pure (minus_einval, none)) n)
            (handle again))
  received-Holds again k true n p = handle-Holds again k n.inbox n refl p
  received-Holds again k false n p = p

  poll_loop-Holds : (fuel : ℕ) (n : Node) → P n → Holds P (poll_loop fuel n)
  unfolding poll_loop pdes_comm_recv
  poll_loop-Holds zero n p = p
  poll_loop-Holds (suc fuel) n p =
      received-Holds (poll_loop fuel) (poll_loop-Holds fuel) n.engine.connected n p

  module _
      (accept : (n : Node) (batch : List Message) (later : List (List Message))
        → n.arriving ≡ batch ∷ later
        → P n
        → P (accepted batch later n)) where
    accept-P :
        (xs : List (List Message)) (n : Node)
        → n.arriving ≡ xs
        → P n
        → P (elim xs [ [] ↦ n | batch ∷ later ↦ accepted batch later n ])
    accept-P [] n e p = p
    accept-P (batch ∷ later) n e p = accept n batch later e p

    pub poll-Holds : (n : Node) → P n → Holds P (pdes_engine_poll n)
    unfolding pdes_engine_poll
    poll-Holds n p =
        let n' : Node = elim n.arriving [ [] ↦ n | batch ∷ later ↦ accepted batch later n ] in
        poll_loop-Holds (suc (length n'.inbox)) n' (accept-P n.arriving n refl p)
