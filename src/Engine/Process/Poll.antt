-- ===== src/Engine/Process/Poll.antt =====
-- `pdes_engine_poll` as a loop over the messages that lie in the ring: a rule for what a poll
-- keeps, and that the loop ends by NO_MESSAGE.
use qemu_pdes.Base.{
  ℕ, zero, suc, Bool, true, false, List, [], ◌∷◌, ◌++◌, ◌≡◌, refl, if◌then◌else◌, ◌==◌, Option,
  none, some, length, Bool-cases, inl, inr,
}
use qemu_pdes.Base.Word.{u32, signed_lt32}
use qemu_pdes.Comm.Message.{Message}
use qemu_pdes.Node.{Node}
use qemu_pdes.Node.Monad.{M, after, pure, skip, fail, null_pointer, ◌>>◌}
use qemu_pdes.Node.Always.{Always, Keeps, after-Always}
use qemu_pdes.Node.Channel.{pdes_comm_recv, take_head, no_message, minus_einval}
use qemu_pdes.Engine.Process.{process_message, poll_loop, pdes_engine_poll}

-- The state with the head of the ring taken out, and with the next batch put in.
abbrev pub taken : Message → List Message → Node → Node
taken m rest n = record n { inbox = rest; received = n.received ++ (m ∷ []) }

abbrev pub accepted : List Message → List (List Message) → Node → Node
accepted batch later n = record n { inbox = n.inbox ++ batch; arriving = later }

-- What the loop does with the result of one receive.
abbrev pub handle : M (Unit {0}) → (ℕ × Option Message) → M (Unit {0})
handle again (res, msg) =
    if res == no_message
    then skip
    else if signed_lt32 res 0
    then skip
    else elim msg [ none ↦ fail null_pointer | some m ↦ (do process_message m; again) ]

module _ (P : Node → Type 0)
    (take : (m : Message) (rest : List Message) (n : Node)
      → n.inbox ≡ m ∷ rest
      → P n
      → P (taken m rest n))
    (turn : (m : Message) (rest : List Message) (n : Node)
      → n.inbox ≡ m ∷ rest
      → P n
      → Always P (process_message m (taken m rest n))) where
  handle-Keeps :
      (again : M (Unit {0}))
      → Keeps P again
      → (xs : List Message) (n : Node) → n.inbox ≡ xs
      → P n
      → Always P (after (take_head xs n) (handle again))
  unfolding take_head
  handle-Keeps again k [] n e p = p
  handle-Keeps again k (m ∷ rest) n e p =
      let p' : P (taken m rest n) = take m rest n e p in
      elim (Bool-cases (u32 m.len == no_message)) [
        | inl last ↦ rw last p'
        | inr more ↦ rw more (elim (Bool-cases (signed_lt32 (u32 m.len) 0)) [
          | inl neg ↦ rw neg p'
          | inr pos ↦ rw pos (
              after-Always P (process_message m (taken m rest n)) _ (turn m rest n e p)
                (λ _ n' q. k n' q))
        ])
      ]

  received-Keeps :
      (again : M (Unit {0}))
      → Keeps P again
      → (c : Bool) (n : Node) → P n
      → Always P (
          after
            ((if c then (λ k. take_head k.inbox k) else pure (minus_einval, none)) n)
            (handle again))
  received-Keeps again k true n p = handle-Keeps again k n.inbox n refl p
  received-Keeps again k false n p = p

  poll_loop-Keeps : (fuel : ℕ) → Keeps P (poll_loop fuel)
  unfolding poll_loop pdes_comm_recv
  poll_loop-Keeps zero n p = p
  poll_loop-Keeps (suc fuel) n p =
      received-Keeps (poll_loop fuel) (poll_loop-Keeps fuel) n.engine.connected n p

  module _
      (accept : (n : Node) (batch : List Message) (later : List (List Message))
        → n.arriving ≡ batch ∷ later
        → P n
        → P (accepted batch later n)) where
    accept-Keeps :
        (xs : List (List Message)) (n : Node)
        → n.arriving ≡ xs
        → P n
        → P (elim xs [ [] ↦ n | batch ∷ later ↦ accepted batch later n ])
    accept-Keeps [] n e p = p
    accept-Keeps (batch ∷ later) n e p = accept n batch later e p

    -- A poll keeps what arrivals, the taking of a message, and its taking and handling keep.
    pub poll-Turns : Keeps P pdes_engine_poll
    unfolding pdes_engine_poll
    poll-Turns n p =
        let n' : Node = elim n.arriving [ [] ↦ n | batch ∷ later ↦ accepted batch later n ] in
        poll_loop-Keeps (suc (length n'.inbox)) n' (accept-Keeps n.arriving n refl p)

-- A poll keeps what arrivals, the taking of a message and its handling keep.
pub poll-Keeps :
    (P : Node → Type 0)
    → ((m : Message) (rest : List Message) (n : Node)
        → n.inbox ≡ m ∷ rest
        → P n
        → P (taken m rest n))
    → ((m : Message) → Keeps P (process_message m))
    → ((n : Node) (batch : List Message) (later : List (List Message))
        → n.arriving ≡ batch ∷ later
        → P n
        → P (accepted batch later n))
    → Keeps P pdes_engine_poll
poll-Keeps P take process =
    poll-Turns P take (λ m rest n e p. process m (taken m rest n) (take m rest n e p))
