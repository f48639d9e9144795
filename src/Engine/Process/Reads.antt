-- ===== src/Engine/Process/Reads.antt =====
-- A poll that meets no fault reads every message that lies in the ring.
use mathlib.Core.List.{append_assoc, append-nil}
use qemu_pdes.Base.{
  ℕ, zero, suc, ◌^◌, ◌<◌, ◌≡◌, refl, sym, ap, ◌∙◌, true, false, List, [], ◌∷◌, ◌++◌, arith, ◌==◌,
  length,
}
use qemu_pdes.Base.Word.{u32, signed_lt32}
use qemu_pdes.Comm.Message.{Message}
use qemu_pdes.Node.{Node}
use qemu_pdes.Node.Monad.{M, Outcome, ret, fault, exited, spinning, after}
use qemu_pdes.Node.Always.{Always}
use qemu_pdes.Node.Ends.{Holds, after-Ends}
use qemu_pdes.Node.Channel.{pdes_comm_recv, take_head, no_message}
use qemu_pdes.Engine.Process.{process_message, poll_loop, pdes_engine_poll}
use qemu_pdes.Engine.Process.Poll.{taken, accepted, handle}
use qemu_pdes.Engine.Process.Fuel.{Lies, process_message-Lies}

both :
    {A : Type 0} (P Q : Node → Type 0) (o : Outcome A)
    → Holds P o
    → Always Q o
    → Holds (λ n. P n × Q n) o
both P Q (ret a n) h g = (h, g)
both P Q (fault e) h g = h
both P Q (exited n) h g = h
both P Q (spinning n) h g = h

module _ (P : Node → Type 0)
    (process : (m : Message) (rest : List Message) (n : Node)
      → n.inbox ≡ m ∷ rest
      → P n
      → Holds P (process_message m (taken m rest n)))
    (short : (m : Message) (rest : List Message) (n : Node)
      → n.inbox ≡ m ∷ rest
      → P n
      → m.len < 2 ^ 31)
    (connected : (n : Node) → P n → n.engine.connected ≡ true) where
  -- The ring is empty, and all of a history is read.
  abbrev pub HasRead : List Message → Node → Type 0
  HasRead all k = P k × (k.inbox ≡ []) × (k.received ≡ all)

  step :
      (again : M (Unit {0})) (all : List Message) (xs : List Message) (n : Node)
      → n.inbox ≡ xs
      → n.received ++ xs ≡ all
      → P n
      → ((m : Message) (rest : List Message) (k : Node)
          → xs ≡ m ∷ rest
          → P k
          → k.inbox ≡ rest
          → k.received ++ rest ≡ all
          → Holds (HasRead all) (again k))
      → Holds (HasRead all) (after (take_head xs n) (handle again))
  unfolding take_head
  step again all [] n e f p h = (p, e, sym (append-nil n.received) ∙ f)
  step again all (m ∷ rest) n e f p h =
      let s = short m rest n e p in
      let more : (u32 m.len == no_message) ≡ false = ground arith in
      let pos : signed_lt32 (u32 m.len) 0 ≡ false = ground arith in
      let read = n.received ++ (m ∷ []) in
      let D = λ (_ : Node). ⊥ in
      rw (more, pos)
        (after-Ends (λ _ k. P k × Lies rest read k) (λ _. HasRead all) D D
          (process_message m (taken m rest n)) _
          (both P (Lies rest read) (process_message m (taken m rest n)) (process m rest n e p)
            (process_message-Lies rest read m (taken m rest n) (refl, refl)))
          (λ _ k x. h m rest k refl x.0 (x.1.0) (
            ap (λ (l : List Message). l ++ rest) (x.1.1)
            ∙ (append_assoc n.received (m ∷ []) rest ∙ f))))

  loop :
      (fuel : ℕ) (all : List Message) (n : Node)
      → length n.inbox < fuel
      → n.received ++ n.inbox ≡ all
      → P n
      → Holds (HasRead all) (poll_loop fuel n)
  unfolding poll_loop pdes_comm_recv
  loop zero all n h f p = absurd (omega arith)
  loop (suc fuel) all n h f p = simp (connected n p) (
      step (poll_loop fuel) all n.inbox n refl f p (λ m rest k e p' l g.
        loop fuel all k (omega (arith, ap length e, ap length l, h))
          (ap (λ (r : List Message). k.received ++ r) l ∙ g) p'))

  abbrev after_arrivals : List (List Message) → Node → Node
  after_arrivals xs n = elim xs [ [] ↦ n | batch ∷ later ↦ accepted batch later n ]

  no_arrivals :
      (xs : List (List Message)) (n : Node)
      → xs ≡ []
      → P n
      → Holds
          (HasRead (n.received ++ n.inbox))
          (poll_loop (suc (length (after_arrivals xs n).inbox)) (after_arrivals xs n))
  no_arrivals [] n e p = loop (suc (length n.inbox)) (n.received ++ n.inbox) n (omega arith) refl p
  no_arrivals (batch ∷ later) n e p = cc

  -- What lies in the ring is read by the end of the poll.
  pub poll-HasRead :
      (n : Node)
      → n.arriving ≡ []
      → P n
      → Holds (HasRead (n.received ++ n.inbox)) (pdes_engine_poll n)
  unfolding pdes_engine_poll
  poll-HasRead n e p = no_arrivals n.arriving n e p
