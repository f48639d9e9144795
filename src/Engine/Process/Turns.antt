-- ===== src/Engine/Process/Turns.antt =====
-- `pdes_engine_poll` turn by turn, on a ring whose messages are known.
use qemu_pdes.Base.{
  ℕ, suc, ◌≤◌, ◌≡◌, refl, ap, ◌∙◌, true, false, List, [], ◌∷◌, ◌++◌, arith, ◌==◌, length,
}
use qemu_pdes.Base.Word.{u32, signed_lt32}
use qemu_pdes.Comm.Message.{Message}
use qemu_pdes.Node.{Node}
use qemu_pdes.Node.Monad.{Outcome, ret, after}
use qemu_pdes.Node.Channel.{pdes_comm_recv, no_message}
use qemu_pdes.Engine.Process.{process_message, poll_loop, pdes_engine_poll, accept_arrivals}
use qemu_pdes.Engine.Process.Poll.{taken}

pub turn :
    (fuel : ℕ) (n : Node) (m : Message) (rest : List Message)
    → n.engine.connected ≡ true
    → n.inbox ≡ m ∷ rest
    → m.len ≤ 2048
    → poll_loop (suc fuel) n ≡ after (process_message m (taken m rest n)) (λ u. poll_loop fuel)
unfolding poll_loop pdes_comm_recv
turn fuel n m rest c e h =
    let some_message : (u32 m.len == no_message) ≡ false = ground arith in
    let pos : signed_lt32 (u32 m.len) 0 ≡ false = ground arith in rw (c, e, some_message, pos) refl

pub last_turn :
    (fuel : ℕ) (n : Node)
    → n.engine.connected ≡ true
    → n.inbox ≡ []
    → poll_loop (suc fuel) n ≡ ret tt n
unfolding poll_loop pdes_comm_recv
last_turn fuel n c e = rw (c, e) refl

accept_none : (n : Node) → n.arriving ≡ [] → accept_arrivals n ≡ ret tt n
unfolding accept_arrivals
accept_none n e =
    ap (λ (k : Node). ret tt k)
      (elim n.arriving
          as (λ a.
            a ≡ []
            → (elim a [
              | [] ↦ n
              | batch ∷ later ↦ record n { inbox = n.inbox ++ batch; arriving = later }
            ])
              ≡ n) [ [] ↦ λ h. refl | batch ∷ later ↦ λ h. cc ]
        e)

pub poll_known :
    (n : Node) (ms : List Message)
    → n.arriving ≡ []
    → n.inbox ≡ ms
    → pdes_engine_poll n ≡ poll_loop (suc (length ms)) n
unfolding pdes_engine_poll
poll_known n ms a e =
    ap (λ (o : Outcome (Unit {0})). after o (λ u k. poll_loop (suc (length k.inbox)) k))
      (accept_none n a)
    ∙ ap (λ (l : List Message). poll_loop (suc (length l)) n) e

-- One message that is handled to its end.
pub turn_done :
    (fuel : ℕ) (n k : Node) (m : Message) (rest : List Message)
    → n.engine.connected ≡ true
    → n.inbox ≡ m ∷ rest
    → m.len ≤ 2048
    → process_message m (taken m rest n) ≡ ret tt k
    → poll_loop (suc fuel) n ≡ poll_loop fuel k
turn_done fuel n k m rest c e h p =
    turn fuel n m rest c e h ∙ ap (λ (o : Outcome (Unit {0})). after o (λ u. poll_loop fuel)) p
