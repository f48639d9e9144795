-- ===== src/Engine/Process/Fuel.antt =====
-- The loop of `pdes_engine_poll` has fuel enough: handling a message leaves the ring alone, so that
-- every turn takes one message out, and more fuel changes nothing.
use qemu_pdes.Base.{
  ◌++◌, ℕ, zero, suc, ◌+◌, ◌<◌, Bool, true, false, List, [], ◌∷◌, ◌≡◌, refl, ap, if◌then◌else◌,
  ◌==◌, arith, none, length, Bool-cases, inl, inr,
}
use qemu_pdes.Base.Word.{u32, signed_lt32}
use qemu_pdes.Comm.Message.{
  Message, create_message, end_of_emulation, intent_to_end_emulation, permission_to_end_emulation,
  read_at,
}
use qemu_pdes.Node.{Node}
use qemu_pdes.Node.Monad.{M, Outcome, ret, fault, exited, spinning, after, when, pure}
use qemu_pdes.Node.Always.{Always, Keeps, after-Always, when-Keeps}
use qemu_pdes.Node.Channel.{pdes_comm_send, pdes_comm_recv, take_head, no_message, minus_einval}
use qemu_pdes.Utility.{get_universal_virtual_time}
use qemu_pdes.Wwt.Receive.{wwt_recivied_callback, receive_sync, receive_normal}
use qemu_pdes.Engine.Exit.{send_end_if_handshake_complete}
use qemu_pdes.Engine.Process.{
  on_intent, on_permission, on_end, on_drain_start, on_drain_end, on_checkpoint_init,
  process_message, poll_loop,
}
use qemu_pdes.Engine.Process.Poll.{taken, handle}

module _ (xs ys : List Message) where
  -- What lies in the ring, and what was taken out of it.
  abbrev pub Lies : Node → Type 0
  Lies n = (n.inbox ≡ xs) × (n.received ≡ ys)

  receive-Lies : (msg : Message) → Keeps Lies (wwt_recivied_callback msg)
  unfolding wwt_recivied_callback receive_sync receive_normal get_universal_virtual_time read_at
  receive-Lies msg n i = ground (arith, i)

  on_intent-Lies : Keeps Lies on_intent
  unfolding on_intent
  on_intent-Lies n i = ground (arith, i)

  on_permission-Lies : Keeps Lies on_permission
  unfolding on_permission send_end_if_handshake_complete get_universal_virtual_time create_message
      pdes_comm_send
  on_permission-Lies n i = ground (arith, i)

  on_end-Lies : Keeps Lies on_end
  unfolding on_end
  on_end-Lies n i = ground (arith, i)

  on_drain_start-Lies : (msg : Message) → Keeps Lies (on_drain_start msg)
  unfolding on_drain_start read_at
  on_drain_start-Lies msg n i = ground (arith, i)

  on_drain_end-Lies : Keeps Lies on_drain_end
  unfolding on_drain_end
  on_drain_end-Lies n i = ground (arith, i)

  on_checkpoint_init-Lies : Keeps Lies on_checkpoint_init
  unfolding on_checkpoint_init
  on_checkpoint_init-Lies n i = ground (arith, i)

  pub process_message-Lies : (msg : Message) → Keeps Lies (process_message msg)
  unfolding process_message
  process_message-Lies msg n i =
      after-Always Lies (wwt_recivied_callback msg n) _ (receive-Lies msg n i) λ _ n₁ i₁.
        after-Always Lies (when (msg.kind == intent_to_end_emulation) on_intent n₁) _
          (when-Keeps Lies (msg.kind == intent_to_end_emulation) on_intent on_intent-Lies n₁ i₁)
          λ _ n₂ i₂.
            after-Always Lies (when (msg.kind == permission_to_end_emulation) on_permission n₂) _
              (when-Keeps Lies (msg.kind == permission_to_end_emulation) on_permission
                on_permission-Lies n₂ i₂)
              λ _ n₃ i₃.
                after-Always Lies (when (msg.kind == end_of_emulation) on_end n₃) _
                  (when-Keeps Lies (msg.kind == end_of_emulation) on_end on_end-Lies n₃ i₃)
                  λ _ n₄ i₄. ground (
                    arith,
                    on_drain_start-Lies msg n₄ i₄,
                    on_drain_end-Lies n₄ i₄,
                    on_checkpoint_init-Lies n₄ i₄,
                  )

after-same :
    (P : Node → Type 0) (o : Outcome (Unit {0})) (f g : Unit {0} → M (Unit {0}))
    → Always P o
    → ((u : Unit {0}) (n : Node) → P n → f u n ≡ g u n)
    → after o f ≡ after o g
after-same P (ret u n) f g a h = h u n a
after-same P (fault e) f g a h = refl
after-same P (exited n) f g a h = refl
after-same P (spinning n) f g a h = refl

handle-same :
    (again again' : M (Unit {0})) (xs : List Message)
    → ((m : Message) (rest : List Message) (n : Node)
        → xs ≡ m ∷ rest
        → n.inbox ≡ rest
        → again n ≡ again' n)
    → (n : Node) → after (take_head xs n) (handle again) ≡ after (take_head xs n) (handle again')
unfolding take_head
handle-same again again' [] h n = refl
handle-same again again' (m ∷ rest) h n = elim (Bool-cases (u32 m.len == no_message)) [
  | inl last ↦ rw last refl
  | inr more ↦ rw more (elim (Bool-cases (signed_lt32 (u32 m.len) 0)) [
    | inl neg ↦ rw neg refl
    | inr pos ↦ rw pos (
        after-same (Lies rest (n.received ++ (m ∷ []))) (process_message m (taken m rest n)) _ _
          (process_message-Lies rest (n.received ++ (m ∷ [])) m (taken m rest n) (refl, refl))
          (λ _ k l. h m rest k refl l.0))
  ])
]

received-same :
    (again again' : M (Unit {0})) (c : Bool) (n : Node)
    → ((m : Message) (rest : List Message) (k : Node)
        → n.inbox ≡ m ∷ rest
        → k.inbox ≡ rest
        → again k ≡ again' k)
    → after ((if c then (λ k. take_head k.inbox k) else pure (minus_einval, none)) n) (handle again)
      ≡ after
          ((if c then (λ k. take_head k.inbox k) else pure (minus_einval, none)) n)
          (handle again')
received-same again again' true n h = handle-same again again' n.inbox h n
received-same again again' false n h = refl

-- With fuel for every message in the ring and one more turn, the loop of `pdes_engine_poll` ends
-- as with any more fuel: it stops at an empty ring or an error, never for want of fuel.
pub poll_loop_enough :
    (fuel extra : ℕ) (n : Node)
    → length n.inbox < fuel
    → poll_loop (fuel + extra) n ≡ poll_loop fuel n
unfolding poll_loop pdes_comm_recv
poll_loop_enough zero extra n h = absurd (omega arith)
poll_loop_enough (suc fuel) extra n h =
    let step : suc fuel + extra ≡ suc (fuel + extra) = omega arith in
    rw step (
      received-same (poll_loop (fuel + extra)) (poll_loop fuel) n.engine.connected n
        (λ m rest k e l.
          poll_loop_enough fuel extra k (omega (arith, ap length e, ap length l, h))))
