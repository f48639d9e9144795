-- ===== src/Engine/Process/Invariant.antt =====
-- The handling of messages keeps the exit invariant.
use qemu_pdes.Base.{◌==◌, arith}
use qemu_pdes.Comm.Message.{
  Message, create_message, end_of_emulation, intent_to_end_emulation, permission_to_end_emulation,
  read_at,
}
use qemu_pdes.Node.Monad.{when}
use qemu_pdes.Node.Always.{Keeps, after-Always, Always-map, when-Keeps, count_kind-snoc}
use qemu_pdes.Node.Channel.{pdes_comm_send}
use qemu_pdes.Utility.{get_universal_virtual_time}
use qemu_pdes.Wwt.Receive.{wwt_recivied_callback}
use qemu_pdes.Wwt.Receive.Frame.{SameEngine, receive-SameEngine}
use qemu_pdes.Engine.Exit.Invariant.{ExitInv, send_end-ExitInv}
use qemu_pdes.Engine.Process.Poll.{poll-Keeps}
use qemu_pdes.Engine.Process.{
  on_intent, on_permission, on_end, on_drain_start, on_drain_end, on_checkpoint_init,
  process_message, pdes_engine_poll, finish_initiate_checkpoint,
}

receive-ExitInv : (msg : Message) → Keeps ExitInv (wwt_recivied_callback msg)
receive-ExitInv msg n i =
    Always-map (SameEngine n) ExitInv (wwt_recivied_callback msg n) (receive-SameEngine msg n)
      (λ k s. ground (arith, i, s))

on_intent-ExitInv : Keeps ExitInv on_intent
unfolding on_intent
on_intent-ExitInv n i = ground (arith, i)

on_permission-ExitInv : Keeps ExitInv on_permission
unfolding on_permission
on_permission-ExitInv n i = send_end-ExitInv _ (ground (arith, i))

on_end-ExitInv : Keeps ExitInv on_end
unfolding on_end
on_end-ExitInv n i = ground (arith, i)

on_drain_start-ExitInv : (msg : Message) → Keeps ExitInv (on_drain_start msg)
unfolding on_drain_start read_at
on_drain_start-ExitInv msg n i = ground (arith, i)

on_drain_end-ExitInv : Keeps ExitInv on_drain_end
unfolding on_drain_end
on_drain_end-ExitInv n i = ground (arith, i)

on_checkpoint_init-ExitInv : Keeps ExitInv on_checkpoint_init
unfolding on_checkpoint_init
on_checkpoint_init-ExitInv n i = ground (arith, i)

pub process_message-ExitInv : (msg : Message) → Keeps ExitInv (process_message msg)
unfolding process_message
process_message-ExitInv msg n i =
    after-Always ExitInv (wwt_recivied_callback msg n) _ (receive-ExitInv msg n i) λ _ n₁ i₁.
      after-Always ExitInv (when (msg.kind == intent_to_end_emulation) on_intent n₁) _
        (when-Keeps ExitInv (msg.kind == intent_to_end_emulation) on_intent on_intent-ExitInv n₁ i₁)
        λ _ n₂ i₂.
          after-Always ExitInv (when (msg.kind == permission_to_end_emulation) on_permission n₂) _
            (when-Keeps ExitInv (msg.kind == permission_to_end_emulation) on_permission
              on_permission-ExitInv n₂ i₂)
            λ _ n₃ i₃.
              after-Always ExitInv (when (msg.kind == end_of_emulation) on_end n₃) _
                (when-Keeps ExitInv (msg.kind == end_of_emulation) on_end on_end-ExitInv n₃ i₃)
                λ _ n₄ i₄. ground (
                  arith,
                  on_drain_start-ExitInv msg n₄ i₄,
                  on_drain_end-ExitInv n₄ i₄,
                  on_checkpoint_init-ExitInv n₄ i₄,
                )

-- A poll keeps the exit invariant.
pub poll-ExitInv : Keeps ExitInv pdes_engine_poll
poll-ExitInv =
    poll-Keeps ExitInv (λ m rest n e i. ground (arith, i)) process_message-ExitInv
      (λ n batch later e i. ground (arith, i))

pub finish_initiate_checkpoint-ExitInv : Keeps ExitInv finish_initiate_checkpoint
unfolding finish_initiate_checkpoint pdes_comm_send get_universal_virtual_time create_message
finish_initiate_checkpoint-ExitInv n i = grind (arith, count_kind-snoc)
