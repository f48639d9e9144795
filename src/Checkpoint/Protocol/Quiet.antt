-- ===== src/Checkpoint/Protocol/Quiet.antt =====
-- The parts of net/ that leave what a checkpoint depends on as it is.
use qemu_pdes.Base.{◌≡◌, refl, false, not, List, ℕ, ◌&&◌, ◌==◌, arith, Option}
use qemu_pdes.Base.Word.{signed_le32}
use qemu_pdes.Comm.Message.{
  Message, create_message, read_at, drain_start, permission_to_end_emulation,
  intent_to_end_emulation, checkpoint_init_step,
}
use qemu_pdes.Node.{MessageReceiveContext}
use qemu_pdes.Node.Monad.{M}
use qemu_pdes.Node.Always.{Keeps, Always-map, bind-Keeps, when-Keeps, if-Keeps}
use qemu_pdes.Node.Channel.{pdes_comm_send}
use qemu_pdes.Utility.{get_universal_virtual_time, process_message_at_virtual_time}
use qemu_pdes.Engine.Exit.{
  send_end_if_handshake_complete, notify_neighbours_of_end, permit, can_stop, pdes_engine_send,
  send_control, ask_to_stop,
}
use qemu_pdes.Engine.Pause.{pdes_pause, pdes_play, pdes_pause_bh}
use qemu_pdes.Engine.Process.{
  on_intent, on_permission, on_end, on_drain_end, send_initiate_checkpoint_message,
}
use qemu_pdes.Wwt.Receive.{wwt_recivied_callback}
use qemu_pdes.Wwt.Receive.Frame.{SameEngine, receive-SameEngine}
use qemu_pdes.Wwt.Setup.{setup_wwt, wwt_send}
use qemu_pdes.Wwt.Sync.{send_sync, permit_at_boundary}
use qemu_pdes.Netdev.{pdes_net_receive}
use qemu_pdes.Checkpoint.Boundary.{validate_checkpoint}
use qemu_pdes.Checkpoint.Protocol.{View}
use qemu_pdes.Checkpoint.Protocol.Frame.{Shows, drains-snoc, saves-snoc}

abbrev pub Quiet : {A : Type 0} → M A → Type 0
Quiet m = (v : View) → Keeps (Shows v) m

pub receive-Quiet : (msg : Message) → Quiet (wwt_recivied_callback msg)
receive-Quiet msg v n i =
    Always-map (SameEngine n) (Shows v) (wwt_recivied_callback msg n) (receive-SameEngine msg n)
      (λ k s. ground (arith, i, s))

pub send_end-Quiet : Quiet send_end_if_handshake_complete
unfolding send_end_if_handshake_complete get_universal_virtual_time create_message pdes_comm_send
send_end-Quiet v n i = grind (arith, drains-snoc)

pub notify_end-Quiet : Quiet notify_neighbours_of_end
unfolding notify_neighbours_of_end
notify_end-Quiet v n i =
    when-Keeps (Shows v) (not n.engine.notified_neighbors_for_exit) send_end_if_handshake_complete
      (send_end-Quiet v) _ (ground (arith, i))

pub control-Quiet : (kind : ℕ) → (kind == drain_start) ≡ false → Quiet (send_control kind)
unfolding get_universal_virtual_time create_message pdes_comm_send
control-Quiet kind e v n i = grind (arith, drains-snoc)

pub permit-Quiet : Quiet permit
unfolding permit
permit-Quiet v n i =
    bind-Keeps (Shows v) (send_control permission_to_end_emulation) _
      (control-Quiet permission_to_end_emulation refl v) (λ _. send_end-Quiet v) _
      (ground (arith, i))

pub ask-Quiet : Quiet ask_to_stop
unfolding ask_to_stop
ask-Quiet v n i =
    let ask = signed_le32 1 n.engine.ready_to_exit_neighbors && not n.engine.permitted_to_exit in
    if-Keeps (Shows v) (not n.engine.master) _ _
      (when-Keeps (Shows v) (not n.engine.intent_sent) _ (
        bind-Keeps (Shows v) (send_control intent_to_end_emulation) _
          (control-Quiet intent_to_end_emulation refl v) (λ _ k h. ground (arith, h))))
      (when-Keeps (Shows v) ask permit (permit-Quiet v)) n i

pub can_stop-Quiet : Quiet can_stop
unfolding can_stop
can_stop-Quiet v = bind-Keeps (Shows v) ask_to_stop _ (ask-Quiet v) (λ _ k h. ground (arith, h))

pub pause-Quiet : Quiet pdes_pause
unfolding pdes_pause
pause-Quiet v n i = grind (arith, saves-snoc)

pub play-Quiet : Quiet pdes_play
unfolding pdes_play
play-Quiet v n i = grind (arith, saves-snoc)

pub pause_bh-Quiet : Quiet pdes_pause_bh
unfolding pdes_pause_bh
pause_bh-Quiet v n i = grind (arith, saves-snoc)

pub on_intent-Quiet : Quiet on_intent
unfolding on_intent
on_intent-Quiet v n i = ground (arith, i)

pub on_permission-Quiet : Quiet on_permission
unfolding on_permission
on_permission-Quiet v n i = send_end-Quiet v _ (ground (arith, i))

pub on_end-Quiet : Quiet on_end
unfolding on_end
on_end-Quiet v n i = ground (arith, i)

pub on_drain_end-Quiet : Quiet on_drain_end
unfolding on_drain_end
on_drain_end-Quiet v n i = ground (arith, i)

pub send_sync-Quiet : Quiet send_sync
unfolding send_sync get_universal_virtual_time create_message pdes_engine_send pdes_comm_send
send_sync-Quiet v n i = grind (arith, drains-snoc)

pub initiate-Quiet : Quiet send_initiate_checkpoint_message
unfolding send_initiate_checkpoint_message
initiate-Quiet = control-Quiet checkpoint_init_step refl

pub permit_at_boundary-Quiet : Quiet permit_at_boundary
unfolding permit_at_boundary
permit_at_boundary-Quiet v n i =
    let e = n.engine in
    when-Keeps (Shows v)
      (e.master
        && signed_le32 1 e.ready_to_exit_neighbors
        && e.ready_to_exit
        && not e.permitted_to_exit)
      permit (permit-Quiet v) n i

pub wwt_send-Quiet : (bytes : List ℕ) → Quiet (wwt_send bytes)
unfolding wwt_send get_universal_virtual_time create_message pdes_engine_send pdes_comm_send
wwt_send-Quiet bytes v n i = grind (arith, drains-snoc)

pub net_receive-Quiet : (bytes : List ℕ) → Quiet (pdes_net_receive bytes)
unfolding pdes_net_receive
net_receive-Quiet bytes v =
    bind-Keeps (Shows v) (wwt_send bytes) _ (wwt_send-Quiet bytes v) (λ s k h. ground (arith, h))

pub setup-Quiet : Quiet setup_wwt
unfolding setup_wwt get_universal_virtual_time
setup-Quiet v n i = ground (arith, i)

pub message_timer-Quiet :
    (ctx : MessageReceiveContext) → Quiet (process_message_at_virtual_time ctx)
unfolding process_message_at_virtual_time read_at
message_timer-Quiet ctx v n i = grind (arith, saves-snoc)

pub validate-Quiet : (name : Option (List ℕ)) → Quiet (validate_checkpoint name)
unfolding validate_checkpoint
validate-Quiet name v n i = ground (arith, i)
