-- ===== src/Wwt/Receive/Frame.antt =====
-- What `wwt_recivied_callback` leaves alone: the engine, the rings and the round.
use qemu_pdes.Base.{◌≡◌, arith}
use qemu_pdes.Comm.Message.{Message, read_at}
use qemu_pdes.Node.{Node}
use qemu_pdes.Node.Always.{Always}
use qemu_pdes.Utility.{get_universal_virtual_time}
use qemu_pdes.Wwt.Receive.{wwt_recivied_callback, receive_sync, receive_normal}

pub record SameEngine (n k : Node) : Type 0 where
  pub engine : k.engine ≡ n.engine
  pub inbox : k.inbox ≡ n.inbox
  pub arriving : k.arriving ≡ n.arriving
  pub outbox : k.outbox ≡ n.outbox
  pub received : k.received ≡ n.received
  pub trace : k.trace ≡ n.trace
  pub round : k.wwt.current_quantum_round ≡ n.wwt.current_quantum_round
  pub should_sync : k.wwt.should_sync ≡ n.wwt.should_sync
  pub finished : k.wwt.finished_quantum ≡ n.wwt.finished_quantum
  pub timer : k.wwt.sync_check_timer ≡ n.wwt.sync_check_timer

pub receive-SameEngine :
    (msg : Message) (n : Node) → Always (SameEngine n) (wwt_recivied_callback msg n)
unfolding wwt_recivied_callback receive_sync receive_normal get_universal_virtual_time read_at
receive-SameEngine msg n = ground arith
