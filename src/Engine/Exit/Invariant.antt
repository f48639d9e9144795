-- ===== src/Engine/Exit/Invariant.antt =====
-- What the exit flags of `PDESEngine` say of the messages that a node has sent.
use qemu_pdes.Base.{ℕ, ◌≤◌, Bool, true, false, ◌≡◌, ◌==◌, arith}
use qemu_pdes.Comm.Message.{
  Message, create_message, end_of_emulation, intent_to_end_emulation, permission_to_end_emulation,
}
use qemu_pdes.Node.{Node}
use qemu_pdes.Node.Always.{Always, Keeps, after-Always, count_kind, count_kind-snoc}
use qemu_pdes.Node.Channel.{pdes_comm_send}
use qemu_pdes.Utility.{get_universal_virtual_time}
use qemu_pdes.Engine.Exit.{
  send_end_if_handshake_complete, notify_neighbours_of_end, destroy_strategy, pdes_engine_destroy,
  permit, ask_to_stop, can_stop,
}

abbrev pub bit : Bool → ℕ
bit true = 1
bit false = 0

pub bit-le : (b : Bool) → bit b ≤ 1
bit-le true = omega arith
bit-le false = omega arith

-- At most one of each control message is out, and END_OF_EMULATION only with permission.
pub record ExitInv (n : Node) : Type 0 where
  pub ends : count_kind end_of_emulation n.outbox ≤ bit n.engine.end_message_sent
  pub permitted : bit n.engine.end_message_sent ≤ bit n.engine.permitted_to_exit
  pub intents : count_kind intent_to_end_emulation n.outbox ≤ bit n.engine.intent_sent
  pub permissions : count_kind permission_to_end_emulation n.outbox ≤ bit n.engine.permitted_to_exit
  pub master_only : n.engine.master ≡ false → count_kind permission_to_end_emulation n.outbox ≡ 0
  pub follower_only : n.engine.master ≡ true → count_kind intent_to_end_emulation n.outbox ≡ 0

pub send_end-ExitInv : Keeps ExitInv send_end_if_handshake_complete
unfolding send_end_if_handshake_complete pdes_comm_send get_universal_virtual_time create_message
send_end-ExitInv n i = grind (arith, count_kind-snoc)

pub notify_neighbours_of_end-ExitInv : Keeps ExitInv notify_neighbours_of_end
unfolding notify_neighbours_of_end
notify_neighbours_of_end-ExitInv n i = grind (arith, send_end-ExitInv)

pub pdes_engine_destroy-ExitInv : Keeps ExitInv pdes_engine_destroy
unfolding pdes_engine_destroy destroy_strategy
pdes_engine_destroy-ExitInv n i =
    after-Always ExitInv (notify_neighbours_of_end n) _ (notify_neighbours_of_end-ExitInv n i)
      (λ a k h. ground (arith, h))

-- Permission is given once: both callers test the flag first.
pub permit-ExitInv :
    (n : Node)
    → n.engine.master ≡ true
    → n.engine.permitted_to_exit ≡ false
    → ExitInv n
    → Always ExitInv (permit n)
unfolding permit send_end_if_handshake_complete pdes_comm_send get_universal_virtual_time
    create_message
permit-ExitInv n m p i = grind (arith, count_kind-snoc)

ask_follower :
    (n : Node)
    → n.engine.master ≡ false
    → n.engine.intent_sent ≡ false
    → ExitInv n
    → Always ExitInv (ask_to_stop n)
unfolding ask_to_stop pdes_comm_send get_universal_virtual_time create_message
ask_follower n m e i = grind (arith, count_kind-snoc)

pub ask_to_stop-ExitInv : Keeps ExitInv ask_to_stop
unfolding ask_to_stop
ask_to_stop-ExitInv n i = ground (arith, ask_follower n, permit-ExitInv n)

pub can_stop-ExitInv : Keeps ExitInv can_stop
unfolding can_stop
can_stop-ExitInv n i =
    after-Always ExitInv (ask_to_stop n) _ (ask_to_stop-ExitInv n i) (λ a k h. ground (arith, h))

-- Any message but those three leaves the invariant alone.
pub send-ExitInv :
    (msg : Message)
    → (msg.kind == end_of_emulation) ≡ false
    → (msg.kind == intent_to_end_emulation) ≡ false
    → (msg.kind == permission_to_end_emulation) ≡ false
    → Keeps ExitInv (pdes_comm_send msg)
unfolding pdes_comm_send
send-ExitInv msg e f g n i = grind (arith, count_kind-snoc)
