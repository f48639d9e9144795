-- ===== src/Checkpoint/Coordinated/Master.antt =====
-- The end of a quantum at the node that announces a checkpoint: the announcement is ahead of the
-- sync in the ring.
use mathlib.Core.List.{append_assoc}
use qemu_pdes.Base.{
  ◌≤◌, ◌≡◌, ◌≢◌, ◌∙◌, Bool, true, false, Option, none, some, [], ◌∷◌, ◌++◌, not, ◌||◌, arith,
  length,
}
use qemu_pdes.Base.Word.{minus_one64, sub64}
use qemu_pdes.Base.Bytes.{c_str, length-le_bytes}
use qemu_pdes.Comm.Message.{Message, create_message}
use qemu_pdes.Node.{Node, Flexus}
use qemu_pdes.Node.Monad.{ret}
use qemu_pdes.Node.Ends.{Holds, after-Ends}
use qemu_pdes.Node.Channel.{pdes_comm_send}
use qemu_pdes.Utility.{get_universal_virtual_time}
use qemu_pdes.Engine.Exit.{pdes_engine_send}
use qemu_pdes.Engine.Pause.{pdes_pause, is_null}
use qemu_pdes.Engine.Process.{pdes_engine_poll}
use qemu_pdes.Engine.Process.Turns.{poll_known, last_turn}
use qemu_pdes.Wwt.Drain.{notify_of_checkpoint}
use qemu_pdes.Wwt.Drain.Notify.{CanNotify, notify_by_length}
use qemu_pdes.Wwt.Sync.{quanta_sync, send_sync, is_no_timer}
use qemu_pdes.Checkpoint.Boundary.Announce.{sent}
use qemu_pdes.Checkpoint.Coordinated.Follower.{sync_message}

-- The assertion of `pdes_pause` on Flexus holds.
abbrev pub can_pause : Option Flexus → Bool
can_pause none = true
can_pause (some f) = f.has_pause || not f.has_stop

-- A synchronising node at the end of a quantum, with a checkpoint to announce and nothing to read.
pub record Announces (n : Node) : Type 0 where
  pub connected : n.engine.connected ≡ true
  pub first : n.engine.first_sync_virtual_time ≢ minus_one64
  pub synchronises : n.wwt.should_sync ≡ true
  pub needs : n.engine.needs_to_checkpoint ≡ true
  pub pending : n.engine.notified_neighbors ≡ false
  pub running : is_null n.engine.pause_bh ≡ true
  pub no_check : is_no_timer n.wwt.sync_check_timer ≡ true
  pub pauses : can_pause n.flexus ≡ true
  pub nothing_arrives : n.arriving ≡ []
  pub nothing_there : n.inbox ≡ []
  pub short : length (c_str n.engine.checkpoint_name) ≤ 989

module _ (m : Node) where
  -- Up to the announcement.
  pub record Ready (k : Node) : Type 0 where
    pub connected : k.engine.connected ≡ true
    pub first : k.engine.first_sync_virtual_time ≢ minus_one64
    pub needs : k.engine.needs_to_checkpoint ≡ true
    pub pending : k.engine.notified_neighbors ≡ false
    pub no_check : is_no_timer k.wwt.sync_check_timer ≡ true
    pub nothing_arrives : k.arriving ≡ []
    pub nothing_there : k.inbox ≡ []
    pub name : k.engine.checkpoint_name ≡ m.engine.checkpoint_name
    pub format : k.engine.checkpoint_format ≡ m.engine.checkpoint_format
    pub round : k.wwt.current_quantum_round ≡ m.wwt.current_quantum_round
    pub same_first : k.engine.first_sync_virtual_time ≡ m.engine.first_sync_virtual_time
    pub clock : k.virtual_ns ≡ m.virtual_ns
    pub nothing_sent : k.outbox ≡ m.outbox

  pause-Ready :
      (k : Node)
      → Ready k
      → is_null k.engine.pause_bh ≡ true
      → can_pause k.flexus ≡ true
      → Holds Ready (pdes_pause k)
  unfolding pdes_pause
  pause-Ready k r p c = grind (arith, r)

  -- The announcement and the sync of the round.
  abbrev pub announced : Message
  announced =
      sent (c_str m.engine.checkpoint_name) m.engine.checkpoint_format m.wwt.current_quantum_round
        (sub64 m.virtual_ns m.engine.first_sync_virtual_time)

  abbrev pub synced : Message
  synced =
      sync_message m.wwt.current_quantum_round (sub64 m.virtual_ns m.engine.first_sync_virtual_time)

  pub record Told (k : Node) : Type 0 where
    pub connected : k.engine.connected ≡ true
    pub first : k.engine.first_sync_virtual_time ≢ minus_one64
    pub no_check : is_no_timer k.wwt.sync_check_timer ≡ true
    pub round : k.wwt.current_quantum_round ≡ m.wwt.current_quantum_round
    pub same_first : k.engine.first_sync_virtual_time ≡ m.engine.first_sync_virtual_time
    pub clock : k.virtual_ns ≡ m.virtual_ns
    pub out : k.outbox ≡ m.outbox ++ (announced ∷ [])

  notify-Told :
      (k : Node)
      → Ready k
      → length (c_str m.engine.checkpoint_name) ≤ 989
      → Holds Told (notify_of_checkpoint k)
  unfolding notify_of_checkpoint
  notify-Told k r short =
      let can : CanNotify k = record {
        connected = r.connected;
        first = r.first;
        needs = r.needs;
        pending = r.pending;
      } in
      rw (notify_by_length {n = k} k.engine.checkpoint_name k.engine.checkpoint_format can)
        (grind (arith, r, short))

  send-Out :
      (k : Node)
      → Told k
      → Holds
          (λ n.
            (n.outbox ≡ m.outbox ++ (announced ∷ synced ∷ []))
            × (is_no_timer n.wwt.sync_check_timer ≡ true))
          (send_sync k)
  unfolding send_sync pdes_engine_send get_universal_virtual_time create_message pdes_comm_send
  send-Out k t = grind (
    arith,
    t,
    length-le_bytes 8 k.wwt.current_quantum_round,
    append_assoc m.outbox (announced ∷ []) (synced ∷ []),
  )

  finished-Ready :
      Announces m
      → Ready (record m { wwt = record m.wwt { should_sync = true; finished_quantum = true } })
  finished-Ready a = grind (arith, a)

  poll-Ready : (k : Node) → Ready k → pdes_engine_poll k ≡ ret tt k
  poll-Ready k r =
      poll_known k [] r.nothing_arrives r.nothing_there ∙ last_turn 0 k r.connected r.nothing_there

  abbrev Out : Node → Type 0
  Out n = n.outbox ≡ m.outbox ++ (announced ∷ synced ∷ [])

  abbrev SentBoth : Unit {0} → Node → Type 0
  SentBoth u n = Out n × (is_no_timer n.wwt.sync_check_timer ≡ true)

  abbrev Nowhere : Node → Type 0
  Nowhere n = ⊥

  pub quanta_sync-Out : Announces m → Holds Out (quanta_sync m)
  unfolding quanta_sync
  quanta_sync-Out a =
      let finished = record m {
        wwt = record m.wwt { should_sync = true; finished_quantum = true };
      } in
      simp (a.synchronises) (
        after-Ends (λ _. Ready) (λ _. Out) Nowhere Nowhere (pdes_pause finished) _
          (pause-Ready finished (finished-Ready a) a.running a.pauses)
          (λ _ k r.
            simp (poll-Ready k r, r.needs, r.pending)
              (after-Ends (λ _. Told) (λ _. Out) Nowhere Nowhere (notify_of_checkpoint k) _
                (notify-Told k r a.short)
                (λ _ l t.
                  after-Ends SentBoth (λ _. Out) Nowhere Nowhere (send_sync l) _ (send-Out l t)
                    (λ _ n o. simp (o.1) (o.0))))))
