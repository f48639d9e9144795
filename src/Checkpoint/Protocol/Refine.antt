-- ===== src/Checkpoint/Protocol/Refine.antt =====
-- Every callback of net/ refines the machine of `Checkpoint.Protocol`.
use qemu_pdes.Base.{
  ◌≡◌, refl, Bool, true, false, List, [], ◌∷◌, ◌++◌, if◌then◌else◌, arith, Bool-cases, inl, inr,
}
use qemu_pdes.Base.Bytes.{c_str}
use qemu_pdes.Comm.Message.{Message}
use qemu_pdes.Node.{Node, no_bh, save_snapshot}
use qemu_pdes.Node.Monad.{M, when, skip, exit, ◌>>=◌}
use qemu_pdes.Node.Always.{Always, bind-Keeps, when-Keeps, if-Always, then-Always}
use qemu_pdes.Utility.{process_message_at_virtual_time}
use qemu_pdes.Engine.Exit.{pdes_engine_destroy, can_stop}
use qemu_pdes.Engine.Pause.{pdes_pause_bh}
use qemu_pdes.Engine.Process.{finish_initiate_checkpoint}
use qemu_pdes.Checkpoint.Boundary.{take_checkpoint, create_checkpoint_bh, validate_checkpoint}
use qemu_pdes.Wwt.Setup.{setup_wwt}
use qemu_pdes.Netdev.{pdes_net_receive}
use qemu_pdes.Callbacks.{
  Event, advance, arrive, setup_timer_fires, quantum_timer_fires, sync_check_timer_fires,
  poll_timer_fires, message_timer_fires, pause_bh_runs, checkpoint_bh_runs, packet_sent,
  flexus_asks_to_stop, flexus_stops, checkpoint_signal, snapshot_asked, handle,
}
use qemu_pdes.Checkpoint.Protocol.{View, view, saves, Move, Star, none_yet, From}
use qemu_pdes.Checkpoint.Protocol.Frame.{Shows, view_of, saves-snoc}
use qemu_pdes.Checkpoint.Protocol.Quiet.{
  Quiet, can_stop-Quiet, pause_bh-Quiet, net_receive-Quiet, setup-Quiet, message_timer-Quiet,
  validate-Quiet,
}
use qemu_pdes.Checkpoint.Protocol.Order.{Quiet-Keeps, finish_initiate-From}
use qemu_pdes.Checkpoint.Protocol.Stars.{Exchanges-Move}
use qemu_pdes.Checkpoint.Protocol.Barrier.{
  poll-Move, destroy-Move, wwt_sync_check-Move, quanta_sync-Move,
}

-- The one snapshot, and no flag left.
abbrev pub saved_view : Node → View
saved_view n = record (view n) {
  needs = false;
  notified = false;
  target = 0;
  bh = no_bh;
  saved =
      saves n.trace
      ++ (save_snapshot (c_str n.engine.checkpoint_name) n.engine.checkpoint_format ∷ []);
}

-- What comes before the moves of an event: the snapshot, in the bottom half that takes it, and the
-- messages that the neighbour puts into the ring.
abbrev pub first_view : Event → Node → View
first_view (checkpoint_bh_runs exit_after) n =
    if n.engine.needs_to_checkpoint then saved_view n else view n
first_view (arrive batches) n = view (record n { arriving = n.arriving ++ batches })
first_view _ n = view n

take-Shows : (n : Node) → Always (Shows (saved_view n)) (take_checkpoint n)
unfolding take_checkpoint
take-Shows n = grind (arith, saves-snoc)

bh-Move :
    (exit_after : Bool) (n : Node)
    → Always
        (From Move (first_view (checkpoint_bh_runs exit_after) n))
        (create_checkpoint_bh exit_after n)
unfolding create_checkpoint_bh
bh-Move exit_after n =
    let P = From Move (first_view (checkpoint_bh_runs exit_after) n) in
    if-Always P n.engine.needs_to_checkpoint _ skip n
      (λ e.
        then-Always (Shows (saved_view n)) P (take_checkpoint n) _ (take-Shows n)
          (λ k s. rw (e, view_of s) none_yet)
          (λ last k s.
            bind-Keeps P (when last pdes_engine_destroy) _
              (when-Keeps P last pdes_engine_destroy
                (destroy-Move (first_view (checkpoint_bh_runs exit_after) n)))
              (λ _. when-Keeps P exit_after exit (λ l h. h)) k (rw (e, view_of s) none_yet)))
      (λ e. rw e none_yet)

ignoring :
    {A : Type 0} (m : M A)
    → Quiet m
    → (n : Node) → Always (From Move (view n)) ((m >>= λ _. skip) n)
ignoring m q n =
    bind-Keeps (From Move (view n)) m _ (Quiet-Keeps (Star Move (view n)) m q) (λ _ k h. h) n
      none_yet

-- Each event, whatever the state and the messages: unless it stops at a fault, the node comes, by a
-- number of moves of the machine, from its view before the event, with what then arrives, if
-- messages do, or with one snapshot and no flag left, if it is the bottom half and the node needs a
-- checkpoint.
pub handle_refines : (e : Event) (n : Node) → Always (From Move (first_view e n)) (handle e n)
unfolding handle
handle_refines (advance v h r) n = none_yet
handle_refines (arrive batches) n = none_yet
handle_refines setup_timer_fires n =
    Quiet-Keeps (Star Move (view n)) setup_wwt setup-Quiet n none_yet
handle_refines quantum_timer_fires n = quanta_sync-Move (view n) n none_yet
handle_refines sync_check_timer_fires n = wwt_sync_check-Move (view n) n none_yet
handle_refines poll_timer_fires n = poll-Move (view n) n none_yet
handle_refines (message_timer_fires ctx) n =
    Quiet-Keeps (Star Move (view n)) (process_message_at_virtual_time ctx) (message_timer-Quiet ctx)
      n none_yet
handle_refines pause_bh_runs n =
    Quiet-Keeps (Star Move (view n)) pdes_pause_bh pause_bh-Quiet n none_yet
handle_refines (checkpoint_bh_runs b) n = bh-Move b n
handle_refines (packet_sent bytes) n = ignoring (pdes_net_receive bytes) (net_receive-Quiet bytes) n
handle_refines flexus_asks_to_stop n = ignoring can_stop can_stop-Quiet n
handle_refines flexus_stops n = destroy-Move (view n) n none_yet
handle_refines checkpoint_signal n =
    Exchanges-Move finish_initiate_checkpoint finish_initiate-From (view n) n none_yet
handle_refines (snapshot_asked name) n = ignoring (validate_checkpoint name) (validate-Quiet name) n

-- How an event begins.
pub data Begins (e : Event) (n : Node) : Type 0 where
  unchanged : first_view e n ≡ view n → Begins e n
  arrived : (batches : List (List Message)) → e ≡ arrive batches → Begins e n
  saves_snapshot :
      (exit_after : Bool)
      → e ≡ checkpoint_bh_runs exit_after
      → n.engine.needs_to_checkpoint ≡ true
      → Begins e n

no_snapshot : (b : Bool) (v w : View) → b ≡ false → (if b then w else v) ≡ v
no_snapshot true v w e = cc
no_snapshot false v w e = refl

pub begins : (e : Event) (n : Node) → Begins e n
begins (arrive batches) n = arrived batches refl
begins (checkpoint_bh_runs b) n = elim (Bool-cases n.engine.needs_to_checkpoint) [
  | inl h ↦ saves_snapshot b refl h
  | inr h ↦ unchanged (no_snapshot n.engine.needs_to_checkpoint (view n) (saved_view n) h)
]
begins (advance v h t) n = unchanged refl
begins setup_timer_fires n = unchanged refl
begins quantum_timer_fires n = unchanged refl
begins sync_check_timer_fires n = unchanged refl
begins poll_timer_fires n = unchanged refl
begins (message_timer_fires ctx) n = unchanged refl
begins pause_bh_runs n = unchanged refl
begins (packet_sent bytes) n = unchanged refl
begins flexus_asks_to_stop n = unchanged refl
begins flexus_stops n = unchanged refl
begins checkpoint_signal n = unchanged refl
begins (snapshot_asked name) n = unchanged refl
