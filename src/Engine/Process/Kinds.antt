-- ===== src/Engine/Process/Kinds.antt =====
-- What `process_message` does with a message of each kind that a synchronising node can receive.
use qemu_pdes.Base.{
  ℕ, ◌+◌, ◌%◌, ◌^◌, ◌<◌, ◌==◌, ◌&&◌, ◌||◌, true, false, some, List, [], ◌∷◌, ◌++◌, ◌≡◌, ◌≢◌, ap,
  arith, if◌then◌else◌, take, take-append, replicate,
}
use mathlib.Core.Path.{subst}
use qemu_pdes.Base.Word.{u32, minus_one64}
use qemu_pdes.Base.Bytes.{le_bytes, length-le_bytes, of_le_bytes-le_bytes}
use qemu_pdes.Comm.Message.{
  Message, create_message, read_at, zero_padded, msg_type_sync, end_of_emulation,
  intent_to_end_emulation, permission_to_end_emulation,
}
use qemu_pdes.Node.{Node, Effect, libqflex_stop, no_timer}
use qemu_pdes.Node.Monad.{ret, fault, exited, assertion}
use qemu_pdes.Node.Channel.{pdes_comm_send}
use qemu_pdes.Utility.{get_universal_virtual_time, sync_count_increment}
use qemu_pdes.Utility.Time.{universal}
use qemu_pdes.Engine.Exit.{send_end_if_handshake_complete, checkpoint_or_exit, is_some, permit}
use qemu_pdes.Engine.Process.{process_message, on_intent, on_permission, on_end}
use qemu_pdes.Wwt.Receive.{wwt_recivied_callback, receive_sync, is_valid_round}

read_sync : (m : Message) (s : ℕ) → m.payload ≡ le_bytes 8 s → read_at m 0 8 ≡ some (le_bytes 8 s)
unfolding read_at zero_padded
read_sync m s e = rw e (
    subst (λ (k : ℕ). some (take k (le_bytes 8 s ++ replicate 8 0)) ≡ some (le_bytes 8 s))
      (length-le_bytes 8 s) (ap some (take-append (le_bytes 8 s) (replicate 8 0))))

pub receives_sync :
    (m : Message) (s : ℕ) (k : Node)
    → m.kind ≡ msg_type_sync
    → m.len ≡ 8
    → m.payload ≡ le_bytes 8 s
    → s < 256 ^ 8
    → k.engine.first_sync_virtual_time ≢ minus_one64
    → k.wwt.should_sync ≡ true
    → process_message m k ≡ (
        if is_valid_round k.wwt s
        then ret tt (record k {
          wwt = record k.wwt { sync_counts = sync_count_increment k.wwt.sync_counts s };
        })
        else fault assertion)
unfolding process_message wwt_recivied_callback receive_sync get_universal_virtual_time
receives_sync m s k e l p h f y =
    ground (arith, e, l, read_sync m s p, of_le_bytes-le_bytes 8 s h, y, f)

-- A sync message whose eight bytes hold a round, at a synchronising node that is set up: it is
-- counted if its round is the current one, or the next one while the node waits at the barrier,
-- under the low 32 bits of the round and in 32 bits; any other stops the node at an assertion.
pub process_sync :
    (m : Message) (s : ℕ) (k : Node)
    → m.kind ≡ msg_type_sync
    → m.len ≡ 8
    → m.payload ≡ le_bytes 8 s
    → s < 256 ^ 8
    → k.engine.first_sync_virtual_time ≢ minus_one64
    → k.wwt.should_sync ≡ true
    → let w = k.wwt in
      process_message m k ≡ (
        if (s == w.current_quantum_round)
          || (w.finished_quantum && (s == (w.current_quantum_round + 1) % 2 ^ 64))
        then ret tt (record k {
          wwt = record w {
            sync_counts = λ key.
                if key == s % 2 ^ 32
                then (w.sync_counts (s % 2 ^ 32) + 1) % 2 ^ 32
                else w.sync_counts key;
          };
        })
        else fault assertion)
unfolding sync_count_increment
process_sync m s k e l p h f y = receives_sync m s k e l p h f y

pub process_intent :
    (m : Message) (k : Node)
    → m.kind ≡ intent_to_end_emulation
    → k.engine.first_sync_virtual_time ≢ minus_one64
    → process_message m k
      ≡ ret tt (record k {
        engine = record k.engine {
          ready_to_exit_neighbors =
              if k.engine.master
              then u32 (k.engine.ready_to_exit_neighbors + 1)
              else k.engine.ready_to_exit_neighbors;
        };
      })
unfolding process_message wwt_recivied_callback on_intent get_universal_virtual_time
process_intent m k e f = ground arith

-- At a node that is set up, END_OF_EMULATION sets `pair_has_finished` if the node is permitted to
-- exit, and else stops it at an assertion.
pub process_end :
    (m : Message) (k : Node)
    → m.kind ≡ end_of_emulation
    → k.engine.first_sync_virtual_time ≢ minus_one64
    → process_message m k ≡ (
        if k.engine.permitted_to_exit
        then ret tt (record k { engine = record k.engine { pair_has_finished = true } })
        else fault assertion)
unfolding process_message wwt_recivied_callback on_end get_universal_virtual_time
process_end m k e f = ground arith

abbrev pub end_message : Node → Message
end_message k = record { ts_ns = universal k; len = 0; payload = []; kind = end_of_emulation }

-- A permitted node after `send_end_if_handshake_complete`.
abbrev pub ended : Node → Node
ended k = if k.engine.end_message_sent then k else record k {
  engine = record k.engine { end_message_sent = true };
  outbox = k.outbox ++ (end_message k ∷ []);
}

pub send_end_lem :
    (k : Node)
    → k.engine.first_sync_virtual_time ≢ minus_one64
    → k.engine.connected ≡ true
    → k.engine.permitted_to_exit ≡ true
    → send_end_if_handshake_complete k ≡ ret tt (ended k)
unfolding send_end_if_handshake_complete get_universal_virtual_time create_message pdes_comm_send
send_end_lem k f c p = ground arith

pub send_end_skip :
    (k : Node) → k.engine.permitted_to_exit ≡ false → send_end_if_handshake_complete k ≡ ret tt k
unfolding send_end_if_handshake_complete
send_end_skip k p = ground arith

abbrev pub exit_trace : Node → List Effect
exit_trace k = if is_some k.flexus then k.trace ++ (libqflex_stop ∷ []) else k.trace

-- Without a checkpoint the process leaves, and its check of the barrier is cancelled.
pub exit_lem :
    (k : Node)
    → k.engine.needs_to_checkpoint ≡ false
    → checkpoint_or_exit k
      ≡ exited
          (record k { wwt = record k.wwt { sync_check_timer = no_timer }; trace = exit_trace k })
unfolding checkpoint_or_exit
exit_lem k e = ground arith

abbrev pub permit_flag : Node → Node
permit_flag k = record k { engine = record k.engine { permitted_to_exit = true } }

-- At a connected node that is set up, a permission sets `permitted_to_exit` and sends
-- END_OF_EMULATION unless it has been sent before.
pub process_permission :
    (m : Message) (k : Node)
    → m.kind ≡ permission_to_end_emulation
    → k.engine.first_sync_virtual_time ≢ minus_one64
    → k.engine.connected ≡ true
    → process_message m k ≡ ret tt (ended (permit_flag k))
unfolding process_message wwt_recivied_callback on_permission get_universal_virtual_time
process_permission m k e f c = ground (arith, send_end_lem (permit_flag k))

abbrev pub permission_message : Node → Message
permission_message k = record {
  ts_ns = universal k;
  len = 0;
  payload = [];
  kind = permission_to_end_emulation;
}

abbrev pub permitting : Node → Node
permitting k = ended (record k {
  engine = record k.engine { permitted_to_exit = true };
  outbox = k.outbox ++ (permission_message k ∷ []);
})

pub permit_lem :
    (k : Node)
    → k.engine.first_sync_virtual_time ≢ minus_one64
    → k.engine.connected ≡ true
    → permit k ≡ ret tt (permitting k)
unfolding permit get_universal_virtual_time create_message pdes_comm_send
permit_lem k f c = ground (
  arith,
  send_end_lem (record k {
    engine = record k.engine { permitted_to_exit = true };
    outbox = k.outbox ++ (permission_message k ∷ []);
  }),
)
