-- ===== src/Checkpoint/Boundary/Announce.antt =====
-- A checkpoint from the master's announcement to the follower's snapshot.
use mathlib.Core.List.{append_assoc, append-nil}
use qemu_pdes.Base.{
  ℕ, ◌+◌, ◌^◌, ◌<◌, ◌≤◌, true, false, some, List, [], ◌∷◌, ◌++◌, ◌≡◌, ◌≢◌, refl, sym, ap, ◌∙◌,
  arith, length, length-append, leb, take, drop, take-append, drop-append, replicate, All,
  bytes_eq_refl,
}
use qemu_pdes.Base.Word.{minus_one64}
use qemu_pdes.Base.Bytes.{le_bytes, of_le_bytes-le_bytes, length-le_bytes, c_str, c_str-eq_self}
use qemu_pdes.Comm.Message.{Message, read_at, zero_padded, max_msg_size, drain_start}
use qemu_pdes.Node.{Node}
use qemu_pdes.Node.Monad.{ret}
use qemu_pdes.Utility.{get_universal_virtual_time}
use qemu_pdes.Utility.Time.{universal}
use qemu_pdes.Engine.Process.{process_message, on_drain_start, parse_drain_start, drain_name_len}
use qemu_pdes.Wwt.Receive.{wwt_recivied_callback}
use qemu_pdes.Wwt.Drain.{drain_payload, drain_prefix, notify_neighbors_for_drain}
use qemu_pdes.Wwt.Drain.Notify.{CanNotify, notified, drain_message, notify_by_length}
use qemu_pdes.Checkpoint.Boundary.{validate_checkpoint}

-- A slice of an array that was written.
zero_padded-slice :
    (pre mid post : List ℕ)
    → zero_padded (length mid) (drop (length pre) (pre ++ (mid ++ post))) ≡ mid
unfolding zero_padded
zero_padded-slice pre mid post =
    ap (λ (l : List ℕ). take (length mid) (l ++ replicate (length mid) 0))
      (drop-append pre (mid ++ post))
    ∙ (ap (take (length mid)) (append_assoc mid post (replicate (length mid) 0))
        ∙ take-append mid (post ++ replicate (length mid) 0))

read_slice :
    (m : Message) (pre mid post : List ℕ) (o n : ℕ)
    → m.payload ≡ pre ++ (mid ++ post)
    → o ≡ length pre
    → n ≡ length mid
    → o + n ≤ max_msg_size
    → read_at m o n ≡ some mid
unfolding read_at
read_slice m pre mid post o n e f g h =
    rw (f, g) (ground (arith, e, f, g, h, zero_padded-slice pre mid post))

module _ (name : List ℕ) (format round ts : ℕ) where
  abbrev pub full : List ℕ
  full = drain_prefix ++ name

  abbrev pub sent : Message
  sent = record {
    ts_ns = ts;
    len = length name + 17;
    payload = drain_payload name format round;
    kind = drain_start;
  }

  -- The follower after it has read the announcement.
  abbrev pub informed : Node → Node
  informed k = record k {
    engine = record k.engine {
      checkpoint_in_progress = true;
      needs_to_checkpoint = true;
      checkpoint_name = full;
      checkpoint_format = format;
      checkpoint_quantum_round = round;
    };
  }

  module _ (short : length name ≤ 989) where
    payload_split :
        drain_payload name format round ≡ full ++ (le_bytes 4 format ++ le_bytes 8 round)
    unfolding drain_payload
    payload_split = sym (append_assoc drain_prefix name (le_bytes 4 format ++ le_bytes 8 round))

    length-full : length full ≡ length name + 5
    length-full = omega (arith, length-append drain_prefix name)

    pub read_name : read_at sent 0 (length name + 5) ≡ some full
    read_name =
        read_slice sent [] full (le_bytes 4 format ++ le_bytes 8 round) 0 (length name + 5)
          payload_split refl (sym length-full) (omega arith)

    read_format : read_at sent (length name + 5) 4 ≡ some (le_bytes 4 format)
    read_format =
        read_slice sent full (le_bytes 4 format) (le_bytes 8 round) (length name + 5) 4
          payload_split (sym length-full) (sym (length-le_bytes 4 format)) (omega arith)

    pub read_round : read_at sent (length name + 5 + 4) 8 ≡ some (le_bytes 8 round)
    read_round =
        read_slice sent (full ++ le_bytes 4 format) (le_bytes 8 round) [] (length name + 5 + 4) 8
          (payload_split
            ∙ (sym (append_assoc full (le_bytes 4 format) (le_bytes 8 round))
                ∙ ap (λ (l : List ℕ). (full ++ le_bytes 4 format) ++ l)
                    (sym (append-nil (le_bytes 8 round)))))
          (omega
            (arith, length-append full (le_bytes 4 format), length-full, length-le_bytes 4 format))
          (sym (length-le_bytes 8 round)) (omega arith)

    parse_sent :
        (k : Node)
        → format < 256 ^ 4
        → round < 256 ^ 8
        → parse_drain_start sent k
          ≡ ret tt (record k {
            engine = record k.engine {
              needs_to_checkpoint = true;
              checkpoint_name = full;
              checkpoint_format = format;
              checkpoint_quantum_round = round;
            };
          })
    unfolding parse_drain_start
    parse_sent k hf hr =
        let len : drain_name_len sent ≡ length name + 5 = omega arith in
        let long : leb 12 sent.len ≡ true = ground arith in
        simp (
          len,
          long,
          read_name,
          read_format,
          read_round,
          of_le_bytes-le_bytes 4 format hf,
          of_le_bytes-le_bytes 8 round hr,
        )

    receive_ignores :
        (k : Node)
        → k.engine.first_sync_virtual_time ≢ minus_one64
        → wwt_recivied_callback sent k ≡ ret tt k
    unfolding wwt_recivied_callback get_universal_virtual_time
    receive_ignores k h = ground arith

    -- The follower takes the name, the format and the round out of the message as they went in.
    pub process_sent :
        (k : Node)
        → k.engine.first_sync_virtual_time ≢ minus_one64
        → k.engine.master ≡ false
        → format < 256 ^ 4
        → round < 256 ^ 8
        → process_message sent k ≡ ret tt (informed k)
    unfolding process_message on_drain_start
    process_sent k h m hf hr =
        let k' = record k { engine = record k.engine { checkpoint_in_progress = true } } in
        ground (arith, receive_ignores k, parse_sent k' hf hr)

    -- `validate_checkpoint` lets the follower save under that name, and takes the mark off.
    pub validate_sent :
        (k : Node)
        → k.engine.master ≡ false
        → k.has_engine ≡ true
        → All (λ b. b ≢ 0) name
        → validate_checkpoint (some (c_str full)) k ≡ ret (true, some name) k
    unfolding validate_checkpoint
    validate_sent k m h z =
        let whole : c_str full ≡ full =
          c_str-eq_self full
            (omega arith, (omega arith, (omega arith, (omega arith, (omega arith, z))))) in
        rw whole (
          ground (
            arith,
            take-append drain_prefix name,
            drop-append drain_prefix name,
            bytes_eq_refl drain_prefix,
          ))

-- The announcement of a checkpoint by a node that can announce it tells a follower that is set up
-- the format and the round, and the name under which `validate_checkpoint` then lets the follower
-- save is the one announced. The name has at most 989 bytes and no zero byte.
pub announce-validate :
    (n k : Node) (name : List ℕ) (format : ℕ)
    → CanNotify n
    → length name ≤ 989
    → All (λ b. b ≢ 0) name
    → format < 256 ^ 4
    → n.wwt.current_quantum_round < 256 ^ 8
    → k.has_engine ≡ true
    → k.engine.master ≡ false
    → k.engine.first_sync_virtual_time ≢ minus_one64
    → let m = drain_message (notified n) name format in
      let k' = informed name format n.wwt.current_quantum_round m.ts_ns k in
      (notify_neighbors_for_drain name format n
        ≡ ret tt (record (notified n) { outbox = n.outbox ++ (m ∷ []) }))
      × (process_message m k ≡ ret tt k')
      × (k'.engine.checkpoint_format ≡ format)
      × (k'.engine.checkpoint_quantum_round ≡ n.wwt.current_quantum_round)
      × (validate_checkpoint (some (c_str k'.engine.checkpoint_name)) k' ≡ ret (true, some name) k')
announce-validate n k name format can short z hf hr e m f = (
  notify_by_length name format can ∙ rw (c_str-eq_self name z) (ground (arith, short)),
  process_sent name format n.wwt.current_quantum_round (universal n) short k f m hf hr,
  refl,
  refl,
  validate_sent name format n.wwt.current_quantum_round (universal n) short _ m e z,
)
