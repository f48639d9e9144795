-- ===== src/System/Receive.antt =====
-- A node of the pair reads a message: no assertion fails, and the invariant is kept.
use mathlib.Core.List.{append_assoc}
use mathlib.Core.Path.{subst₂}
use native.Mathlib.Nat.{add-zero, mul-le-mul_right}
use qemu_pdes.Base.{
  ℕ, ◌+◌, ◌*◌, ◌^◌, ◌<◌, ◌≤◌, ◌≡◌, ◌≢◌, refl, sym, ap, ◌∙◌, Bool, true, false, not, List, [], ◌∷◌,
  ◌++◌, arith, if◌then◌else◌, ltb, All-append,
}
use qemu_pdes.Base.Word.{u32, minus_one64, signed_lt64}
use qemu_pdes.Comm.Message.{
  Message, max_msg_size, msg_type_normal, msg_type_sync, end_of_emulation, intent_to_end_emulation,
  permission_to_end_emulation,
}
use qemu_pdes.Node.{Node}
use qemu_pdes.Node.Always.{count_kind, count_kind-append, count_kind-snoc}
use qemu_pdes.Node.Ends.{Holds, true-Holds}
use qemu_pdes.Utility.{sync_count_get, sync_count_increment}
use qemu_pdes.Utility.Counts.{get-increment}
use qemu_pdes.Utility.Time.{universal}
use qemu_pdes.Engine.Exit.Invariant.{bit, bit-le}
use qemu_pdes.Engine.Process.{process_message}
use qemu_pdes.Engine.Process.Poll.{taken}
use qemu_pdes.Engine.Process.Kinds.{
  receives_sync, process_intent, process_end, process_permission, ended, permit_flag,
}
use qemu_pdes.Netdev.Delivery.{process_normal, context}
use qemu_pdes.Wwt.Receive.{is_valid_round}
use qemu_pdes.System.{stream, flat}
use qemu_pdes.System.Wire.{
  Good, good_sync, good_packet, good_intent, good_permission, good_end, Wire-at, syncs, permissions,
  is_kind,
}
use qemu_pdes.System.Send.{ended-Inv}
use qemu_pdes.System.Invariant.{Deliverable, Phase, Barrier, Grant, Stream, Inv}

module _ {q : ℕ} {phase : Phase} {role : Bool} {wire base : List Message} {n : Node}
    (i : Inv q phase role wire base n) (m : Message) (rest' : List Message)
    (at_head : n.inbox ≡ m ∷ rest') where
  open i use {fixed, pending, clock, barrier, grant, streams}

  abbrev behind : List Message
  behind = (rest' ++ flat n.arriving) ++ streams.rest

  wire_split : wire ≡ n.received ++ (m ∷ behind)
  wire_split =
      sym streams.split
      ∙ (append_assoc n.received (n.inbox ++ flat n.arriving) streams.rest
          ∙ ap (λ (l : List Message). n.received ++ ((l ++ flat n.arriving) ++ streams.rest))
              at_head)

  good : Good (not role) q (syncs n.received) (permissions n.received) m
  good =
      let here = Wire-at (not role) q 0 0 n.received m behind (rw wire_split at streams.other) in
      subst₂ (λ (s p : ℕ). Good (not role) q s p m) (add-zero (syncs n.received))
        (add-zero (permissions n.received)) here

  bound : (k : ℕ) → is_kind k m + count_kind k n.received ≤ count_kind k wire
  unfolding count_kind
  bound k = omega (arith, ap (count_kind k) wire_split, count_kind-append k n.received (m ∷ behind))

  abbrev read : Node
  read = taken m rest' n

  snoc : (k : ℕ) → count_kind k (n.received ++ (m ∷ [])) ≡ count_kind k n.received + is_kind k m
  snoc k = count_kind-snoc k n.received m

  first_set : n.engine.first_sync_virtual_time ≢ minus_one64
  first_set = omega (arith, fixed)

  stream-read : stream read ++ streams.rest ≡ wire
  stream-read =
      append_assoc (n.received ++ (m ∷ [])) (rest' ++ flat n.arriving) streams.rest
      ∙ (append_assoc n.received (m ∷ []) behind ∙ sym wire_split)

  -- The counts of the others stay as they are unless a sync is read.
  counts_read :
      is_kind msg_type_sync m ≡ 0
      → (r : ℕ) → r < 2 ^ 32
      → sync_count_get n.wwt.sync_counts r ≡ bit (ltb r (syncs read.received))
  counts_read z r h =
      let same : syncs read.received ≡ syncs n.received = omega (arith, snoc msg_type_sync) in
      rw same (barrier.counts r h)

  -- A message that is neither a sync nor a control message that this side acts on.
  module _ (plain : is_kind msg_type_sync m ≡ 0) where
    Barrier-read : Barrier phase wire n.outbox read.received n.wwt
    Barrier-read = record {
      at_round = barrier.at_round;
      at_finished = barrier.at_finished;
      at_timer = barrier.at_timer;
      sent = barrier.sent;
      heard = omega (arith, barrier, snoc msg_type_sync);
      lead = barrier.lead;
      small = barrier.small;
      counts = counts_read plain;
    }

  Grant-read : is_kind permission_to_end_emulation m ≡ 0 → Grant wire read
  Grant-read z = ground (arith, grant, snoc permission_to_end_emulation)

  streams_read : Stream q role wire base read
  streams_read = record {
    master = streams.master;
    own = streams.own;
    other = streams.other;
    rest = streams.rest;
    split = stream-read;
    more = streams.more;
    grown = streams.grown;
  }

  -- A sync.
  module _ (e : m.kind ≡ msg_type_sync) where
    abbrev round : ℕ
    round = syncs n.received

    is_sync : is_kind msg_type_sync m ≡ 1
    is_sync = ground arith

    round_small : round < 2 ^ 32
    round_small =
        omega (arith, barrier, bound msg_type_sync, is_sync, bit-le n.wwt.finished_quantum)

    round_valid : is_valid_round n.wwt round ≡ true
    round_valid =
        ground (arith, barrier.heard, barrier.lead, barrier.small, bound msg_type_sync, is_sync)

    abbrev synced : Node
    synced = record read {
      wwt = record n.wwt { sync_counts = sync_count_increment n.wwt.sync_counts round };
    }

    counts_synced :
        (r : ℕ)
        → r < 2 ^ 32
        → sync_count_get synced.wwt.sync_counts r ≡ bit (ltb r (syncs synced.received))
    counts_synced r h = ground (
      arith,
      get-increment n.wwt.sync_counts round r,
      barrier.counts r h,
      barrier.counts round round_small,
      snoc msg_type_sync,
      is_sync,
      round_small,
    )

    Barrier-synced : Barrier phase wire n.outbox read.received synced.wwt
    Barrier-synced = record {
      at_round = barrier.at_round;
      at_finished = barrier.at_finished;
      at_timer = barrier.at_timer;
      sent = barrier.sent;
      heard = omega (arith, barrier, snoc msg_type_sync);
      lead = barrier.lead;
      small = barrier.small;
      counts = counts_synced;
    }

    synced-Inv : Inv q phase role wire base synced
    synced-Inv = record {
      fixed = ground (arith, fixed);
      pending = pending;
      clock = ground (arith, clock);
      barrier = Barrier-synced;
      grant = ground (arith, grant, snoc permission_to_end_emulation);
      streams = ground (arith, streams_read);
    }

  -- A packet is not in the past: the syncs before it have opened the quantum that it is due in.
  module _ (e : m.kind ≡ msg_type_normal) (due : syncs n.received * q ≤ m.ts_ns)
      (filled : 0 < m.len) (fits : m.len ≤ max_msg_size) where
    abbrev waiting : Node
    waiting = record read { waiting_messages = n.waiting_messages ++ (context read m ∷ []) }

    in_time : m.ts_ns < 2 ^ 63 → signed_lt64 m.ts_ns (universal read) ≡ false
    in_time lt =
        let opened : n.wwt.current_quantum_round * q ≤ syncs n.received * q =
          mul-le-mul_right q barrier.heard in
        ground (arith, fixed, clock.late, opened, due)

    on_context : Deliverable (context read m)
    on_context = record { filled = filled; fits = fits; kind = e; has_cb = fixed.has_recv_cb }

    waiting-Inv : Inv q phase role wire base waiting
    waiting-Inv =
        let z : is_kind msg_type_sync m ≡ 0 = ground arith in
        record {
          fixed = ground (arith, fixed);
          pending =
              All-append Deliverable n.waiting_messages (context read m ∷ []) pending
                (on_context, tt);
          clock = ground (arith, clock);
          barrier = Barrier-read z;
          grant = ground (arith, grant, snoc permission_to_end_emulation);
          streams = ground (arith, streams_read);
        }

  -- An intent, counted by the master.
  module _ (e : m.kind ≡ intent_to_end_emulation) where
    abbrev asked : Node
    asked = record read {
      engine = record n.engine {
        ready_to_exit_neighbors =
            if n.engine.master
            then u32 (n.engine.ready_to_exit_neighbors + 1)
            else n.engine.ready_to_exit_neighbors;
      };
    }

    asked-Inv : Inv q phase role wire base asked
    asked-Inv = record {
      fixed = ground (arith, fixed);
      pending = pending;
      clock = ground (arith, clock);
      barrier = Barrier-read (ground arith);
      grant = ground (arith, grant, snoc permission_to_end_emulation);
      streams = ground (arith, streams_read);
    }

  -- END_OF_EMULATION comes to a node that is permitted to exit.
  module _ (e : m.kind ≡ end_of_emulation)
      (after_permission : not role ≡ true → 1 ≤ permissions n.received) where
    may_exit : n.engine.permitted_to_exit ≡ true
    may_exit =
        ground (
          arith,
          grant.end_ok,
          grant.told,
          bound end_of_emulation,
          streams.master,
          after_permission,
        )

    abbrev parted : Node
    parted = record read { engine = record n.engine { pair_has_finished = true } }

    parted-Inv : Inv q phase role wire base parted
    parted-Inv = record {
      fixed = ground (arith, fixed);
      pending = pending;
      clock = ground (arith, clock);
      barrier = Barrier-read (ground arith);
      grant = ground (arith, grant, snoc permission_to_end_emulation, may_exit);
      streams = ground (arith, streams_read);
    }

  -- The follower's permission.
  module _ (e : m.kind ≡ permission_to_end_emulation) (follower : role ≡ false) where
    released-Inv : Inv q phase role wire base (ended (permit_flag read))
    released-Inv =
        ended-Inv {n = permit_flag read}
          (record {
            fixed = ground (arith, fixed);
            pending = pending;
            clock = ground (arith, clock);
            barrier = Barrier-read (ground arith);
            grant = ground (arith, grant, snoc permission_to_end_emulation);
            streams = ground (arith, streams_read);
          })
          refl (λ r. cc)

  sync_bytes : is_kind msg_type_sync m ≡ 1 → syncs n.received < 256 ^ 8
  sync_bytes z = omega (arith, barrier, bound msg_type_sync, bit-le n.wwt.finished_quantum)

  handled :
      Good (not role) q (syncs n.received) (permissions n.received) m
      → Holds (Inv q phase role wire base) (process_message m read)
  handled (good_sync e l p) =
      rw
        (receives_sync m (syncs n.received) read e l p (sync_bytes (ground arith)) first_set
          fixed.should_sync)
        (rw (round_valid e) (synced-Inv e))
  handled (good_packet e due lt filled fits) =
      rw (process_normal read m first_set fixed.should_sync e)
        (rw (in_time e due filled fits lt) (waiting-Inv e due filled fits))
  handled (good_intent e l) = rw (process_intent m read e first_set) (asked-Inv e)
  handled (good_permission e l r) =
      rw (process_permission m read e first_set fixed.connected) (released-Inv e (ground arith))
  handled (good_end e l o) = rw (process_end m read e first_set) (
      true-Holds (Inv q phase role wire base) n.engine.permitted_to_exit _ _ (may_exit e o)
        (parted-Inv e o))

  -- The node handles the message without a fault, and is as well off as before.
  pub receive-Inv : Holds (Inv q phase role wire base) (process_message m (taken m rest' n))
  receive-Inv = handled good

  pub len_small : m.len ≤ max_msg_size
  len_small = small_of good
    where
      small_of :
          Good (not role) q (syncs n.received) (permissions n.received) m → m.len ≤ max_msg_size
      small_of (good_sync e l p) = omega arith
      small_of (good_packet e due lt filled fits) = fits
      small_of (good_intent e l) = omega arith
      small_of (good_permission e l r) = omega arith
      small_of (good_end e l o) = omega arith
