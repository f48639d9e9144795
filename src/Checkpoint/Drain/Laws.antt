-- ===== src/Checkpoint/Drain/Laws.antt =====
-- What `pdes_drain` does at a node that can send.
use qemu_pdes.Base.{
  ℕ, ◌+◌, ◌^◌, ◌<◌, ◌≡◌, ◌≢◌, Bool, true, false, some, List, [], ◌∷◌, ◌++◌, arith, if◌then◌else◌,
  All, ◌==◌,
}
use qemu_pdes.Base.Word.{minus_one64}
use qemu_pdes.Comm.Message.{Message, create_message, drain_end}
use qemu_pdes.Node.{Node, write_file}
use qemu_pdes.Node.Monad.{ret, fault, assertion}
use qemu_pdes.Node.Channel.{pdes_comm_send}
use qemu_pdes.Utility.{get_universal_virtual_time}
use qemu_pdes.Utility.Time.{universal}
use qemu_pdes.Checkpoint.Drain.{pdes_drain, announce_drain_end, is_libqflex}
use qemu_pdes.Checkpoint.Inflight.{Inflight}
use qemu_pdes.Checkpoint.Inflight.Laws.{IsCounted}
use qemu_pdes.Checkpoint.Json.{ok, get_json_file_name}
use qemu_pdes.Checkpoint.Json.Restore.{pdes_inflight_restore_and_schedule}
use qemu_pdes.Checkpoint.Json.RoundTrip.{Fits}
use qemu_pdes.Checkpoint.Json.RoundTrip.Whole.{ends_with_data}
use qemu_pdes.Checkpoint.Json.RoundTrip.Content.{whole_text}
use qemu_pdes.Checkpoint.Json.RoundTrip.File.{files_after, save_json_lem, restore_lem, restored}

abbrev pub drain_end_message : Node → Message
drain_end_message n = record { ts_ns = universal n; len = 0; payload = []; kind = drain_end }

-- The master after the announcement; a follower announces nothing.
abbrev pub announced : Node → Node
announced n =
    if n.engine.master
    then record n {
      engine = record n.engine { checkpoint_in_progress = true; neighbour_drained = 0 };
      outbox = n.outbox ++ (drain_end_message n ∷ []);
    }
    else n

-- A connected node that is set up.
pub record CanSend (n : Node) : Type 0 where
  pub connected : n.engine.connected ≡ true
  pub first : n.engine.first_sync_virtual_time ≢ minus_one64

announce_drain_end_lem :
    (n : Node) → CanSend n → n.engine.master ≡ true → announce_drain_end n ≡ ret tt (announced n)
unfolding announce_drain_end get_universal_virtual_time create_message pdes_comm_send
announce_drain_end_lem n c m = ground (arith, c)

-- The node when the file is there.
abbrev pub drained : Node → List ℕ → List ℕ → Node
drained n name text = record (announced n) {
  trace = n.trace ++ (write_file (get_json_file_name name) text ∷ []);
}

drain_lem :
    (opens : List ℕ → Bool) (s : Inflight) (name : List ℕ) (format : ℕ) (n : Node)
    → CanSend n
    → IsCounted s
    → All Fits s.pending
    → opens (get_json_file_name name) ≡ true
    → pdes_drain opens s name format n ≡ (
        if is_libqflex n.flexus
        then if format == n.base_format
          then ret 0 (drained n name (whole_text s.pending))
          else fault assertion
        else ret 0 (drained n name (whole_text s.pending)))
unfolding pdes_drain
drain_lem opens s name format n c i f o =
    ground (arith, announce_drain_end_lem n c, save_json_lem opens name s i f o)

-- At a connected node that is set up, when the file can be opened: under libqflex another format
-- than the incremental base stops at the assertion; otherwise the master sends the end of draining
-- and a follower sends nothing, and both write a file. With a well-formed list of messages that fit
-- their types and whose last entry has no data, another process that restores from this file has
-- all the messages scheduled and in its list, in front of the ones it had, with fewer than 2^31 in all.
pub drain-restore :
    (opens : List ℕ → Bool) (s s0 : Inflight) (name : List ℕ) (format : ℕ) (has_cb : Bool)
    (n : Node)
    → CanSend n
    → IsCounted s
    → All Fits s.pending
    → opens (get_json_file_name name) ≡ true
    → ends_with_data s.pending ≡ false
    → IsCounted s0
    → s0.count + s.count < 2 ^ 31
    → (text : List ℕ) × (pdes_drain opens s name format n ≡ (
        if is_libqflex n.flexus
        then if format == n.base_format then ret 0 (drained n name text) else fault assertion
        else ret 0 (drained n name text)))
      × (pdes_inflight_restore_and_schedule
            (files_after (some (get_json_file_name name, text)))
            name
            has_cb
            s0
          ≡ ok (s.count, restored has_cb s s0))
drain-restore opens s s0 name format has_cb n c i f o e c0 h = (
  whole_text s.pending,
  drain_lem opens s name format n c i f o,
  restore_lem name has_cb s s0 i f e c0 h,
)
