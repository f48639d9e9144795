-- ===== src/Checkpoint/Coordinated/Follower.antt =====
-- A follower that waits at the barrier, and finds the announcement and the sync of the round.
use qemu_pdes.Base.{
  ℕ, ◌^◌, ◌<◌, ◌≤◌, ◌≡◌, ◌≢◌, refl, ap, ◌∙◌, Bool, true, false, List, [], ◌∷◌, arith, length,
  length-append, All,
}
use qemu_pdes.Base.Word.{u32, minus_one64}
use qemu_pdes.Base.Bytes.{le_bytes, c_str, c_str-eq_self}
use qemu_pdes.Comm.Message.{Message, msg_type_sync}
use qemu_pdes.Node.{Node}
use qemu_pdes.Node.Monad.{Outcome, ret, after}
use qemu_pdes.Utility.{sync_count_get, sync_count_increment}
use qemu_pdes.Engine.Process.{process_message, pdes_engine_poll}
use qemu_pdes.Engine.Process.Kinds.{receives_sync}
use qemu_pdes.Engine.Process.Poll.{taken}
use qemu_pdes.Engine.Process.Turns.{poll_known, turn_done, last_turn}
use qemu_pdes.Wwt.Drain.{drain_prefix}
use qemu_pdes.Wwt.Sync.{
  is_waiting, is_waiting_for_quanta, wait_loop, pass_barrier, wwt_sync_check, sync_checkpoint_check,
  is_no_timer,
}
use qemu_pdes.Checkpoint.Boundary.Announce.{sent, full, informed, process_sent}
use qemu_pdes.Checkpoint.Cycle.{AtBarrier, told, stopped_for_checkpoint, sync_checkpoint_check_lem}

abbrev pub sync_message : ℕ → ℕ → Message
sync_message round ts = record {
  ts_ns = ts;
  len = 8;
  payload = le_bytes 8 round;
  kind = msg_type_sync;
}

-- A synchronising follower at the barrier of a round whose sync it has not had.
pub record Waits (f : Node) (round : ℕ) : Type 0 where
  pub connected : f.engine.connected ≡ true
  pub first : f.engine.first_sync_virtual_time ≢ minus_one64
  pub follower : f.engine.master ≡ false
  pub synchronises : f.wwt.should_sync ≡ true
  pub at_round : f.wwt.current_quantum_round ≡ round
  pub small : round < 2 ^ 32
  pub none_yet : f.wwt.sync_counts round ≡ 0
  pub timer : is_no_timer f.wwt.sync_check_timer ≡ false
  pub nothing_more : f.arriving ≡ []

module _ (f : Node) (name : List ℕ) (format round ts ts' : ℕ) where
  abbrev announcement : Message
  announcement = sent name format round ts

  abbrev sync : Message
  sync = sync_message round ts'

  abbrev after_announcement : Node
  after_announcement = informed name format round ts (taken announcement (sync ∷ []) f)

  abbrev counted : Node → Node
  counted k = record k {
    wwt = record k.wwt { sync_counts = sync_count_increment k.wwt.sync_counts round };
  }

  abbrev after_sync : Node
  after_sync = counted (taken sync [] after_announcement)

  -- At the check for a checkpoint.
  abbrev pub checks : Node
  checks = record after_sync {
    engine = record after_sync.engine { skip_boundry_check_after_checkpoint = false };
  }

  module _ (w : Waits f round) (short : length name ≤ 984) (whole : All (λ b. b ≢ 0) name)
      (four : format < 256 ^ 4) (ring : f.inbox ≡ announcement ∷ sync ∷ []) where
    reads_announcement :
        process_message announcement (taken announcement (sync ∷ []) f) ≡ ret tt after_announcement
    reads_announcement =
        process_sent name format round ts (omega arith) (taken announcement (sync ∷ []) f) w.first
          w.follower four (omega (arith, w.small))

    reads_sync : process_message sync (taken sync [] after_announcement) ≡ ret tt after_sync
    reads_sync =
        receives_sync sync round (taken sync [] after_announcement) refl refl refl
          (omega (arith, w.small)) w.first w.synchronises
        ∙ grind (arith, w.at_round)

    polls : pdes_engine_poll f ≡ ret tt after_sync
    polls =
        poll_known f (announcement ∷ sync ∷ []) w.nothing_more ring
        ∙ (turn_done 2 f after_announcement announcement (sync ∷ []) w.connected ring (omega arith)
              reads_announcement
            ∙ (turn_done 1 after_announcement after_sync sync [] w.connected refl (omega arith)
                  reads_sync
                ∙ last_turn 0 after_sync w.connected refl))

    heard : is_waiting after_sync.wwt ≡ false
    unfolding sync_count_get sync_count_increment
    heard =
        let same : u32 round ≡ round = omega (arith, w.small) in
        grind (arith, w.at_round, w.none_yet, same)

    waits_no_more : is_waiting_for_quanta f ≡ ret false after_sync
    unfolding is_waiting_for_quanta
    waits_no_more =
        ap (λ (o : Outcome (Unit {0})). after o (λ u k. ret (is_waiting k.wwt) k)) polls
        ∙ ap (λ (b : Bool). ret b after_sync) heard

    pub full-whole : c_str (full name format round ts) ≡ full name format round ts
    full-whole =
        c_str-eq_self (full name format round ts)
          (omega arith, (omega arith, (omega arith, (omega arith, (omega arith, whole)))))

    checks-AtBarrier : AtBarrier checks
    checks-AtBarrier = record {
      connected = w.connected;
      first = w.first;
      timer = w.timer;
      name = rw full-whole (omega (arith, length-append drain_prefix name));
    }

    stops : sync_checkpoint_check checks ≡ ret true (stopped_for_checkpoint (told checks))
    stops =
        sync_checkpoint_check_lem checks checks-AtBarrier
        ∙ grind (arith, w.at_round, w.synchronises)

    pub check_stops : wwt_sync_check f ≡ ret tt (stopped_for_checkpoint (told checks))
    unfolding wwt_sync_check wait_loop pass_barrier
    check_stops = rw (waits_no_more, stops) refl
