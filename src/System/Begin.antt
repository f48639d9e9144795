-- ===== src/System/Begin.antt =====
-- The pair when both nodes have been created and set up.
use mathlib.Core.List.{append-nil}
use qemu_pdes.Base.{ℕ, ◌+◌, ◌^◌, ◌<◌, ◌≡◌, ◌==◌, ◌∙◌, refl, sym, Bool, true, false, [], arith, ltb}
use qemu_pdes.Base.Word.{minus_one64}
use qemu_pdes.Node.{Node}
use qemu_pdes.Node.Monad.{◌>>◌}
use qemu_pdes.Node.Always.{count_kind}
use qemu_pdes.Node.Ends.{Holds}
use qemu_pdes.Utility.{sync_count_get, get_universal_virtual_time}
use qemu_pdes.Engine.Exit.Invariant.{bit, ExitInv}
use qemu_pdes.Wwt.Setup.{setup_wwt, pdes_engine_wwt_create}
use qemu_pdes.Wwt.Sync.{is_no_timer}
use qemu_pdes.Netdev.{NetdevPdesOptions, net_init_pdes}
use qemu_pdes.System.Invariant.{FlexusOk, Fixed, Inv}
use qemu_pdes.System.Pair.{Side}

-- A process in which nothing of net/ has run.
pub record IsFresh (q : ℕ) (n : Node) : Type 0 where
  pub no_engine : n.has_engine ≡ false
  pub no_wwt : n.has_wwt ≡ false
  pub nothing_sent : n.outbox ≡ []
  pub nothing_read : n.received ≡ []
  pub nothing_there : n.inbox ≡ []
  pub nothing_comes : n.arriving ≡ []
  pub nothing_waits : n.waiting_messages ≡ []
  pub room : n.virtual_ns + q < 2 ^ 63
  pub flexus : FlexusOk n.flexus

-- A node that is set up and has done nothing else.
pub record Begun (q : ℕ) (role : Bool) (n : Node) : Type 0 where
  pub fixed : Fixed q n
  pub at_first : n.virtual_ns ≡ n.engine.first_sync_virtual_time
  pub at_round : n.wwt.current_quantum_round ≡ 0
  pub in_quantum : n.wwt.finished_quantum ≡ false
  pub no_check : is_no_timer n.wwt.sync_check_timer ≡ true
  pub no_counts : (r : ℕ) → sync_count_get n.wwt.sync_counts r ≡ 0
  pub nothing_sent : n.outbox ≡ []
  pub nothing_read : n.received ≡ []
  pub nothing_there : n.inbox ≡ []
  pub nothing_comes : n.arriving ≡ []
  pub nothing_waits : n.waiting_messages ≡ []
  pub not_permitted : n.engine.permitted_to_exit ≡ false
  pub not_finished : n.engine.pair_has_finished ≡ false
  pub at_role : n.engine.master ≡ role
  pub exit : ExitInv n

-- A synchronising node that is created with both its rings in a fresh process, and set up at the same
-- virtual time, is `Begun`: it is in round 0 of a quantum of one latency, it has sent and counted
-- nothing, and no exit flag is set.
pub create-Begun :
    (o : NetdevPdesOptions) (n : Node)
    → o.connected ≡ true
    → o.sync ≡ true
    → IsFresh o.latencyns n
    → Holds (Begun o.latencyns o.master) ((net_init_pdes o >> setup_wwt) n)
unfolding net_init_pdes pdes_engine_wwt_create setup_wwt get_universal_virtual_time sync_count_get
    count_kind
create-Begun o n c s f =
    let set : (n.virtual_ns == minus_one64) ≡ false = ground (arith, f.room) in
    simp (f.no_engine, f.no_wwt, c, s, set)
      (record {
        fixed = ground (arith, c, s, f);
        at_first = refl;
        at_round = refl;
        in_quantum = refl;
        no_check = refl;
        no_counts = λ r. refl;
        nothing_sent = f.nothing_sent;
        nothing_read = f.nothing_read;
        nothing_there = f.nothing_there;
        nothing_comes = f.nothing_comes;
        nothing_waits = f.nothing_waits;
        not_permitted = refl;
        not_finished = refl;
        at_role = refl;
        exit = ground (arith, f.nothing_sent);
      })

none_below : (r : ℕ) → bit (ltb r 0) ≡ 0
none_below r = ground arith

-- Such a node is in quantum 0, with nothing sent on either side.
module _ (q : ℕ) (role : Bool) (n : Node) (b : Begun q role n) where
  begun-Inv :
      Inv q (record { round = 0; finished = false; owed = 0; idle = true }) role [] n.outbox n
  unfolding count_kind
  begun-Inv = record {
    fixed = b.fixed;
    pending = rw (b.nothing_waits) tt;
    clock = record {
      late = omega (arith, b.at_first, b.at_round);
      early = rw (b.at_round) (omega (arith, b.at_first));
      at_end = λ e. rw (b.at_round) (omega (arith, b.at_first));
    };
    barrier = record {
      at_round = b.at_round;
      at_finished = b.in_quantum;
      at_timer = b.no_check;
      sent = rw (b.nothing_sent, b.at_round, b.in_quantum) refl;
      heard = omega (arith, b.at_round);
      lead = omega arith;
      small = omega (arith, b.at_round);
      counts = λ r h. rw (b.nothing_read) (b.no_counts r ∙ sym (none_below r));
    };
    grant = record {
      granted = rw (b.not_permitted) (omega arith);
      told = λ e. rw (b.nothing_read) refl;
      partner = rw (b.not_finished) (omega arith);
      end_ok = λ e h. absurd (omega (arith, h));
    };
    streams = record {
      master = b.at_role;
      own = rw (b.nothing_sent) tt;
      other = tt;
      rest = [];
      split = rw (b.nothing_read, b.nothing_there, b.nothing_comes) refl;
      more = [];
      grown = sym (append-nil n.outbox);
    };
  }

  pub begun-Side : Side q role [] n.outbox true n
  begun-Side = record {
    exit = b.exit;
    placed = (_, begun-Inv);
    resting = λ e. (0, false, begun-Inv);
  }
