-- ===== src/Engine/Exit/Handshake.antt =====
-- The whole handshake, from both sides' wish to stop to both answers of `can_stop`.
use qemu_pdes.Base.{ℕ, ◌≡◌, ◌≢◌, refl, ◌∙◌, ◌||◌, Bool, true, false, [], ◌∷◌, ◌++◌, arith}
use qemu_pdes.Base.Word.{minus_one64}
use qemu_pdes.Comm.Message.{
  Message, create_message, end_of_emulation, intent_to_end_emulation, permission_to_end_emulation,
}
use qemu_pdes.Node.{Node}
use qemu_pdes.Node.Monad.{ret}
use qemu_pdes.Node.Channel.{pdes_comm_send}
use qemu_pdes.Utility.{get_universal_virtual_time}
use qemu_pdes.Utility.Time.{universal}
use qemu_pdes.Engine.Exit.{can_stop, ask_to_stop, permit, send_end_if_handshake_complete}
use qemu_pdes.Engine.Process.{process_message}
use qemu_pdes.Engine.Process.Kinds.{process_intent, process_end, process_permission}

abbrev pub control_message : ℕ → Node → Message
control_message kind n = record { ts_ns = universal n; len = 0; payload = []; kind = kind }

-- A connected node that is set up, at which the handshake has not begun.
pub record Fresh (n : Node) (master : Bool) : Type 0 where
  pub connected : n.engine.connected ≡ true
  pub first : n.engine.first_sync_virtual_time ≢ minus_one64
  pub role : n.engine.master ≡ master
  pub no_intent : n.engine.intent_sent ≡ false
  pub no_neighbor : n.engine.ready_to_exit_neighbors ≡ 0
  pub no_permission : n.engine.permitted_to_exit ≡ false
  pub no_end : n.engine.end_message_sent ≡ false
  pub not_finished : n.engine.pair_has_finished ≡ false

-- The follower has asked; the master has read the intent, and has given the permission.
abbrev pub asked : Node → Node
asked f = record f {
  engine = record f.engine { intent_sent = true; ready_to_exit = true };
  outbox = f.outbox ++ (control_message intent_to_end_emulation f ∷ []);
}

abbrev pub told_intent : Node → Node
told_intent m = record m { engine = record m.engine { ready_to_exit_neighbors = 1 } }

abbrev pub gave : Node → Node
gave m = record m {
  engine = record m.engine {
    permitted_to_exit = true;
    end_message_sent = true;
    ready_to_exit = true;
  };
  outbox =
      (m.outbox ++ (control_message permission_to_end_emulation m ∷ []))
      ++ (control_message end_of_emulation m ∷ []);
}

-- The follower has the permission, and sends its own end; each side has the end of the other.
abbrev pub got : Node → Node
got f = record f {
  engine = record f.engine { permitted_to_exit = true; end_message_sent = true };
  outbox = f.outbox ++ (control_message end_of_emulation f ∷ []);
}

abbrev pub finished : Node → Node
finished n = record n { engine = record n.engine { pair_has_finished = true } }

abbrev pub answered : Node → Node
answered n = record n { engine = record n.engine { ready_to_exit = true } }

ask_lem : (f : Node) → Fresh f false → can_stop f ≡ ret false (asked f)
unfolding can_stop ask_to_stop get_universal_virtual_time create_message pdes_comm_send
ask_lem f i = grind (arith, i)

intent_lem :
    (m f : Node)
    → Fresh m true
    → process_message (control_message intent_to_end_emulation f) m ≡ ret tt (told_intent m)
intent_lem m f i =
    process_intent (control_message intent_to_end_emulation f) m refl i.first ∙ grind (arith, i)

give_lem : (m : Node) → Fresh m true → can_stop (told_intent m) ≡ ret false (gave (told_intent m))
unfolding can_stop ask_to_stop permit send_end_if_handshake_complete get_universal_virtual_time
    create_message pdes_comm_send
give_lem m i = grind (arith, i)

end_lem :
    (n k : Node)
    → n.engine.first_sync_virtual_time ≢ minus_one64
    → n.engine.permitted_to_exit ≡ true
    → process_message (control_message end_of_emulation k) n ≡ ret tt (finished n)
end_lem n k h p = process_end (control_message end_of_emulation k) n refl h ∙ rw p refl

answer_lem :
    (n : Node)
    → n.engine.permitted_to_exit ≡ true
    → n.engine.pair_has_finished ≡ true
    → (n.engine.master || n.engine.intent_sent) ≡ true
    → can_stop n ≡ ret true (answered n)
unfolding can_stop ask_to_stop
answer_lem n p f s = grind arith

-- The clock moves between two callbacks.
abbrev pub at : ℕ → Node → Node
at time n = record n { virtual_ns = time }

at-Fresh : (time : ℕ) (n : Node) (master : Bool) → Fresh n master → Fresh (at time n) master
at-Fresh time n master i = record {
  connected = i.connected;
  first = i.first;
  role = i.role;
  no_intent = i.no_intent;
  no_neighbor = i.no_neighbor;
  no_permission = i.no_permission;
  no_end = i.no_end;
  not_finished = i.not_finished;
}

permission_lem :
    (f n : Node)
    → f.engine.first_sync_virtual_time ≢ minus_one64
    → f.engine.connected ≡ true
    → f.engine.end_message_sent ≡ false
    → process_message (control_message permission_to_end_emulation n) f ≡ ret tt (got f)
permission_lem f n h c e =
    process_permission (control_message permission_to_end_emulation n) f refl h c ∙ rw e refl

module _ (m f : Node) (time : ℕ → ℕ) where
  abbrev pub follower1 : Node
  follower1 = asked (at (time 0) f)

  abbrev pub master1 : Node
  master1 = told_intent (at (time 1) m)

  abbrev pub master2 : Node
  master2 = gave (at (time 2) master1)

  abbrev pub follower2 : Node
  follower2 = got (at (time 3) follower1)

  abbrev pub follower3 : Node
  follower3 = finished (at (time 4) follower2)

  abbrev pub master3 : Node
  master3 = finished (at (time 5) master2)

  -- The handshake completes, at whatever times its callbacks run: the follower asks to stop and sends
  -- its intent; the master reads it, asks to stop, and sends the permission and its END_OF_EMULATION;
  -- the follower reads the permission, sends its END_OF_EMULATION, and reads the master's; the master
  -- reads the follower's. Then `can_stop` answers yes at both, and neither sends anything more.
  pub handshake_completes :
      Fresh m true
      → Fresh f false
      → (can_stop (at (time 0) f) ≡ ret false follower1)
        × (process_message (control_message intent_to_end_emulation (at (time 0) f)) (at (time 1) m)
            ≡ ret tt master1)
        × (can_stop (at (time 2) master1) ≡ ret false master2)
        × (process_message
              (control_message permission_to_end_emulation (at (time 2) master1))
              (at (time 3) follower1)
            ≡ ret tt follower2)
        × (process_message
              (control_message end_of_emulation (at (time 2) master1))
              (at (time 4) follower2)
            ≡ ret tt follower3)
        × (process_message
              (control_message end_of_emulation (at (time 3) follower1))
              (at (time 5) master2)
            ≡ ret tt master3)
        × (can_stop (at (time 6) follower3) ≡ ret true (answered (at (time 6) follower3)))
        × (can_stop (at (time 7) master3) ≡ ret true (answered (at (time 7) master3)))
  handshake_completes i j = (
    ask_lem (at (time 0) f) (at-Fresh (time 0) f false j),
    intent_lem (at (time 1) m) (at (time 0) f) (at-Fresh (time 1) m true i),
    give_lem (at (time 2) m) (at-Fresh (time 2) m true i),
    permission_lem (at (time 3) follower1) (at (time 2) master1) j.first j.connected j.no_end,
    end_lem (at (time 4) follower2) (at (time 2) master1) j.first refl,
    end_lem (at (time 5) master2) (at (time 3) follower1) i.first refl,
    answer_lem (at (time 6) follower3) refl refl (grind arith),
    answer_lem (at (time 7) master3) refl refl (grind (arith, i.role)),
  )
