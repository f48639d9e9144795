-- ===== src/Engine/Exit/Threads.antt =====
-- The exit flags of net/pdes-engine.c under two threads: `can_stop` and the end of the simulation
-- run on the thread of Flexus, `process_message`, the boundary and the engine's end on the main
-- thread. Each `qatomic_` access, each access of a field that one thread alone uses and each send is
-- one step; the thread that takes the next step is any.
pub mod Invariant
pub mod Safety
mod Tests
use qemu_pdes.Base.{ℕ, ◌+◌, Bool, true, false, List, [], ◌∷◌, ◌++◌, ◌≡◌, not, if◌then◌else◌}
use qemu_pdes.Base.Word.{u32, signed_le32}
use qemu_pdes.Comm.Message.{end_of_emulation, intent_to_end_emulation, permission_to_end_emulation}

-- The fields of `PDESEngine` that both threads use, with the types of the control messages that
-- went out, oldest first.
pub record Flags : Type 0 where
  pub master : Bool
  pub ready_to_exit_neighbors : ℕ  -- int
  pub permitted_to_exit : Bool
  pub ready_to_exit : Bool
  pub pair_has_finished : Bool
  pub notified_neighbors_for_exit : Bool
  pub end_message_sent : Bool
  pub intent_sent : Bool
  pub sent : List ℕ

-- Where `_send_end_if_handshake_complete` returns to: the end of `can_stop`, or a caller that does
-- nothing more with the flags.
pub data Return : Type 0 where
  to_can_stop : Return
  to_caller : Return

-- The next access of a thread.
pub data Pc : Type 0 where
  free : (answer : Bool) → Pc  -- between calls, with what `can_stop` answered
  ask : Pc  -- `can_stop`: its first test
  send_intent : Pc
  set_intent_sent : Pc
  ask_permitted : Pc  -- `can_stop` at the master: the second test
  at_boundary : Pc  -- `wwt_sync_check` at the master: the three tests
  boundary_ready : Pc
  boundary_permitted : Pc
  set_permitted : Return → Pc
  send_permission : Return → Pc
  read_permitted : Return → Pc  -- `_send_end_if_handshake_complete`
  exchange_sent : Return → Pc
  send_end : Return → Pc
  set_ready : Pc
  answer_permitted : Pc  -- the two reads of the result of `can_stop`
  answer_finished : Pc
  exchange_notified : Pc  -- `notify_neighbours_of_end`
  count_intent : Pc  -- the arms of `process_message`
  take_permission : Pc
  assert_permitted : Pc
  set_finished : Pc
  failed : Pc  -- the assertion of the arm END_OF_EMULATION

abbrev pub return : Return → Pc
return to_can_stop = set_ready
return to_caller = free false

abbrev pub send : ℕ → Flags → Flags
send kind f = record f { sent = f.sent ++ (kind ∷ []) }

-- What a thread does at a place in `can_stop`, and where it goes on. `set_permitted` and what
-- follows are the same in `wwt_sync_check`, from where they do not return to `can_stop`.
abbrev pub can_stop_access : Flags → Pc → Flags × Pc
can_stop_access f ask =
    if f.master
    then (f, if signed_le32 1 f.ready_to_exit_neighbors then ask_permitted else set_ready)
    else (f, if f.intent_sent then set_ready else send_intent)
can_stop_access f send_intent = (send intent_to_end_emulation f, set_intent_sent)
can_stop_access f set_intent_sent = (record f { intent_sent = true }, set_ready)
can_stop_access f ask_permitted =
    (f, if f.permitted_to_exit then set_ready else set_permitted to_can_stop)
can_stop_access f (set_permitted r) = (record f { permitted_to_exit = true }, send_permission r)
can_stop_access f (send_permission r) = (send permission_to_end_emulation f, read_permitted r)
can_stop_access f set_ready = (record f { ready_to_exit = true }, answer_permitted)
can_stop_access f answer_permitted =
    (f, if f.permitted_to_exit then answer_finished else free false)
can_stop_access f answer_finished = (f, free f.pair_has_finished)
can_stop_access f p = (f, p)

-- In the master's block of `wwt_sync_check`.
abbrev pub boundary_access : Flags → Pc → Flags × Pc
boundary_access f at_boundary =
    (f, if signed_le32 1 f.ready_to_exit_neighbors then boundary_ready else free false)
boundary_access f boundary_ready = (f, if f.ready_to_exit then boundary_permitted else free false)
boundary_access f boundary_permitted =
    (f, if f.permitted_to_exit then free false else set_permitted to_caller)
boundary_access f p = (f, p)

-- In `_send_end_if_handshake_complete`.
abbrev pub send_end_access : Flags → Pc → Flags × Pc
send_end_access f (read_permitted r) =
    (f, if f.permitted_to_exit then exchange_sent r else return r)
send_end_access f (exchange_sent r) =
    (record f { end_message_sent = true }, if f.end_message_sent then return r else send_end r)
send_end_access f (send_end r) = (send end_of_emulation f, return r)
send_end_access f p = (f, p)

-- In `notify_neighbours_of_end`.
abbrev pub notify_access : Flags → Pc → Flags × Pc
notify_access f exchange_notified = (
  record f { notified_neighbors_for_exit = true },
  if f.notified_neighbors_for_exit then free false else read_permitted to_caller,
)
notify_access f p = (f, p)

-- In the three arms of `process_message`.
abbrev pub message_access : Flags → Pc → Flags × Pc
message_access f count_intent = (
  record f {
    ready_to_exit_neighbors =
        if f.master then u32 (f.ready_to_exit_neighbors + 1) else f.ready_to_exit_neighbors;
  },
  free false,
)
message_access f take_permission = (record f { permitted_to_exit = true }, read_permitted to_caller)
message_access f assert_permitted = (f, if f.permitted_to_exit then set_finished else failed)
message_access f set_finished = (record f { pair_has_finished = true }, free false)
message_access f p = (f, p)

-- The next access of a thread. Between calls, and at a failed assertion, there is none.
unfoldable pub access : Flags → Pc → Flags × Pc
access f (free b) = (f, free b)
access f ask = can_stop_access f ask
access f send_intent = can_stop_access f send_intent
access f set_intent_sent = can_stop_access f set_intent_sent
access f ask_permitted = can_stop_access f ask_permitted
access f at_boundary = boundary_access f at_boundary
access f boundary_ready = boundary_access f boundary_ready
access f boundary_permitted = boundary_access f boundary_permitted
access f (set_permitted r) = can_stop_access f (set_permitted r)
access f (send_permission r) = can_stop_access f (send_permission r)
access f (read_permitted r) = send_end_access f (read_permitted r)
access f (exchange_sent r) = send_end_access f (exchange_sent r)
access f (send_end r) = send_end_access f (send_end r)
access f set_ready = can_stop_access f set_ready
access f answer_permitted = can_stop_access f answer_permitted
access f answer_finished = can_stop_access f answer_finished
access f exchange_notified = notify_access f exchange_notified
access f count_intent = message_access f count_intent
access f take_permission = message_access f take_permission
access f assert_permitted = message_access f assert_permitted
access f set_finished = message_access f set_finished
access f failed = (f, failed)

-- The calls of each thread, by where they start: the control messages of `process_message`, the
-- boundary, which asks only at the master, `can_stop`, and `pdes_engine_destroy` on either thread. A
-- master is assumed to receive no permission, as its neighbour, the follower, sends none; the code
-- does not test that.
pub data MainCall (master : Bool) : Pc → Type 0 where
  intent_arrives : MainCall master count_intent
  permission_arrives : master ≡ false → MainCall master take_permission
  end_arrives : MainCall master assert_permitted
  boundary : master ≡ true → MainCall master at_boundary
  main_destroys : MainCall master exchange_notified

pub data FlexusCall : Pc → Type 0 where
  asks_to_stop : FlexusCall ask
  flexus_destroys : FlexusCall exchange_notified

pub record Threads : Type 0 where
  pub flags : Flags
  pub main : Pc
  pub flexus : Pc

-- A node after its creation, with no call under way.
abbrev pub created : Bool → Threads
created master = record {
  flags = record {
    master = master;
    ready_to_exit_neighbors = 0;
    permitted_to_exit = false;
    ready_to_exit = false;
    pair_has_finished = false;
    notified_neighbors_for_exit = false;
    end_message_sent = false;
    intent_sent = false;
    sent = [];
  };
  main = free false;
  flexus = free false;
}

pub data Step (s : Threads) : Threads → Type 0 where
  main_calls :
      (b : Bool) (p : Pc)
      → s.main ≡ free b
      → MainCall s.flags.master p
      → Step s (record s { main = p })
  flexus_calls :
      (b : Bool) (p : Pc) → s.flexus ≡ free b → FlexusCall p → Step s (record s { flexus = p })
  main_accesses :
      Step s (record s { flags = (access s.flags s.main).0; main = (access s.flags s.main).1 })
  flexus_accesses :
      Step s
        (record s { flags = (access s.flags s.flexus).0; flexus = (access s.flags s.flexus).1 })

pub data Reach (master : Bool) : Threads → Type 0 where
  here : Reach master (created master)
  later : {s t : Threads} → Reach master s → Step s t → Reach master t
