-- ===== src/Comm/Ring/Tests.antt =====
-- The ring on concrete messages.
use mathlib.Core.Option
use qemu_pdes.Base.{
  ℕ, zero, suc, ◌+◌, ◌-◌, ◌<◌, ◌≤◌, ◌≡◌, ◌≢◌, refl, List, [], ◌∷◌, ◌++◌, arith, length, none, some,
  inl,
}
use qemu_pdes.Comm.Ring.{ShmRing, ring_size, next_idx, update, init, send, recv}
use qemu_pdes.Comm.Ring.Window.{contents, IsValid}
use qemu_pdes.Comm.Ring.Refine.{push, pop, send_refines, recv_refines}
use qemu_pdes.Comm.Ring.Spsc.{
  Writer, waiting, copying, publishing, Reader, found, copied, Shared, start, Step, send_call,
  send_go, send_copy, send_publish, recv_found, recv_copy, Reach, here, later,
}
use qemu_pdes.Comm.Ring.Spsc.Progress.{
  received-IsPrefix, slots_apart, waits_only_if_full, recv_frees,
}

abbrev empty : ShmRing ℕ
empty = record { write_idx = 0; read_idx = 0; messages = λ _. 0 }

abbrev two_waiting : ShmRing ℕ
two_waiting = record { write_idx = 1; read_idx = 8191; messages = λ i. i }

two_waiting-IsValid : IsValid two_waiting
two_waiting-IsValid = record { write_in = omega arith; read_in = omega arith }

-- One message through the ring.
recv_one :
    recv (record empty { write_idx = 1; messages = update empty.messages 0 7 })
    ≡ some (7, record empty { write_idx = 1; read_idx = 1; messages = update empty.messages 0 7 })
unfolding recv
recv_one = refl

recv-empty : recv empty ≡ none
unfolding recv
recv-empty = refl

send_refines_example : Option.map contents (send two_waiting 7) ≡ push (contents two_waiting) 7
send_refines_example = send_refines 7 two_waiting-IsValid

recv_refines_example :
    Option.map (λ p. (p.0, contents p.1)) (recv two_waiting) ≡ pop (contents two_waiting)
recv_refines_example = recv_refines two_waiting-IsValid

-- The next send of a state whose writer is between two calls, step by step.
abbrev called : ℕ → Shared ℕ → Shared ℕ
called m s = record s { writer = waiting m (next_idx s.ring.write_idx) }

abbrev gone_on : ℕ → Shared ℕ → Shared ℕ
gone_on m s = record s { writer = copying m (next_idx s.ring.write_idx) }

abbrev filled : ℕ → Shared ℕ → Shared ℕ
filled m s = record s {
  writer = publishing m (next_idx s.ring.write_idx);
  ring = record s.ring { messages = update s.ring.messages s.ring.write_idx m };
}

abbrev published : ℕ → Shared ℕ → Shared ℕ
published m s = record s {
  writer = Writer.ready;
  ring = record s.ring {
    messages = update s.ring.messages s.ring.write_idx m;
    write_idx = next_idx s.ring.write_idx;
  };
  sent = s.sent ++ (m ∷ []);
}

Reach-called : {s : Shared ℕ} (m : ℕ) → s.writer ≡ Writer.ready → Reach 0 s → Reach 0 (called m s)
Reach-called m w r = later r (send_call m w refl)

Reach-gone_on :
    {s : Shared ℕ} (m : ℕ)
    → s.writer ≡ Writer.ready
    → next_idx s.ring.write_idx ≢ s.ring.read_idx
    → Reach 0 s
    → Reach 0 (gone_on m s)
Reach-gone_on m w h r = later (Reach-called m w r) (send_go m _ refl h refl)

Reach-published :
    {s : Shared ℕ} (m : ℕ)
    → s.writer ≡ Writer.ready
    → next_idx s.ring.write_idx ≢ s.ring.read_idx
    → Reach 0 s
    → Reach 0 (published m s)
Reach-published {s} m w h r =
    later {s = filled m s}
      (later {s = gone_on m s} (Reach-gone_on m w h r)
        (send_copy m (next_idx s.ring.write_idx) refl refl))
      (send_publish m (next_idx s.ring.write_idx) refl refl)

-- After `k` sends and no receive.
unfoldable after_sends : ℕ → Shared ℕ
after_sends zero = start 0
after_sends (suc k) = published k (after_sends k)

record Filled (k : ℕ) (s : Shared ℕ) : Type 0 where
  pub reach : Reach 0 s
  pub idle : s.writer ≡ Writer.ready
  pub at_write : s.ring.write_idx ≡ k
  pub at_read : s.ring.read_idx ≡ 0

after_sends-Filled : (k : ℕ) → k < ring_size → Filled k (after_sends k)
unfolding after_sends init
after_sends-Filled zero h = record { reach = here; idle = refl; at_write = refl; at_read = refl }
after_sends-Filled (suc k) h =
    let f = after_sends-Filled k (omega arith) in
    record {
      reach = Reach-published k f.idle (omega (arith, f.at_write, f.at_read)) f.reach;
      idle = refl;
      at_write = omega (arith, f.at_write);
      at_read = f.at_read;
    }

after_one : Filled 1 (after_sends 1)
after_one = after_sends-Filled 1 (omega arith)

received-IsPrefix_example :
    (rest : List ℕ) × ((after_sends 3).sent ≡ (after_sends 3).received ++ rest)
    × (rest ≡ contents (after_sends 3).ring)
    × (length rest ≤ ring_size - 1)
received-IsPrefix_example = received-IsPrefix (after_sends-Filled 3 (omega arith)).reach

-- The second message is copied in while the first is about to be read.
abbrev reading : Shared ℕ
reading = record (after_sends 1) { reader = found }

both : Reach 0 (gone_on 9 reading)
unfolding after_sends init
both =
    Reach-gone_on 9 refl (omega arith) (later after_one.reach (recv_found refl (omega arith) refl))

slots_apart_example :
    ((after_sends 1).ring.write_idx ≢ (after_sends 1).ring.read_idx)
    × ((after_sends 1).ring.write_idx < ring_size)
    × ((after_sends 1).ring.read_idx < ring_size)
slots_apart_example = slots_apart 9 (next_idx (after_sends 1).ring.write_idx) both refl (inl refl)

-- The ring is full after 8191 sends.
full : Filled 8191 (after_sends 8191)
full = after_sends-Filled 8191 (omega arith)

waits_only_if_full_example :
    (length (after_sends 8191).sent ≡ length (after_sends 8191).received + (ring_size - 1))
    × ((after_sends 8191).ring.read_idx ≢ (after_sends 8191).ring.write_idx)
waits_only_if_full_example =
    waits_only_if_full 9 (next_idx (after_sends 8191).ring.write_idx)
      (Reach-called 9 full.idle full.reach) refl (omega (arith, full.at_write, full.at_read))

abbrev read_one : Shared ℕ
read_one = record (called 9 (after_sends 1)) {
  reader = copied ((after_sends 1).ring.messages (after_sends 1).ring.read_idx);
}

waiting_reads : Reach 0 read_one
unfolding after_sends init
waiting_reads =
    later {s = record (called 9 (after_sends 1)) { reader = found }}
      (later {s = called 9 (after_sends 1)} (Reach-called 9 refl after_one.reach)
        (recv_found refl (omega arith) refl))
      (recv_copy refl refl)

abbrev freed : Shared ℕ
freed = record read_one {
  reader = Reader.ready;
  ring = record read_one.ring { read_idx = next_idx read_one.ring.read_idx };
  received =
      read_one.received ++ ((after_sends 1).ring.messages (after_sends 1).ring.read_idx ∷ []);
}

recv_frees_example :
    Step freed (record freed { writer = copying 9 (next_idx (after_sends 1).ring.write_idx) })
recv_frees_example =
    recv_frees 9 ((after_sends 1).ring.messages (after_sends 1).ring.read_idx)
      (next_idx (after_sends 1).ring.write_idx) waiting_reads refl refl refl
