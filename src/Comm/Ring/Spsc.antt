-- ===== src/Comm/Ring/Spsc.antt =====
-- One process in `pdes_comm_send`, the other in `pdes_comm_recv`, on the same ring, a shared access
-- at a time and in any order. `qatomic_set_mb` publishes an index after the copy that precedes it.
pub mod Invariant
pub mod Progress
use qemu_pdes.Base.{ℕ, ◌≡◌, ◌≢◌, List, [], ◌∷◌, ◌++◌}
use qemu_pdes.Comm.Ring.{ShmRing, next_idx, update, init}

-- Where `pdes_comm_send` stands, with its locals that are live.
pub data Writer (A : Type 0) : Type 0 where
  ready : Writer A  -- not in a call
  waiting : (m : A) (next_write : ℕ) → Writer A  -- the `while (next_write == ring->read_idx)`
  copying : (m : A) (next_write : ℕ) → Writer A  -- before the copy into the ring
  publishing : (m : A) (next_write : ℕ) → Writer A  -- before `qatomic_set_mb`

-- Where `pdes_comm_recv` stands.
pub data Reader (A : Type 0) : Type 0 where
  ready : Reader A
  found : Reader A  -- past the test of the indices, before the copy
  copied : (m : A) → Reader A  -- before `qatomic_set_mb`

-- `sent` and `received` are histories: the messages whose send has published its index, and those
-- whose receive has.
pub record Shared (A : Type 0) : Type 0 where
  pub ring : ShmRing A
  pub writer : Writer A
  pub reader : Reader A
  pub sent : List A
  pub received : List A

module _ {A : Type 0} where
  abbrev pub start : A → Shared A
  start z = record {
    ring = init z;
    writer = Writer.ready;
    reader = Reader.ready;
    sent = [];
    received = [];
  }

  pub data Step (s t : Shared A) : Type 0 where
    send_call :
        (m : A)
        → s.writer ≡ Writer.ready
        → t ≡ record s { writer = Writer.waiting m (next_idx s.ring.write_idx) }
        → Step s t
    send_wait :
        (m : A) (n : ℕ) → s.writer ≡ Writer.waiting m n → n ≡ s.ring.read_idx → t ≡ s → Step s t
    send_go :
        (m : A) (n : ℕ)
        → s.writer ≡ Writer.waiting m n
        → n ≢ s.ring.read_idx
        → t ≡ record s { writer = Writer.copying m n }
        → Step s t
    send_copy :
        (m : A) (n : ℕ)
        → s.writer ≡ Writer.copying m n
        → t ≡ record s {
          writer = Writer.publishing m n;
          ring = record s.ring { messages = update s.ring.messages s.ring.write_idx m };
        }
        → Step s t
    send_publish :
        (m : A) (n : ℕ)
        → s.writer ≡ Writer.publishing m n
        → t ≡ record s {
          writer = Writer.ready;
          ring = record s.ring { write_idx = n };
          sent = s.sent ++ (m ∷ []);
        }
        → Step s t
    recv_none : s.reader ≡ Reader.ready → s.ring.read_idx ≡ s.ring.write_idx → t ≡ s → Step s t
    recv_found :
        s.reader ≡ Reader.ready
        → s.ring.read_idx ≢ s.ring.write_idx
        → t ≡ record s { reader = Reader.found }
        → Step s t
    recv_copy :
        s.reader ≡ Reader.found
        → t ≡ record s { reader = Reader.copied (s.ring.messages s.ring.read_idx) }
        → Step s t
    recv_publish :
        (m : A)
        → s.reader ≡ Reader.copied m
        → t ≡ record s {
          reader = Reader.ready;
          ring = record s.ring { read_idx = next_idx s.ring.read_idx };
          received = s.received ++ (m ∷ []);
        }
        → Step s t

  pub data Reach (z : A) : Shared A → Type 0 where
    here : Reach z (start z)
    later : {s t : Shared A} → Reach z s → Step s t → Reach z t
