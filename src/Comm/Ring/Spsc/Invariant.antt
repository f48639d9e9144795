-- ===== src/Comm/Ring/Spsc/Invariant.antt =====
-- What holds however the two processes interleave: no message is torn, lost, repeated or reordered.
use qemu_pdes.Base.{ℕ, suc, ◌+◌, ◌-◌, ◌%◌, ◌≡◌, ◌≢◌, sym, ap, ◌∙◌, List, [], ◌∷◌, ◌++◌, arith}
use mathlib.Core.Path.{ap₂}
use mathlib.Core.List.{append_assoc}
use qemu_pdes.Comm.Ring.{ShmRing, ring_size, next_idx, update}
use qemu_pdes.Comm.Ring.Window.{
  window, used, contents, IsValid, window-update, window-suc, window-pos,
}
use qemu_pdes.Comm.Ring.Refine.{contents-init, init-IsValid}
use qemu_pdes.Comm.Ring.Spsc.{
  Writer, waiting, copying, publishing, Reader, found, copied, Shared, start, Step, send_call,
  send_wait, send_go, send_copy, send_publish, recv_none, recv_found, recv_copy, recv_publish,
  Reach, here, later,
}

module _ {A : Type 0} where
  -- What the writer's locals say of the ring.
  abbrev pub WriterKnows : ShmRing A → Writer A → Type 0
  WriterKnows r Writer.ready = Unit
  WriterKnows r (waiting m n) = n ≡ next_idx r.write_idx
  WriterKnows r (copying m n) = (n ≡ next_idx r.write_idx) × (n ≢ r.read_idx)
  WriterKnows r (publishing m n) =
      (n ≡ next_idx r.write_idx) × (n ≢ r.read_idx) × (r.messages r.write_idx ≡ m)

  abbrev pub ReaderKnows : ShmRing A → Reader A → Type 0
  ReaderKnows r Reader.ready = Unit
  ReaderKnows r found = r.read_idx ≢ r.write_idx
  ReaderKnows r (copied m) = (r.read_idx ≢ r.write_idx) × (r.messages r.read_idx ≡ m)

  pub record Inv (s : Shared A) : Type 0 where
    pub valid : IsValid s.ring
    pub writer_knows : WriterKnows s.ring s.writer
    pub reader_knows : ReaderKnows s.ring s.reader
    pub fifo : s.received ++ contents s.ring ≡ s.sent

  start-Inv : (z : A) → Inv (start z)
  start-Inv z = record {
    valid = init-IsValid z;
    writer_knows = tt;
    reader_knows = tt;
    fifo = contents-init z;
  }

  -- Before the index is published, the copy changes nothing that the reader can see.
  pub contents-copy :
      {r : ShmRing A} (m : A)
      → IsValid r
      → contents (record r { messages = update r.messages r.write_idx m }) ≡ contents r
  contents-copy {r} m v =
      window-update r.messages r.write_idx m r.read_idx (used r) v.read_in (omega arith)
        (omega arith)

  pub contents-advance :
      {r : ShmRing A} (m : A) (n : ℕ)
      → IsValid r
      → n ≡ next_idx r.write_idx
      → n ≢ r.read_idx
      → r.messages r.write_idx ≡ m
      → contents (record r { write_idx = n }) ≡ contents r ++ (m ∷ [])
  contents-advance {r} m n v e h w =
      let u = used r in
      let more : (n + (ring_size - r.read_idx)) % ring_size ≡ suc u = omega arith in
      let at : (r.read_idx + u) % ring_size ≡ r.write_idx = omega arith in
      rw more (
        window-suc r.messages r.read_idx u v.read_in
        ∙ ap (λ (x : A). window r.messages r.read_idx u ++ (x ∷ [])) (ap r.messages at ∙ w))

  pub contents-take :
      {r : ShmRing A} (m : A)
      → IsValid r
      → r.read_idx ≢ r.write_idx
      → r.messages r.read_idx ≡ m
      → contents r ≡ m ∷ contents (record r { read_idx = next_idx r.read_idx })
  contents-take {r} m v h w =
      let less : used r - 1 ≡ (r.write_idx + (ring_size - next_idx r.read_idx)) % ring_size =
        omega arith in
      window-pos r.messages r.read_idx (used r) (omega arith)
      ∙ ap₂ (λ (x : A) (k : ℕ). x ∷ window r.messages (next_idx r.read_idx) k) w less

  module _ {s t : Shared A} (i : Inv s) where
    open i use {valid, writer_knows, reader_knows, fifo}

    Step-IsValid : Step s t → IsValid t.ring
    Step-IsValid (send_call m w e) = ground arith
    Step-IsValid (send_wait m n w f e) = ground arith
    Step-IsValid (send_go m n w f e) = ground arith
    Step-IsValid (send_copy m n w e) = ground arith
    Step-IsValid (send_publish m n w e) = ground arith
    Step-IsValid (recv_none q f e) = ground arith
    Step-IsValid (recv_found q f e) = ground arith
    Step-IsValid (recv_copy q e) = ground arith
    Step-IsValid (recv_publish m q e) = ground arith

    Step-writer : Step s t → WriterKnows t.ring t.writer
    Step-writer (send_call m w e) = ground arith
    Step-writer (send_wait m n w f e) = ground arith
    Step-writer (send_go m n w f e) = ground arith
    Step-writer (send_copy m n w e) = ground arith
    Step-writer (send_publish m n w e) = ground arith
    Step-writer (recv_none q f e) = ground arith
    Step-writer (recv_found q f e) = ground arith
    Step-writer (recv_copy q e) = ground arith
    Step-writer (recv_publish m q e) = ground arith

    Step-reader : Step s t → ReaderKnows t.ring t.reader
    Step-reader (send_call m w e) = ground arith
    Step-reader (send_wait m n w f e) = ground arith
    Step-reader (send_go m n w f e) = ground arith
    Step-reader (send_copy m n w e) = ground arith
    Step-reader (send_publish m n w e) = ground arith
    Step-reader (recv_none q f e) = ground arith
    Step-reader (recv_found q f e) = ground arith
    Step-reader (recv_copy q e) = ground arith
    Step-reader (recv_publish m q e) = ground arith

    Step-fifo : Step s t → t.received ++ contents t.ring ≡ t.sent
    Step-fifo (send_call m w e) = rw e fifo
    Step-fifo (send_wait m n w f e) = rw e fifo
    Step-fifo (send_go m n w f e) = rw e fifo
    Step-fifo (send_copy m n w e) = rw e (rw (contents-copy m valid) fifo)
    Step-fifo (send_publish m n w e) =
        let knows : WriterKnows s.ring (publishing m n) = rw w at writer_knows in
        rw (e, contents-advance m n valid knows.0 knows.1 knows.2)
          (sym (append_assoc s.received (contents s.ring) (m ∷ []))
            ∙ ap (λ (l : List A). l ++ (m ∷ [])) fifo)
    Step-fifo (recv_none q f e) = rw e fifo
    Step-fifo (recv_found q f e) = rw e fifo
    Step-fifo (recv_copy q e) = rw e fifo
    Step-fifo (recv_publish m q e) =
        let knows : ReaderKnows s.ring (copied m) = rw q at reader_knows in
        let rest = contents (record s.ring { read_idx = next_idx s.ring.read_idx }) in
        rw e (
          append_assoc s.received (m ∷ []) rest
          ∙ ap (λ (l : List A). s.received ++ l) (sym (contents-take m valid knows.0 knows.1))
          ∙ fifo)

  pub Step-Inv : {s t : Shared A} → Inv s → Step s t → Inv t
  Step-Inv i st = record {
    valid = Step-IsValid i st;
    writer_knows = Step-writer i st;
    reader_knows = Step-reader i st;
    fifo = Step-fifo i st;
  }

  pub Reach-Inv : {z : A} {s : Shared A} → Reach z s → Inv s
  Reach-Inv {z} here = start-Inv z
  Reach-Inv (later r st) = Step-Inv (Reach-Inv r) st
