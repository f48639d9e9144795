-- ===== src/Comm/Ring/Refine.antt =====
-- The ring against a queue of at most RING_SIZE - 1 messages.
use qemu_pdes.Base.{
  ℕ, suc, ◌+◌, ◌-◌, ◌%◌, ◌≡◌, ◌≢◌, refl, sym, ap, ◌∙◌, List, [], ◌∷◌, ◌++◌, arith, length, Option,
  ◌==◌, if◌then◌else◌, none, some,
}
use mathlib.Core.Option
use mathlib.Core.Path.{ap₂}
use qemu_pdes.Comm.Ring.{ShmRing, ring_size, next_idx, update, init, send, recv}
use qemu_pdes.Comm.Ring.Window.{
  used, contents, IsValid, length-window, window-update, window-suc, window-pos,
}

module _ {A : Type 0} where
  -- The abstract channel: a queue that takes a message only while fewer than RING_SIZE - 1 wait.
  unfoldable pub push : List A → A → Option (List A)
  push q m = if length q == ring_size - 1 then none else some (q ++ (m ∷ []))

  unfoldable pub pop : List A → Option (A × List A)
  pop [] = none
  pop (m ∷ q) = some (m, q)

  pub contents-init : (z : A) → contents (init z) ≡ []
  unfolding init
  contents-init z = refl

  pub init-IsValid : (z : A) → IsValid (init z)
  unfolding init
  init-IsValid z = omega arith

  pub send-IsValid : {r t : ShmRing A} (m : A) → IsValid r → send r m ≡ some t → IsValid t
  unfolding send
  send-IsValid m v h = ground arith

  pub recv-IsValid : {r t : ShmRing A} {m : A} → IsValid r → recv r ≡ some (m, t) → IsValid t
  unfolding recv
  recv-IsValid v h = ground arith

  pub used_step :
      {r : ShmRing A}
      → IsValid r
      → next_idx r.write_idx ≢ r.read_idx
      → (next_idx r.write_idx + (ring_size - r.read_idx)) % ring_size ≡ suc (used r)
  used_step v h = omega arith

  pub contents-publish :
      {r : ShmRing A} (m : A)
      → IsValid r
      → next_idx r.write_idx ≢ r.read_idx
      → contents (record r {
        write_idx = next_idx r.write_idx;
        messages = update r.messages r.write_idx m;
      })
        ≡ contents r ++ (m ∷ [])
  contents-publish {r} m v h =
      let u = used r in
      let f : ℕ → A = update r.messages r.write_idx m in
      let here : (r.read_idx + u) % ring_size ≡ r.write_idx = omega arith in
      let written : f r.write_idx ≡ m = ground arith in
      rw (used_step v h) (
        window-suc f r.read_idx u v.read_in
        ∙ ap₂ (λ (a b : List A). a ++ b)
            (window-update r.messages r.write_idx m r.read_idx u v.read_in (omega arith) (sym here))
            (ap (λ (x : A). x ∷ []) (ap f here ∙ written)))

  -- On a valid ring `send` waits exactly when the queue is full, and else appends the message.
  pub send_refines :
      {r : ShmRing A} (m : A) → IsValid r → Option.map contents (send r m) ≡ push (contents r) m
  unfolding send push
  send_refines {r} m v =
      ground (arith, contents-publish m v, length-window r.messages r.read_idx (used r))

  -- On a valid ring `recv` finds nothing exactly when the queue is empty, and else takes the
  -- oldest message.
  pub recv_refines :
      {r : ShmRing A}
      → IsValid r
      → Option.map (λ p. (p.0, contents p.1)) (recv r) ≡ pop (contents r)
  unfolding recv pop
  recv_refines {r} v = ground (arith, window-pos r.messages r.read_idx (used r))
