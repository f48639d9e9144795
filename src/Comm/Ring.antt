-- ===== src/Comm/Ring.antt =====
-- `ShmRing` of net/pdes-communicator.c with the bodies of `pdes_comm_send` and `pdes_comm_recv`.
-- The array `messages` is a function of the index: `Refine` shows that no access leaves RING_SIZE.
pub mod Window
pub mod Refine
pub mod Spsc
mod Tests
use qemu_pdes.Base.{ℕ, ◌+◌, ◌%◌, Bool, Option, none, some, ◌==◌, if◌then◌else◌}

-- RING_SIZE
abbrev pub ring_size : ℕ
ring_size = 8192

-- `(idx + 1) % RING_SIZE`; the `uint32_t` sum does not wrap, since an index is below RING_SIZE.
abbrev pub next_idx : ℕ → ℕ
next_idx i = (i + 1) % ring_size

module _ {ℓ} {A : Type ℓ} where
  abbrev pub update : (ℕ → A) → ℕ → A → ℕ → A
  update f i v j = if i == j then v else f j

pub record ShmRing {ℓ} (A : Type ℓ) : Type ℓ where
  pub write_idx : ℕ  -- uint32_t
  pub read_idx : ℕ  -- uint32_t
  pub messages : ℕ → A

module _ {ℓ} {A : Type ℓ} where
  -- `memset(ring, 0, size)`, with the message of zero bytes.
  unfoldable pub init : A → ShmRing A
  init z = record { write_idx = 0; read_idx = 0; messages = λ _. z }

  abbrev pub is_full : ShmRing A → Bool
  is_full r = next_idx r.write_idx == r.read_idx

  -- `pdes_comm_send` on a connected ring: `none` while it would sleep for space.
  unfoldable pub send : ShmRing A → A → Option (ShmRing A)
  send r m =
      if is_full r
      then none
      else some (record r {
        write_idx = next_idx r.write_idx;
        messages = update r.messages r.write_idx m;
      })

  -- `pdes_comm_recv` on a connected ring: `none` for NO_MESSAGE.
  unfoldable pub recv : ShmRing A → Option (A × ShmRing A)
  recv r =
      if r.read_idx == r.write_idx
      then none
      else some (r.messages r.read_idx, record r { read_idx = next_idx r.read_idx })
