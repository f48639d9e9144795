-- ===== src/Comm/Message.antt =====
-- `Message` and `create_message` of net/pdes-communicator.c and its header.
use qemu_pdes.Base.{
  ℕ, ◌+◌, List, ◌++◌, Option, none, some, length, replicate, leb, if◌then◌else◌, take, drop,
}
use qemu_pdes.Base.Word.{u32}

-- MAX_MSG_SIZE
abbrev pub max_msg_size : ℕ
max_msg_size = 2048

-- The values of `type`, a byte.
abbrev pub msg_type_normal : ℕ
msg_type_normal = 0

abbrev pub msg_type_sync : ℕ
msg_type_sync = 1

abbrev pub drain_start : ℕ
drain_start = 3

abbrev pub drain_end : ℕ
drain_end = 4

abbrev pub checkpoint_init_step : ℕ
checkpoint_init_step = 5

abbrev pub end_of_emulation : ℕ
end_of_emulation = 6

abbrev pub intent_to_end_emulation : ℕ
intent_to_end_emulation = 7

abbrev pub permission_to_end_emulation : ℕ
permission_to_end_emulation = 8

-- `payload` is the array `data` up to its last byte that was written; from there to MAX_MSG_SIZE
-- the array holds the zeros of its initializer, which `read_at` supplies.
pub record Message : Type 0 where
  pub ts_ns : ℕ  -- uint64_t
  pub len : ℕ  -- uint32_t
  pub payload : List ℕ
  pub kind : ℕ  -- uint8_t type

-- `create_message(data, len, type, ts_ns)` with the `len` bytes at `data`: `none` if the copy runs
-- over the end of the array, which the code does not test.
unfoldable pub create_message : List ℕ → ℕ → ℕ → Option Message
create_message bytes kind ts =
    if leb (length bytes) max_msg_size
    then some (record { ts_ns = ts; len = u32 (length bytes); payload = bytes; kind = kind })
    else none

-- The first `n` bytes of a text with zeros behind it.
unfoldable pub zero_padded : ℕ → List ℕ → List ℕ
zero_padded n bytes = take n (bytes ++ replicate n 0)

-- `memcpy` of `n` bytes from `data + offset`: `none` if it leaves the array.
unfoldable pub read_at : Message → ℕ → ℕ → Option (List ℕ)
unfolding zero_padded
read_at m offset n =
    if leb (offset + n) max_msg_size then some (zero_padded n (drop offset m.payload)) else none
