-- ===== src/Checkpoint/Inflight.antt =====
-- The list of messages in flight of net/pdes-checkpoint.c, newest first, and its count.
pub mod Laws
use qemu_pdes.Base.{
  ℕ, zero, suc, ◌+◌, ◌-◌, ◌^◌, Bool, true, false, Option, none, some, List, [], ◌∷◌, ◌&&◌,
  if◌then◌else◌, ◌==◌, bytes_eq, replicate,
}
use qemu_pdes.Base.Word.{u32}
use qemu_pdes.Comm.Message.{Message, read_at}

pub record ScheduledMessage : Type 0 where
  pub msg : Message
  pub scheduled_time_ns : ℕ  -- int64_t

-- `pending_messages` and `pending_count`.
pub record Inflight : Type 0 where
  pub pending : List ScheduledMessage
  pub count : ℕ  -- int

unfoldable pub pdes_inflight_add : Message → ℕ → Inflight → Inflight
pdes_inflight_add msg time s = record {
  pending = record { msg = msg; scheduled_time_ns = time } ∷ s.pending;
  count = u32 (s.count + 1);
}

-- `memcmp` of the first `n` bytes of both arrays: `none` if it leaves them.
unfoldable same_bytes : ℕ → Message → Message → Option Bool
same_bytes n a b = elim (read_at a 0 n) [
  | none ↦ none
  | some x ↦ elim (read_at b 0 n) [ none ↦ none | some y ↦ some (bytes_eq x y) ]
]

-- The test of the loop.
unfoldable matches : Message → ℕ → ScheduledMessage → Option Bool
unfolding same_bytes
matches msg time entry =
    if (entry.scheduled_time_ns == time) && (entry.msg.len == msg.len)
    then same_bytes msg.len entry.msg msg
    else some false

-- A removal leaves something, stops at the assertion that the message is found, or leaves an array.
pub data Removal (A : Type 0) : Type 0 where
  removed : A → Removal A
  not_found : Removal A
  overrun : Removal A

abbrev after_removal : {A B : Type 0} → (A → B) → Removal A → Removal B
after_removal f (removed a) = removed (f a)
after_removal f not_found = not_found
after_removal f overrun = overrun

-- The list without its first entry that matches.
unfoldable remove_first : Message → ℕ → List ScheduledMessage → Removal (List ScheduledMessage)
remove_first msg time [] = not_found
remove_first msg time (entry ∷ rest) =
    let later = remove_first msg time rest in
    elim (matches msg time entry) [
      | none ↦ overrun
      | some found ↦
          if found
          then removed rest
          else after_removal (λ (l : List ScheduledMessage). entry ∷ l) later
    ]

unfoldable pub pdes_inflight_remove : Message → ℕ → Inflight → Removal Inflight
unfolding remove_first matches
pdes_inflight_remove msg time s =
    after_removal
      (λ (l : List ScheduledMessage). record { pending = l; count = u32 (s.count + (2 ^ 32 - 1)) })
      (remove_first msg time s.pending)

-- `InflightMessageArray`
pub record InflightMessageArray : Type 0 where
  pub messages : List Message
  pub scheduled_times : List ℕ
  pub count : ℕ

-- `a[i] = v`: `none` if the array has no such entry.
unfoldable write_at : {A : Type 0} → List A → ℕ → A → Option (List A)
write_at [] i v = none
write_at (x ∷ a) zero v = some (v ∷ a)
write_at (x ∷ a) (suc i) v = elim (write_at a i v) [
  | none ↦ none
  | some written ↦ some (x ∷ written)
]

-- The loop from the index `i` on.
unfoldable copy_entries :
    ℕ → List ScheduledMessage → InflightMessageArray → Option InflightMessageArray
unfolding write_at
copy_entries i [] result = some result
copy_entries i (entry ∷ rest) result = elim (write_at result.messages i entry.msg) [
  | none ↦ none
  | some ms ↦ elim (write_at result.scheduled_times i entry.scheduled_time_ns) [
    | none ↦ none
    | some ts ↦ copy_entries (i + 1) rest (record result { messages = ms; scheduled_times = ts })
  ]
]

-- What `g_new0` fills an array of messages with.
abbrev zero_message : Message
zero_message = record { ts_ns = 0; len = 0; payload = []; kind = 0 }

-- Both arrays get `count` entries and one write for each entry of the list: `none` at a write past
-- their end. The two NULL pointers of an empty result are empty lists.
unfoldable pub pdes_inflight_get_all : Inflight → Option InflightMessageArray
unfolding copy_entries
pdes_inflight_get_all s =
    if s.count == 0
    then some (record { messages = []; scheduled_times = []; count = s.count })
    else copy_entries 0 s.pending (record {
      messages = replicate s.count zero_message;
      scheduled_times = replicate s.count 0;
      count = s.count;
    })

unfoldable get_number_of_inflight_messages : Inflight → ℕ
get_number_of_inflight_messages s = s.count

unfoldable pub pdes_inflight_count : Inflight → ℕ
pdes_inflight_count s = s.count
