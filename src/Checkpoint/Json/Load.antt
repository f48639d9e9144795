-- ===== src/Checkpoint/Json/Load.antt =====
-- `pdes_inflight_load_json`.
use qemu_pdes.Base.{
  ℕ, zero, suc, ◌+◌, ◌-◌, ◌%◌, ◌^◌, Bool, Option, none, some, List, [], ◌∷◌, map, codes,
  if◌then◌else◌, leb, length, drop,
}
use qemu_pdes.Base.Word.{u32}
pub mod Entry
pub mod Fuel
use qemu_pdes.Base.Bytes.{c_str}
use qemu_pdes.Comm.Message.{Message, max_msg_size}
use qemu_pdes.Node.Monad.{overrun}
use qemu_pdes.Text.Decimal.{scan_unsigned, scan_signed}
use qemu_pdes.Text.Search.{strstr, strchr}
use qemu_pdes.Checkpoint.Inflight.{InflightMessageArray}
use qemu_pdes.Checkpoint.Json.{
  Result, ok, failed, unfinished, ◌>>=◌, found, stored, time_key, ts_key, type_key, len_key,
  data_key,
}

-- `ptr = strchr(ptr, ','); if (ptr) ptr++;`
abbrev pub past_one : Option (List ℕ) → Option (List ℕ)
past_one none = none
past_one (some q) = some (drop 1 q)

unfoldable pub after_comma : List ℕ → Option (List ℕ)
after_comma p = past_one (strchr p b',')

-- The loop over `data`, with `k` bytes still to read from index `j` on, and the pointer behind it.
unfoldable pub load_bytes : ℕ → ℕ → Option (List ℕ) → Result (List ℕ × Option (List ℕ))
unfolding after_comma
load_bytes zero j ptr = ok ([], ptr)
load_bytes (suc k) j ptr = do
  p ← found ptr
  byte ← stored (scan_unsigned 32 p)
  (bytes, rest) ←
      if leb max_msg_size j then failed overrun else load_bytes k (j + 1) (after_comma p)
  ok ((byte % 256) ∷ bytes, rest)

-- One entry, from its first key on, with its scheduled time and the pointer behind it. The blank in
-- a format skips what the conversion behind it skips as well.
unfoldable pub load_entry : List ℕ → Result ((Message × ℕ) × Option (List ℕ))
unfolding load_bytes
load_entry p = do
  scheduled_time ← stored (scan_signed (drop (length time_key) p))
  p1 ← found (strstr p ts_key)
  timestamp ← stored (scan_unsigned 64 (drop (length ts_key) p1))
  p2 ← found (strstr p1 type_key)
  type ← stored (scan_unsigned 32 (drop (length type_key) p2))
  p3 ← found (strstr p2 len_key)
  len ← stored (scan_unsigned 32 (drop (length len_key) p3))
  p4 ← found (strstr p3 data_key)
  (bytes, rest) ← load_bytes len 0 (some (drop (length data_key) p4))
  ok (
    (record { ts_ns = timestamp; len = len; payload = bytes; kind = type % 256 }, scheduled_time),
    rest,
  )

-- The body of the loop, with what the loop does from the pointer it leaves on.
abbrev pub next_entry :
    (Option (List ℕ) → Result (List (Message × ℕ))) → Option (List ℕ) → Result (List (Message × ℕ))
next_entry loop none = ok []
next_entry loop (some p) = do
  (entry, rest) ← load_entry p
  entries ← loop rest
  ok (entry ∷ entries)

unfoldable pub load_loop : ℕ → Option (List ℕ) → Result (List (Message × ℕ))
load_loop zero ptr = unfinished
load_loop (suc fuel) ptr = do p ← found ptr; next_entry (load_loop fuel) (strstr p time_key)

abbrev pub array_of : List (Message × ℕ) → InflightMessageArray
array_of entries = record {
  messages = map (λ e. e.0) entries;
  scheduled_times = map (λ e. e.1) entries;
  count = u32 (length entries);
}

-- The content of the file ends at its first zero byte. Each turn of the loop reads more than one
-- byte, so that the length of the content is fuel enough.
unfoldable pub load_content : List ℕ → Result (List (Message × ℕ))
unfolding load_loop
load_content bytes = let content = c_str bytes in load_loop (suc (length content)) (some content)

abbrev pub load_file : Option (List ℕ) → Result (Option InflightMessageArray)
load_file none = ok none
load_file (some bytes) = do entries ← load_content bytes; ok (some (array_of entries))

-- `files` gives the bytes of the files that can be opened; `none` is NULL.
unfoldable pub pdes_inflight_load_json :
    (List ℕ → Option (List ℕ)) → List ℕ → Result (Option InflightMessageArray)
unfolding load_content
pdes_inflight_load_json files filename = load_file (files filename)
