-- ===== src/Checkpoint/Json/Save.antt =====
-- `pdes_inflight_save_json`.
use qemu_pdes.Base.{
  ℕ, ◌+◌, ◌-◌, ◌^◌, Bool, Option, none, some, List, [], ◌∷◌, ◌++◌, codes, if◌then◌else◌, ltb,
}
use qemu_pdes.Base.Word.{u32, signed_lt32}
use qemu_pdes.Comm.Message.{Message, read_at}
use qemu_pdes.Node.Monad.{overrun}
use qemu_pdes.Text.Decimal.{print_unsigned, print_signed}
use qemu_pdes.Checkpoint.Inflight.{ScheduledMessage, Inflight}
use qemu_pdes.Checkpoint.Json.{
  Result, ok, failed, ◌>>=◌, get_json_file_name, time_key, ts_key, type_key, len_key, data_key,
}

-- The loop over `data`, from index `j` on.
unfoldable pub save_bytes : ℕ → ℕ → List ℕ → List ℕ
save_bytes j len [] = []
save_bytes j len (b ∷ bs) =
    print_unsigned b ++ ((if ltb j (len - 1) then codes ", " else []) ++ save_bytes (j + 1) len bs)

-- One entry, with the bytes of its message and what comes behind its closing brace.
unfoldable pub save_entry : ScheduledMessage → List ℕ → List ℕ → List ℕ
unfolding save_bytes
save_entry entry bytes separator =
    codes "    {\n"
    ++ (codes "      "
        ++ (time_key
            ++ (codes " "
                ++ (print_signed entry.scheduled_time_ns
                    ++ (codes ",\n"
                        ++ (codes "      "
                            ++ (ts_key
                                ++ (codes " "
                                    ++ (print_unsigned entry.msg.ts_ns
                                        ++ (codes ",\n"
                                            ++ (codes "      "
                                                ++ (type_key
                                                    ++ (codes " "
                                                        ++ (print_unsigned entry.msg.kind
                                                            ++ (codes ",\n"
                                                            ++ (codes "      "
                                                            ++ (len_key
                                                            ++ (codes " "
                                                            ++ (print_unsigned entry.msg.len
                                                            ++ (codes ",\n"
                                                            ++ (codes "      "
                                                            ++ (data_key
                                                            ++ (save_bytes 0 entry.msg.len bytes
                                                            ++ (codes "]\n"
                                                            ++ (codes "    }"
                                                            ++ (separator
                                                            ++ codes "\n"))))))))))))))))))))))))))

-- `len` bytes of the array of a message.
abbrev pub data_of : Message → Result (List ℕ)
data_of m = elim (read_at m 0 m.len) [ none ↦ failed overrun | some bytes ↦ ok bytes ]

-- The loop over the list, with the `int` index `i`.
unfoldable pub save_entries : ℕ → ℕ → List ScheduledMessage → Result (List ℕ)
unfolding save_entry
save_entries i count [] = ok []
save_entries i count (entry ∷ rest) = do
  bytes ← data_of entry.msg
  let separator = if signed_lt32 i (u32 (count + (2 ^ 32 - 1))) then codes "," else []
  text ← save_entries (i + 1) count rest
  ok (save_entry entry bytes separator ++ text)

unfoldable pub json_text : Inflight → Result (List ℕ)
unfolding save_entries
json_text s = do
  entries ← save_entries 0 s.count s.pending
  ok (codes "{\n  \"inflight_messages\": [\n" ++ (entries ++ codes "  ]\n}\n"))

-- The result, and the name and the bytes of the file that is written. `opens` says for which names
-- `fopen` succeeds.
unfoldable pub pdes_inflight_save_json :
    (List ℕ → Bool) → List ℕ → Inflight → Result (ℕ × Option (List ℕ × List ℕ))
pdes_inflight_save_json opens checkpoint_name s =
    let name = get_json_file_name checkpoint_name in
    if opens name then (do text ← json_text s; ok (0, some (name, text))) else ok (2 ^ 32 - 1, none)
