-- ===== src/Checkpoint/Json/RoundTrip.antt =====
-- What `pdes_inflight_load_json` makes of a file that `pdes_inflight_save_json` wrote.
pub mod Whole
pub mod Content
pub mod File
use mathlib.Core.List.{append_assoc, append-nil}
use qemu_pdes.Base.{
  ℕ, zero, suc, ◌+◌, ◌-◌, ◌%◌, ◌^◌, ◌<◌, ◌≤◌, ◌≡◌, ◌≢◌, refl, sym, ap, ◌∙◌, Bool, true, false,
  Option, none, some, List, [], ◌∷◌, ◌++◌, arith, codes, if◌then◌else◌, length, drop, take,
  replicate, length-replicate, All, All-append, leb, ltb, ◌==◌,
}
use qemu_pdes.Comm.Message.{Message, zero_padded, read_at}
use qemu_pdes.Text.Decimal.{print_unsigned, print_signed, scan_unsigned, scan_signed, starts_digit}
use qemu_pdes.Text.Decimal.RoundTrip.{
  scan_unsigned-print, scan_signed-print, scan_unsigned_blank, scan_signed_blank,
  print_unsigned-IsPlain, print_signed-IsPlain,
}
use qemu_pdes.Text.Search.{strstr}
use qemu_pdes.Checkpoint.Inflight.{ScheduledMessage, Inflight}
use qemu_pdes.Checkpoint.Json.{
  Result, ok, failed, found, time_key, ts_key, type_key, len_key, data_key,
}
use qemu_pdes.Checkpoint.Json.Load.{load_bytes, load_entry, after_comma}
use qemu_pdes.Checkpoint.Json.Load.Entry.{
  field, no_quote, ts_found, type_found, len_found, data_found, load_bytes-save_bytes,
}
use qemu_pdes.Checkpoint.Json.Save.{save_bytes, save_entry, data_of}

-- Values that their C types hold, and no more bytes than a message has.
pub record Fits (e : ScheduledMessage) : Type 0 where
  pub time : e.scheduled_time_ns < 2 ^ 64
  pub ts : e.msg.ts_ns < 2 ^ 64
  pub kind : e.msg.kind < 256
  pub len : e.msg.len ≤ 2048
  pub bytes : All (λ b. b < 256) e.msg.payload

-- The first `len` bytes of the array.
abbrev pub bytes_of : ScheduledMessage → List ℕ
bytes_of e = zero_padded e.msg.len e.msg.payload

length-take : (n : ℕ) (xs : List ℕ) → n ≤ length xs → length (take n xs) ≡ n
length-take zero xs h = refl
length-take (suc n) [] h = absurd (omega arith)
length-take (suc n) (x ∷ xs) h = ap suc (length-take n xs (omega arith))

length-append_replicate : (n m : ℕ) (xs : List ℕ) → n ≤ length (xs ++ replicate n m)
length-append_replicate n m [] = omega (arith, length-replicate {0} n m)
length-append_replicate n m (x ∷ xs) = omega (arith, length-append_replicate n m xs)

All-take : (P : ℕ → Type 0) (n : ℕ) (xs : List ℕ) → All P xs → All P (take n xs)
All-take P zero xs h = tt
All-take P (suc n) [] h = tt
All-take P (suc n) (x ∷ xs) h = (h.0, All-take P n xs h.1)

All-replicate : (P : ℕ → Type 0) (n m : ℕ) → P m → All P (replicate n m)
All-replicate P zero m h = tt
All-replicate P (suc n) m h = (h, All-replicate P n m h)

pub length-bytes_of : (e : ScheduledMessage) → length (bytes_of e) ≡ e.msg.len
unfolding zero_padded
length-bytes_of e = length-take e.msg.len _ (length-append_replicate e.msg.len 0 e.msg.payload)

bytes_of-small : (e : ScheduledMessage) → Fits e → All (λ b. b < 256) (bytes_of e)
unfolding zero_padded
bytes_of-small e f =
    All-take (λ b. b < 256) e.msg.len (e.msg.payload ++ replicate e.msg.len 0)
      (All-append (λ b. b < 256) e.msg.payload _ f.bytes
        (All-replicate (λ b. b < 256) e.msg.len 0 (omega arith)))

pub data_of-Fits : (e : ScheduledMessage) → Fits e → data_of e.msg ≡ ok (bytes_of e)
unfolding read_at
data_of-Fits e f = ground (arith, f)

-- From the first key of an entry on.
abbrev pub from_key : ScheduledMessage → List ℕ → List ℕ
from_key e behind =
    time_key
    ++ field (print_signed e.scheduled_time_ns) (
        ts_key
        ++ field (print_unsigned e.msg.ts_ns) (
            type_key
            ++ field (print_unsigned e.msg.kind) (
                len_key
                ++ field (print_unsigned e.msg.len)
                    (data_key ++ (save_bytes 0 e.msg.len (bytes_of e) ++ behind)))))

-- Where the pointer stands after an entry.
abbrev pub pointer : List ℕ → List ℕ → Option (List ℕ)
pointer [] behind = some behind
pointer (b ∷ bs) behind = after_comma behind

-- The message with the bytes that were written.
abbrev pub reloaded : ScheduledMessage → Message × ℕ
reloaded e = (record e.msg { payload = bytes_of e }, e.scheduled_time_ns)

module _ (n : ℕ) (next : List ℕ) where
  read_time :
      n < 2 ^ 64 → scan_signed (codes " " ++ (print_signed n ++ (codes ",\n" ++ next))) ≡ some n
  read_time h = scan_signed_blank _ ∙ scan_signed-print n (codes ",\n" ++ next) h refl

  read_number :
      (w : ℕ)
      → n < 2 ^ w
      → n < 2 ^ 64
      → scan_unsigned w (codes " " ++ (print_unsigned n ++ (codes ",\n" ++ next))) ≡ some n
  read_number w h k =
      scan_unsigned_blank w _ ∙ scan_unsigned-print w n (codes ",\n" ++ next) h k refl

load_all_bytes :
    (bytes : List ℕ) (len : ℕ) (behind : List ℕ)
    → length bytes ≡ len
    → len ≤ 2048
    → All (λ b. b < 256) bytes
    → starts_digit behind ≡ false
    → load_bytes len 0 (some (save_bytes 0 len bytes ++ behind)) ≡ ok (bytes, pointer bytes behind)
load_all_bytes [] len behind e h a d = rw (← e) (unfold load_bytes save_bytes in refl)
load_all_bytes (b ∷ bs) len behind e h a d =
    rw (← e)
      (load_bytes-save_bytes b bs 0 (suc (length bs)) false behind (omega arith) (omega arith) a d)

pub load_entry-from_key :
    (e : ScheduledMessage) (behind : List ℕ)
    → Fits e
    → starts_digit behind ≡ false
    → load_entry (from_key e behind) ≡ ok (reloaded e, pointer (bytes_of e) behind)
unfolding load_entry
load_entry-from_key e behind f d =
    let time = print_signed e.scheduled_time_ns in
    let ts = print_unsigned e.msg.ts_ns in
    let kind = print_unsigned e.msg.kind in
    let len = print_unsigned e.msg.len in
    let whole : e.msg.kind % 256 ≡ e.msg.kind = omega (arith, f.kind) in
    simp
      (
        read_time e.scheduled_time_ns _ f.time,
        ts_found time _ (no_quote time (print_signed-IsPlain e.scheduled_time_ns)),
        read_number e.msg.ts_ns _ 64 f.ts f.ts,
        type_found ts _ (no_quote ts (print_unsigned-IsPlain e.msg.ts_ns)),
        read_number e.msg.kind _ 32 (omega (arith, f.kind)) (omega (arith, f.kind)),
        len_found kind _ (no_quote kind (print_unsigned-IsPlain e.msg.kind)),
        read_number e.msg.len _ 32 (omega (arith, f.len)) (omega (arith, f.len)),
        data_found len _ (no_quote len (print_unsigned-IsPlain e.msg.len)),
        load_all_bytes (bytes_of e) e.msg.len behind (length-bytes_of e) f.len (bytes_of-small e f)
            d,
        whole,
      )
      refl
