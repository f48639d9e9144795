-- ===== src/Checkpoint/Json/RoundTrip/Content.antt =====
-- The text that is written has no zero byte, and is long enough to be fuel for reading it.
use qemu_pdes.Base.{
  ℕ, suc, ◌+◌, ◌-◌, ◌^◌, ◌<◌, ◌≤◌, ◌≡◌, refl, ap, ◌∙◌, Bool, true, false, ◌&&◌, not, some, List, [],
  ◌∷◌, ◌++◌, arith, codes, length, length-append, All, ltb, ◌==◌, Bool-cases, inl, inr,
}
use qemu_pdes.Base.Bytes.{c_str}
use qemu_pdes.Text.Decimal.{print_unsigned, print_signed}
use qemu_pdes.Text.Decimal.RoundTrip.{IsPlain, print_unsigned-IsPlain, print_signed-IsPlain}
use qemu_pdes.Text.Search.{strstr}
use qemu_pdes.Checkpoint.Inflight.{ScheduledMessage, Inflight}
use qemu_pdes.Checkpoint.Inflight.Laws.{IsCounted}
use qemu_pdes.Checkpoint.Json.{ok, time_key}
use qemu_pdes.Checkpoint.Json.Load.{load_loop, load_content}
use qemu_pdes.Checkpoint.Json.Save.{save_entry, save_bytes, json_text}
use qemu_pdes.Checkpoint.Json.RoundTrip.{bytes_of}
use qemu_pdes.Checkpoint.Json.RoundTrip.Whole.{
  reload, entries_text, footer, AllFit, save_entries_lem, load_loop_lem,
}

abbrev no_zero : List ℕ → Bool
no_zero [] = true
no_zero (c ∷ s) = not (c == 0) && no_zero s

no_zero-append : (s t : List ℕ) → no_zero (s ++ t) ≡ (no_zero s && no_zero t)
no_zero-append [] t = refl
no_zero-append (c ∷ s) t = elim (Bool-cases (c == 0)) [
  | inl z ↦ rw z refl
  | inr z ↦ rw z (no_zero-append s t)
]

c_str-no_zero : (s : List ℕ) → no_zero s ≡ true → c_str s ≡ s
unfolding c_str
c_str-no_zero [] h = refl
c_str-no_zero (c ∷ s) h = ground (arith, h, c_str-no_zero s)

plain-no_zero : (s : List ℕ) → All IsPlain s → no_zero s ≡ true
plain-no_zero [] h = refl
plain-no_zero (c ∷ s) h =
    let this : (c == 0) ≡ false = ground (arith, h.0) in rw (this) (plain-no_zero s h.1)

unsigned-no_zero : (n : ℕ) → no_zero (print_unsigned n) ≡ true
unsigned-no_zero n = plain-no_zero _ (print_unsigned-IsPlain n)

signed-no_zero : (n : ℕ) → no_zero (print_signed n) ≡ true
signed-no_zero n = plain-no_zero _ (print_signed-IsPlain n)

save_bytes-no_zero : (j len : ℕ) (bytes : List ℕ) → no_zero (save_bytes j len bytes) ≡ true
unfolding save_bytes
save_bytes-no_zero j len [] = refl
save_bytes-no_zero j len (b ∷ bs) = elim (Bool-cases (ltb j (len - 1))) [
  | inl z ↦ rw z (
      no_zero-append (print_unsigned b) _
      ∙ simp (unsigned-no_zero b, save_bytes-no_zero (j + 1) len bs) refl)
  | inr z ↦ rw z (
      no_zero-append (print_unsigned b) _
      ∙ simp (unsigned-no_zero b, save_bytes-no_zero (j + 1) len bs) refl)
]

save_entry-no_zero :
    (e : ScheduledMessage) (separator : List ℕ)
    → no_zero separator ≡ true
    → no_zero (save_entry e (bytes_of e) separator) ≡ true
unfolding save_entry
save_entry-no_zero e separator h =
    simp
      (
        no_zero-append,
        unsigned-no_zero,
        signed-no_zero,
        save_bytes-no_zero 0 e.msg.len (bytes_of e),
        h,
      )
      refl

entries_text-no_zero : (l : List ScheduledMessage) → no_zero (entries_text l) ≡ true
entries_text-no_zero [] = refl
entries_text-no_zero (e ∷ []) =
    no_zero-append (save_entry e (bytes_of e) []) [] ∙ simp (save_entry-no_zero e [] refl) refl
entries_text-no_zero (e ∷ d ∷ l) =
    no_zero-append (save_entry e (bytes_of e) (codes ",")) (entries_text (d ∷ l))
    ∙ simp (save_entry-no_zero e (codes ",") refl, entries_text-no_zero (d ∷ l)) refl

entry_long :
    (e : ScheduledMessage) (separator : List ℕ) → 1 ≤ length (save_entry e (bytes_of e) separator)
unfolding save_entry
entry_long e separator = omega arith

entries_long : (l : List ScheduledMessage) → length l ≤ length (entries_text l)
entries_long [] = omega arith
entries_long (e ∷ []) =
    omega (arith, entry_long e [], length-append (save_entry e (bytes_of e) []) [])
entries_long (e ∷ d ∷ l) = omega (
  arith,
  entry_long e (codes ","),
  length-append (save_entry e (bytes_of e) (codes ",")) (entries_text (d ∷ l)),
  entries_long (d ∷ l),
)

-- The text of the whole file.
abbrev pub whole_text : List ScheduledMessage → List ℕ
whole_text l = codes "{\n  \"inflight_messages\": [\n" ++ (entries_text l ++ footer)

pub json_text_lem :
    (s : Inflight) → IsCounted s → AllFit s.pending → json_text s ≡ ok (whole_text s.pending)
unfolding json_text
json_text_lem s c f =
    let small : s.count < 2 ^ 31 = omega (arith, c) in
    simp (save_entries_lem 0 s.count s.pending (omega (arith, c)) small f) refl

whole_text-no_zero : (l : List ScheduledMessage) → no_zero (whole_text l) ≡ true
whole_text-no_zero l = no_zero-append (entries_text l) footer ∙ simp (entries_text-no_zero l) refl

first_key :
    (l : List ScheduledMessage)
    → strstr (whole_text l) time_key ≡ strstr (entries_text l ++ footer) time_key
unfolding strstr
first_key l = refl

pub load_content_lem :
    (l : List ScheduledMessage) → AllFit l → load_content (whole_text l) ≡ reload l
unfolding load_content
load_content_lem l f =
    let enough : length l < suc (length (whole_text l)) =
      omega (arith, entries_long l, length-append (entries_text l) footer) in
    ap (λ (t : List ℕ). load_loop (suc (length t)) (some t))
      (c_str-no_zero (whole_text l) (whole_text-no_zero l))
    ∙ load_loop_lem (suc (length (whole_text l))) (whole_text l) l enough (first_key l) f
