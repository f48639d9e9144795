-- ===== src/Checkpoint/Json/RoundTrip/Whole.antt =====
-- The whole file, entry by entry.
use mathlib.Core.List.{append_assoc, append-nil}
use qemu_pdes.Base.{
  ℕ, zero, suc, ◌+◌, ◌-◌, ◌^◌, ◌<◌, ◌≡◌, refl, ap, ◌∙◌, Bool, true, false, not, Option, none, some,
  List, [], ◌∷◌, ◌++◌, arith, codes, if◌then◌else◌, length, map, All, ◌==◌, Bool-cases, inl, inr,
}
use qemu_pdes.Base.Word.{u32, signed_lt32}
use qemu_pdes.Comm.Message.{Message}
use qemu_pdes.Node.Monad.{null_pointer}
use qemu_pdes.Text.Search.{strstr, strchr}
use qemu_pdes.Checkpoint.Inflight.{ScheduledMessage}
use qemu_pdes.Checkpoint.Json.{Result, ok, failed, ◌>>=◌, time_key}
use qemu_pdes.Checkpoint.Json.Load.{load_entry, next_entry, load_loop, after_comma}
use qemu_pdes.Checkpoint.Json.Save.{save_entry, save_entries}
use qemu_pdes.Checkpoint.Json.RoundTrip.{
  Fits, bytes_of, length-bytes_of, data_of-Fits, from_key, pointer, reloaded, load_entry-from_key,
}

-- Whether the entry that is written last has data.
abbrev pub ends_with_data : List ScheduledMessage → Bool
ends_with_data [] = false
ends_with_data (e ∷ []) = not (e.msg.len == 0)
ends_with_data (e ∷ d ∷ l) = ends_with_data (d ∷ l)

abbrev pub reload : List ScheduledMessage → Result (List (Message × ℕ))
reload l = if ends_with_data l then failed null_pointer else ok (map reloaded l)

-- The text of the entries.
abbrev pub entries_text : List ScheduledMessage → List ℕ
entries_text [] = []
entries_text (e ∷ []) = save_entry e (bytes_of e) [] ++ []
entries_text (e ∷ d ∷ l) = save_entry e (bytes_of e) (codes ",") ++ entries_text (d ∷ l)

abbrev pub AllFit : List ScheduledMessage → Type 0
AllFit l = All Fits l

last_index :
    (i count : ℕ)
    → i + 1 ≡ count
    → count < 2 ^ 31
    → signed_lt32 i (u32 (count + (2 ^ 32 - 1))) ≡ false
last_index i count e h = ground arith

inner_index :
    (i count : ℕ)
    → i + 1 < count
    → count < 2 ^ 31
    → signed_lt32 i (u32 (count + (2 ^ 32 - 1))) ≡ true
inner_index i count e h = ground arith

pub save_entries_lem :
    (i count : ℕ) (l : List ScheduledMessage)
    → i + length l ≡ count
    → count < 2 ^ 31
    → AllFit l
    → save_entries i count l ≡ ok (entries_text l)
unfolding save_entries
save_entries_lem i count [] e h f = refl
save_entries_lem i count (x ∷ []) e h f = simp (data_of-Fits x f.0, last_index i count e h) refl
save_entries_lem i count (x ∷ y ∷ l) e h f =
    simp
      (
        data_of-Fits x f.0,
        inner_index i count (omega arith) h,
        save_entries_lem (i + 1) count (y ∷ l) (omega arith) h f.1,
      )
      refl

abbrev behind : List ℕ → List ℕ → List ℕ
behind separator rest = codes "]\n    }" ++ (separator ++ (codes "\n" ++ rest))

save_entry_text :
    (e : ScheduledMessage) (separator rest : List ℕ)
    → save_entry e (bytes_of e) separator ++ rest
      ≡ codes "    {\n      " ++ from_key e (behind separator rest)
unfolding save_entry
save_entry_text e separator rest = simp (append_assoc) refl

entry_found :
    (e : ScheduledMessage) (separator rest : List ℕ)
    → strstr (save_entry e (bytes_of e) separator ++ rest) time_key
      ≡ some (from_key e (behind separator rest))
unfolding strstr
entry_found e separator rest = rw (save_entry_text e separator rest) refl

abbrev pub footer : List ℕ
footer = codes "  ]\n}\n"

loop_step :
    (fuel : ℕ) (q p : List ℕ) (x : Message × ℕ) (r : Option (List ℕ))
    → strstr q time_key ≡ some p
    → load_entry p ≡ ok (x, r)
    → load_loop (suc fuel) (some q) ≡ (load_loop fuel r >>= λ es. ok (x ∷ es))
unfolding load_loop
loop_step fuel q p x r e f =
    ap (next_entry (load_loop fuel)) e
    ∙ ap (λ r. r >>= λ (entry, rest). load_loop fuel rest >>= λ es. ok (entry ∷ es)) f

loop_end :
    (fuel : ℕ) (q : List ℕ) → strstr q time_key ≡ none → load_loop (suc fuel) (some q) ≡ ok []
unfolding load_loop
loop_end fuel q e = ap (next_entry (load_loop fuel)) e

loop_null : (fuel : ℕ) → load_loop (suc fuel) none ≡ failed null_pointer
unfolding load_loop
loop_null fuel = refl

no_comma_left : after_comma (behind [] footer) ≡ none
unfolding after_comma strchr
no_comma_left = refl

nothing_left : strstr (behind [] footer) time_key ≡ none
unfolding strstr
nothing_left = refl

-- Behind the last entry: the end of the text, or NULL.
last_pointer :
    (fuel : ℕ) (bytes : List ℕ)
    → load_loop (suc fuel) (pointer bytes (behind [] footer))
      ≡ (if not (length bytes == 0) then failed null_pointer else ok [])
last_pointer fuel [] = loop_end fuel (behind [] footer) nothing_left
last_pointer fuel (b ∷ bs) = rw (no_comma_left) (loop_null fuel ∙ ground arith)

comma_behind : (rest : List ℕ) → after_comma (behind (codes ",") rest) ≡ some (codes "\n" ++ rest)
unfolding after_comma strchr
comma_behind rest = refl

-- Behind any other entry the next key is found as at the next entry.
inner_pointer :
    (bytes rest : List ℕ)
    → (q : List ℕ) × (pointer bytes (behind (codes ",") rest) ≡ some q)
      × (strstr q time_key ≡ strstr rest time_key)
unfolding strstr
inner_pointer [] rest = (behind (codes ",") rest, refl, refl)
inner_pointer (b ∷ bs) rest = (codes "\n" ++ rest, comma_behind rest, refl)

pub load_loop_lem :
    (fuel : ℕ) (q : List ℕ) (l : List ScheduledMessage)
    → length l < fuel
    → strstr q time_key ≡ strstr (entries_text l ++ footer) time_key
    → AllFit l
    → load_loop fuel (some q) ≡ reload l
load_loop_lem zero q l h e f = absurd (omega arith)
load_loop_lem (suc fuel) q [] h e f = loop_end fuel q (e ∙ unfold strstr in refl)
load_loop_lem (suc zero) q (x ∷ []) h e f = absurd (omega arith)
load_loop_lem (suc (suc fuel)) q (x ∷ []) h e f =
    let here =
      e
      ∙ (ap (λ (t : List ℕ). strstr (t ++ footer) time_key)
            (append-nil (save_entry x (bytes_of x) []))
          ∙ entry_found x [] footer) in
    loop_step (suc fuel) q (from_key x (behind [] footer)) (reloaded x) _ here
      (load_entry-from_key x (behind [] footer) f.0 refl)
    ∙ rw (last_pointer fuel (bytes_of x), length-bytes_of x)
        (elim (Bool-cases (x.msg.len == 0)) [ inl z ↦ rw z refl | inr z ↦ rw z refl ])
load_loop_lem (suc fuel) q (x ∷ y ∷ l) h e f =
    let rest = entries_text (y ∷ l) ++ footer in
    let here =
      e
      ∙ (ap (λ (t : List ℕ). strstr t time_key)
            (append_assoc (save_entry x (bytes_of x) (codes ",")) (entries_text (y ∷ l)) footer)
          ∙ entry_found x (codes ",") rest) in
    let (p, at, same) = inner_pointer (bytes_of x) rest in
    loop_step fuel q (from_key x (behind (codes ",") rest)) (reloaded x) _ here
      (load_entry-from_key x (behind (codes ",") rest) f.0 refl)
    ∙ rw (at, load_loop_lem fuel p (y ∷ l) (omega arith) same f.1)
        (elim (Bool-cases (ends_with_data (y ∷ l))) [ inl z ↦ rw z refl | inr z ↦ rw z refl ])
