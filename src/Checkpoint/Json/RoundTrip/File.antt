-- ===== src/Checkpoint/Json/RoundTrip/File.antt =====
-- What is loaded and restored from the file that was saved.
use mathlib.Core.List.{reverse_aux}
use qemu_pdes.Base.{
  ℕ, suc, ◌+◌, ◌^◌, ◌<◌, ◌≡◌, refl, ap, ◌∙◌, Bool, true, false, Option, none, some, List, [], ◌∷◌,
  arith, if◌then◌else◌, length, map, length-map, All, Bool-cases, inl, inr, bytes_eq, bytes_eq_refl,
}
use qemu_pdes.Base.Word.{u32}
use qemu_pdes.Comm.Message.{Message}
use qemu_pdes.Node.Monad.{null_pointer}
use qemu_pdes.Node.{MessageReceiveContext}
use qemu_pdes.Checkpoint.Inflight.{ScheduledMessage, Inflight, pdes_inflight_add}
use qemu_pdes.Checkpoint.Inflight.Laws.{IsCounted}
use qemu_pdes.Checkpoint.Json.{Result, ok, failed, ◌>>=◌, get_json_file_name}
use qemu_pdes.Checkpoint.Json.Load.{pdes_inflight_load_json, load_file, array_of}
use qemu_pdes.Checkpoint.Json.Save.{pdes_inflight_save_json}
use qemu_pdes.Checkpoint.Json.Restore.{
  Restored, context, schedule, pdes_inflight_restore_and_schedule,
}
use qemu_pdes.Checkpoint.Json.RoundTrip.{Fits, reloaded}
use qemu_pdes.Checkpoint.Json.RoundTrip.Whole.{ends_with_data, reload}
use qemu_pdes.Checkpoint.Json.RoundTrip.Content.{whole_text, json_text_lem, load_content_lem}

-- The files when only the one that was written is there.
abbrev pub files_after : Option (List ℕ × List ℕ) → List ℕ → Option (List ℕ)
files_after none name = none
files_after (some (written, text)) name = if bytes_eq written name then some text else none

pub save_json_lem :
    (opens : List ℕ → Bool) (name : List ℕ) (s : Inflight)
    → IsCounted s
    → All Fits s.pending
    → opens (get_json_file_name name) ≡ true
    → pdes_inflight_save_json opens name s
      ≡ ok (0, some (get_json_file_name name, whole_text s.pending))
unfolding pdes_inflight_save_json
save_json_lem opens name s c f o = rw (o, json_text_lem s c f) refl

load_json_lem :
    (name : List ℕ) (l : List ScheduledMessage)
    → All Fits l
    → pdes_inflight_load_json (files_after (some (name, whole_text l))) name
      ≡ (reload l >>= λ entries. ok (some (array_of entries)))
unfolding pdes_inflight_load_json
load_json_lem name l f =
    ap (λ (b : Bool). load_file (if b then some (whole_text l) else none)) (bytes_eq_refl name)
    ∙ ap (λ (r : Result (List (Message × ℕ))). r >>= λ entries. ok (some (array_of entries)))
        (load_content_lem l f)

-- The file that is saved can be loaded, when the file can be opened, the list is well-formed and its
-- messages fit their types, unless the entry that was written last has data: behind its bytes
-- there is no comma, so that the next search starts at NULL. If its data is empty, or there is no
-- entry, the arrays hold the messages in the order of the list, with `len` bytes each, and their times.
pub load_json-save_json :
    (opens : List ℕ → Bool) (name : List ℕ) (s : Inflight)
    → IsCounted s
    → All Fits s.pending
    → opens (get_json_file_name name) ≡ true
    → (do
      (result, written) ← pdes_inflight_save_json opens name s
      pdes_inflight_load_json (files_after written) (get_json_file_name name))
      ≡ (if ends_with_data s.pending
          then failed null_pointer
          else ok (some (array_of (map reloaded s.pending))))
load_json-save_json opens name s c f o =
    rw (save_json_lem opens name s c f o, load_json_lem (get_json_file_name name) s.pending f)
      (elim (Bool-cases (ends_with_data s.pending)) [ inl z ↦ rw z refl | inr z ↦ rw z refl ])

-- The context of a message that is loaded.
abbrev context_of : Bool → ScheduledMessage → MessageReceiveContext
context_of has_cb e = context has_cb ((reloaded e).0) e.scheduled_time_ns

-- The entry of the list in flight that is made of it.
abbrev put_back : ScheduledMessage → ScheduledMessage
put_back e = record { msg = (reloaded e).0; scheduled_time_ns = e.scheduled_time_ns }

schedule_lem :
    (has_cb : Bool) (l : List ScheduledMessage) (s : Inflight)
    → s.count + length l < 2 ^ 32
    → schedule has_cb (map (λ e. e.0) (map reloaded l)) (map (λ e. e.1) (map reloaded l)) s
      ≡ record {
        contexts = map (context_of has_cb) l;
        inflight = record {
          pending = reverse_aux (map put_back l) s.pending;
          count = s.count + length l;
        };
      }
unfolding schedule
schedule_lem has_cb [] s h = let same : s.count ≡ s.count + 0 = omega arith in rw (← same) refl
schedule_lem has_cb (e ∷ l) s h =
    let added = pdes_inflight_add ((reloaded e).0) e.scheduled_time_ns s in
    let one_more : added.count ≡ s.count + 1 = unfold pdes_inflight_add in omega arith in
    let at_head : added.pending ≡ put_back e ∷ s.pending = unfold pdes_inflight_add in refl in
    let same : s.count + 1 + length l ≡ s.count + suc (length l) = omega arith in
    rw (schedule_lem has_cb l added (omega (arith, one_more)), one_more, at_head, same) refl

-- What is restored from the file of the list `s`, in front of the list `s0`.
abbrev pub restored : Bool → Inflight → Inflight → Restored
restored has_cb s s0 = record {
  contexts = map (context_of has_cb) s.pending;
  inflight = record {
    pending = reverse_aux (map put_back s.pending) s0.pending;
    count = s0.count + s.count;
  };
}

pub restore_lem :
    (name : List ℕ) (has_cb : Bool) (s s0 : Inflight)
    → IsCounted s
    → All Fits s.pending
    → ends_with_data s.pending ≡ false
    → IsCounted s0
    → s0.count + s.count < 2 ^ 31
    → pdes_inflight_restore_and_schedule
        (files_after (some (get_json_file_name name, whole_text s.pending)))
        name
        has_cb
        s0
      ≡ ok (s.count, restored has_cb s s0)
unfolding pdes_inflight_restore_and_schedule
restore_lem name has_cb s s0 c f e c0 h =
    let whole : u32 (length (map reloaded s.pending)) ≡ s.count =
      omega (arith, c, length-map reloaded s.pending) in
    let loaded = load_json_lem (get_json_file_name name) s.pending f in
    let scheduled = schedule_lem has_cb s.pending s0 (omega (arith, c, c0)) in
    rw (loaded, e, scheduled, whole, ← c.counted) refl

-- The checkpoint that is saved can be restored, under the same conditions and with fewer than 2^31
-- messages in flight afterwards: the result is the number of messages saved, each has a context
-- with a timer at its time, in the order of the list, and each is put in front of the messages in
-- flight before, so that their order in that list is reversed.
pub restore-save_json :
    (opens : List ℕ → Bool) (name : List ℕ) (has_cb : Bool) (s s0 : Inflight)
    → IsCounted s
    → All Fits s.pending
    → opens (get_json_file_name name) ≡ true
    → ends_with_data s.pending ≡ false
    → IsCounted s0
    → s0.count + s.count < 2 ^ 31
    → (do
      (result, written) ← pdes_inflight_save_json opens name s
      pdes_inflight_restore_and_schedule (files_after written) name has_cb s0)
      ≡ ok (s.count, restored has_cb s s0)
restore-save_json opens name has_cb s s0 c f o e c0 h =
    rw (save_json_lem opens name s c f o, restore_lem name has_cb s s0 c f e c0 h) refl
