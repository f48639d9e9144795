-- ===== src/Checkpoint/Json/Tests.antt =====
-- Two messages in flight, saved and loaded.
use qemu_pdes.Base.{
  ℕ, ◌-◌, ◌^◌, ◌≡◌, ◌≢◌, refl, Bool, true, some, List, [], ◌∷◌, arith, codes, length,
}
use qemu_pdes.Comm.Message.{read_at, zero_padded}
use qemu_pdes.Text.Decimal.{print_signed}
use qemu_pdes.Node.Monad.{null_pointer}
use qemu_pdes.Node.{armed}
use qemu_pdes.Checkpoint.Inflight.{ScheduledMessage, Inflight}
use qemu_pdes.Checkpoint.Inflight.Laws.{IsCounted}
use qemu_pdes.Checkpoint.Json.{ok, failed, unfinished, ◌>>=◌, get_json_file_name}
use qemu_pdes.Checkpoint.Json.Load.{pdes_inflight_load_json}
use qemu_pdes.Checkpoint.Json.Load.Fuel.{load_json-ends}
use qemu_pdes.Checkpoint.Json.Save.{json_text, pdes_inflight_save_json}
use qemu_pdes.Checkpoint.Json.Restore.{pdes_inflight_restore_and_schedule}
use qemu_pdes.Checkpoint.Json.RoundTrip.{Fits}
use qemu_pdes.Checkpoint.Json.RoundTrip.File.{files_after, load_json-save_json, restore-save_json}

abbrev entry : ℕ → ℕ → List ℕ → ScheduledMessage
entry time ts bytes = record {
  msg = record { ts_ns = ts; len = length bytes; payload = bytes; kind = 0 };
  scheduled_time_ns = time;
}

abbrev in_flight : List ScheduledMessage → Inflight
in_flight l = record { pending = l; count = length l }

abbrev first : ScheduledMessage
first = entry 500 400 (7 ∷ 255 ∷ [])

abbrev second : ScheduledMessage
second = entry (2 ^ 64 - 3) 300 []

abbrev name : List ℕ
name = codes "snap"

abbrev anywhere : List ℕ → Bool
anywhere n = true

file_text :
    json_text (in_flight (first ∷ second ∷ []))
    ≡ ok (
        codes
          "{\n  \"inflight_messages\": [\n    {\n      \"scheduled_time_ns\": 500,\n      \"timestamp_ns\": 400,\n      \"type\": 0,\n      \"len\": 2,\n      \"data\": [7, 255]\n    },\n    {\n      \"scheduled_time_ns\": -3,\n      \"timestamp_ns\": 300,\n      \"type\": 0,\n      \"len\": 0,\n      \"data\": []\n    }\n  ]\n}\n")
unfolding json_text read_at print_signed
file_text = refl

first-Fits : Fits first
first-Fits = record {
  time = omega arith;
  ts = omega arith;
  kind = omega arith;
  len = omega arith;
  bytes = (omega arith, (omega arith, tt));
}

second-Fits : Fits second
second-Fits = record {
  time = omega arith;
  ts = omega arith;
  kind = omega arith;
  len = omega arith;
  bytes = tt;
}

both-IsCounted : IsCounted (in_flight (first ∷ second ∷ []))
both-IsCounted = record { counted = refl; small = omega arith }

load_json-save_json_example :
    (do
      (result, written) ← pdes_inflight_save_json anywhere name (in_flight (first ∷ second ∷ []))
      pdes_inflight_load_json (files_after written) (get_json_file_name name))
    ≡ ok (
        some (record {
          messages = first.msg ∷ second.msg ∷ [];
          scheduled_times = 500 ∷ (2 ^ 64 - 3) ∷ [];
          count = 2;
        }))
unfolding zero_padded
load_json-save_json_example =
    load_json-save_json anywhere name (in_flight (first ∷ second ∷ [])) both-IsCounted
      (first-Fits, (second-Fits, tt)) refl

-- The same two messages in the other order: the entry that is written last has data.
last_data_fails :
    (do
      (result, written) ← pdes_inflight_save_json anywhere name (in_flight (second ∷ first ∷ []))
      pdes_inflight_load_json (files_after written) (get_json_file_name name))
    ≡ failed null_pointer
last_data_fails =
    load_json-save_json anywhere name (in_flight (second ∷ first ∷ []))
      (record { counted = refl; small = omega arith }) (second-Fits, (first-Fits, tt)) refl

abbrev third : ScheduledMessage
third = entry 600 0 (1 ∷ [])

restore-save_json_example :
    (do
      (result, written) ← pdes_inflight_save_json anywhere name (in_flight (first ∷ second ∷ []))
      pdes_inflight_restore_and_schedule (files_after written) name true (in_flight (third ∷ [])))
    ≡ ok (
      2,
      record {
        contexts =
            record {
              has_recv_cb = true;
              msg = first.msg;
              one_time_poll_timer = armed 500;
              timestamp_ns = 500;
            }
            ∷ record {
              has_recv_cb = true;
              msg = second.msg;
              one_time_poll_timer = armed (2 ^ 64 - 3);
              timestamp_ns = 2 ^ 64 - 3;
            }
            ∷ [];
        inflight = record { pending = second ∷ first ∷ third ∷ []; count = 3 };
      },
    )
unfolding zero_padded
restore-save_json_example =
    restore-save_json anywhere name true (in_flight (first ∷ second ∷ [])) (in_flight (third ∷ []))
      both-IsCounted (first-Fits, (second-Fits, tt)) refl refl
      (record { counted = refl; small = omega arith }) (omega arith)

load_json-ends_example :
    pdes_inflight_load_json (λ n. some (codes "\"scheduled_time_ns\": 5")) name ≢ unfinished
load_json-ends_example = load_json-ends (λ n. some (codes "\"scheduled_time_ns\": 5")) name
