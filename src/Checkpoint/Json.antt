-- ===== src/Checkpoint/Json.antt =====
-- The files of messages in flight of net/pdes-checkpoint.c: `Save` writes one, `Load` reads it back,
-- `Restore` schedules what it holds. A file is its bytes.
pub mod Save
pub mod Load
pub mod Restore
pub mod RoundTrip
mod Tests
use qemu_pdes.Base.{ℕ, Option, none, some, List, ◌++◌, codes}
use qemu_pdes.Base.Bytes.{c_str}
use qemu_pdes.Node.Monad.{Fault, null_pointer, indeterminate}

-- What a function on files does: it returns, or it leaves an array, follows NULL or uses a variable
-- that was never set. `unfinished` is a loop without fuel.
pub data Result (A : Type 0) : Type 0 where
  ok : A → Result A
  failed : Fault → Result A
  unfinished : Result A

abbrev pub and_then : {A B : Type 0} → Result A → (A → Result B) → Result B
and_then (ok a) f = f a
and_then (failed e) f = failed e
and_then unfinished f = unfinished

infixl 5 ◌>>=◌
abbrev pub ◌>>=◌ : {A B : Type 0} → Result A → (A → Result B) → Result B
m >>= f = and_then m f

-- The use of a pointer, and of a variable that `sscanf` should have set.
abbrev pub found : {A : Type 0} → Option A → Result A
found none = failed null_pointer
found (some a) = ok a

abbrev pub stored : {A : Type 0} → Option A → Result A
stored none = failed indeterminate
stored (some a) = ok a

unfoldable pub get_json_file_name : List ℕ → List ℕ
get_json_file_name base_name = c_str base_name ++ codes "_in_flight.json"

-- The keys.
abbrev pub time_key : List ℕ
time_key = codes "\"scheduled_time_ns\":"

abbrev pub ts_key : List ℕ
ts_key = codes "\"timestamp_ns\":"

abbrev pub type_key : List ℕ
type_key = codes "\"type\":"

abbrev pub len_key : List ℕ
len_key = codes "\"len\":"

abbrev pub data_key : List ℕ
data_key = codes "\"data\": ["
