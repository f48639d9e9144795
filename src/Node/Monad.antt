-- ===== src/Node/Monad.antt =====
-- One callback as a function of the state: it returns, stops at an `assert` or a wild access,
-- leaves by `exit(0)`, or is still in its waiting loop when no more messages come.
use qemu_pdes.Base.{ℕ, Bool, Option, none, some, List, [], ◌∷◌, ◌++◌, if◌then◌else◌}
use qemu_pdes.Comm.Message.{Message, create_message, read_at}
use qemu_pdes.Node.{Node, PdesEngine, PdesWwt, Effect, Timer, no_timer, armed}

pub data Fault : Type 0 where
  assertion : Fault  -- an `assert` that fails
  overrun : Fault  -- a copy over the end of an array
  null_pointer : Fault
  indeterminate : Fault  -- the use of a variable that was never set

pub data Outcome (A : Type 0) : Type 0 where
  ret : A → Node → Outcome A
  fault : Fault → Outcome A
  exited : Node → Outcome A
  spinning : Node → Outcome A

abbrev pub M : Type 0 → Type 0
M A = Node → Outcome A

abbrev pub pure : {A : Type 0} → A → M A
pure a n = ret a n

abbrev pub after : {A B : Type 0} → Outcome A → (A → M B) → Outcome B
after (ret a n) f = f a n
after (fault e) f = fault e
after (exited n) f = exited n
after (spinning n) f = spinning n

infixl 5 ◌>>=◌ ◌>>◌
abbrev pub ◌>>=◌ : {A B : Type 0} → M A → (A → M B) → M B
◌>>=◌ m f n = after (m n) f

abbrev pub ◌>>◌ : {B : Type 0} → M (Unit {0}) → M B → M B
m >> k = m >>= λ _. k

abbrev pub skip : M (Unit {0})
skip = pure tt

abbrev pub fail : {A : Type 0} → Fault → M A
fail e n = fault e

-- `exit(0)`
abbrev pub exit : {A : Type 0} → M A
exit n = exited n

abbrev pub assert : Bool → M (Unit {0})
assert b = if b then skip else fail assertion

abbrev pub when : Bool → M (Unit {0}) → M (Unit {0})
when b m = if b then m else skip

abbrev pub get : {A : Type 0} → (Node → A) → M A
get f n = ret (f n) n

abbrev pub engine : {A : Type 0} → (PdesEngine → A) → M A
engine f n = ret (f n.engine) n

abbrev pub wwt : {A : Type 0} → (PdesWwt → A) → M A
wwt f n = ret (f n.wwt) n

abbrev pub modify : (Node → Node) → M (Unit {0})
modify f n = ret tt (f n)

abbrev pub set_engine : (PdesEngine → PdesEngine) → M (Unit {0})
set_engine f n = ret tt (record n { engine = f n.engine })

abbrev pub set_wwt : (PdesWwt → PdesWwt) → M (Unit {0})
set_wwt f n = ret tt (record n { wwt = f n.wwt })

abbrev pub emit : Effect → M (Unit {0})
emit e n = ret tt (record n { trace = n.trace ++ (e ∷ []) })

abbrev pub lift : {A : Type 0} → Option A → M A
lift none = fail overrun
lift (some a) = pure a

-- `timer_mod` of a pointer: the timer that it leaves.
abbrev pub timer_mod : Timer → ℕ → M Timer
timer_mod no_timer t = fail null_pointer
timer_mod _ t = pure (armed t)

-- `create_message`, and `memcpy` out of a message.
abbrev pub message : List ℕ → ℕ → ℕ → M Message
message bytes kind ts = lift (create_message bytes kind ts)

abbrev pub read : Message → ℕ → ℕ → M (List ℕ)
read m offset n = lift (read_at m offset n)
