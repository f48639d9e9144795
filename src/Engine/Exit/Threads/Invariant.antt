-- ===== src/Engine/Exit/Threads/Invariant.antt =====
-- What holds of the flags and of both threads between any two accesses.
use qemu_pdes.Base.{ℕ, ◌+◌, ◌*◌, ◌≤◌, ◌≡◌, List, [], ◌∷◌, ◌++◌, arith, ◌==◌, Bool-cases, inl, inr}
use qemu_pdes.Base.Word.{signed_le32}
use qemu_pdes.Comm.Message.{end_of_emulation, intent_to_end_emulation, permission_to_end_emulation}
use qemu_pdes.Engine.Exit.Invariant.{bit}
use qemu_pdes.Engine.Exit.Threads.{
  Flags, to_can_stop, to_caller, Pc, free, ask, send_intent, set_intent_sent, ask_permitted,
  at_boundary, boundary_ready, boundary_permitted, set_permitted, send_permission, read_permitted,
  exchange_sent, send_end, set_ready, answer_permitted, answer_finished, exchange_notified,
  count_intent, take_permission, assert_permitted, set_finished, failed, access,
}

-- How many messages of a type went out.
abbrev pub count : ℕ → List ℕ → ℕ
count k [] = 0
count k (x ∷ xs) = bit (x == k) + count k xs

pub count-snoc : (k x : ℕ) (xs : List ℕ) → count k (xs ++ (x ∷ [])) ≡ count k xs + bit (x == k)
count-snoc k x [] = omega arith
count-snoc k x (y ∷ xs) = omega (arith, count-snoc k x xs)

-- A thread that is about to send END_OF_EMULATION.
abbrev pub ending : Pc → ℕ
ending (send_end r) = 1
ending _ = 0

-- A thread that found `permitted_to_exit` set.
abbrev pub past_test : Pc → ℕ
past_test (exchange_sent r) = 1
past_test (send_end r) = 1
past_test set_finished = 1
past_test answer_finished = 1
past_test _ = 0

-- A thread that will still come to the exchange of `end_message_sent`, if the flag is set.
abbrev pub flushing : Pc → ℕ
flushing (send_permission r) = 1
flushing (read_permitted r) = 1
flushing (exchange_sent r) = 1
flushing _ = 0

-- A thread between the flag and the permission.
abbrev pub granting : Pc → ℕ
granting (send_permission r) = 1
granting _ = 0

-- A thread that found `permitted_to_exit` not set, and has not sent the permission.
abbrev pub permitting : Pc → ℕ
permitting (set_permitted r) = 1
permitting (send_permission r) = 1
permitting _ = 0

-- Accesses that only the master comes to, and that only a follower comes to.
abbrev pub of_master : Pc → ℕ
of_master ask_permitted = 1
of_master at_boundary = 1
of_master boundary_ready = 1
of_master boundary_permitted = 1
of_master (set_permitted r) = 1
of_master (send_permission r) = 1
of_master _ = 0

abbrev pub of_follower : Pc → ℕ
of_follower take_permission = 1
of_follower send_intent = 1
of_follower set_intent_sent = 1
of_follower _ = 0

-- The answer of `can_stop`.
abbrev pub answered : Pc → ℕ
answered (free b) = bit b
answered _ = 0

-- Accesses on the way to the intent.
abbrev pub at_ask : Pc → ℕ
at_ask ask = 1
at_ask _ = 0

abbrev pub sending : Pc → ℕ
sending send_intent = 1
sending _ = 0

abbrev pub setting : Pc → ℕ
setting set_intent_sent = 1
setting _ = 0

-- `a` and `b` are 1 for a thread that may call `can_stop`, and 0 for the other.
pub record Inv (a b : ℕ) (f : Flags) (p q : Pc) : Type 0 where
  pub ends : count end_of_emulation f.sent + (ending p + ending q) ≡ bit f.end_message_sent
  pub end_permitted : bit f.end_message_sent ≤ bit f.permitted_to_exit
  pub past : past_test p ≤ bit f.permitted_to_exit
  pub past' : past_test q ≤ bit f.permitted_to_exit
  pub flushed : bit f.permitted_to_exit ≤ bit f.end_message_sent + (flushing p + flushing q)
  pub few : count permission_to_end_emulation f.sent + (permitting p + permitting q) ≤ 2
  pub none_before :
      count permission_to_end_emulation f.sent + (granting p + granting q)
      ≤ 2 * bit f.permitted_to_exit
  pub given :
      bit f.master + bit f.permitted_to_exit
      ≤ 1 + (count permission_to_end_emulation f.sent + (granting p + granting q))
  pub by_master : count permission_to_end_emulation f.sent ≤ 2 * bit f.master
  pub by_follower : count intent_to_end_emulation f.sent * bit f.master ≡ 0
  pub one : a + b ≤ 1
  pub asks : at_ask p + (sending p + setting p) ≤ a
  pub asks' : at_ask q + (sending q + setting q) ≤ b
  pub intents : count intent_to_end_emulation f.sent ≡ bit f.intent_sent + (setting p + setting q)
  pub unsent : bit f.intent_sent + (sending p + setting p + (sending q + setting q)) ≤ 1
  pub pair : bit f.pair_has_finished ≤ bit f.permitted_to_exit
  pub told : answered p ≤ bit f.pair_has_finished
  pub told' : answered q ≤ bit f.pair_has_finished
  pub mine : of_master p ≤ bit f.master
  pub mine' : of_master q ≤ bit f.master
  pub other : of_follower p + bit f.master ≤ 1
  pub other' : of_follower q + bit f.master ≤ 1

pub swap : {a b : ℕ} {f : Flags} (p q : Pc) → Inv a b f p q → Inv b a f q p
swap p q i = record {
  ends = omega (arith, i.ends);
  end_permitted = i.end_permitted;
  past = i.past';
  past' = i.past;
  flushed = omega (arith, i.flushed);
  few = omega (arith, i.few);
  none_before = omega (arith, i.none_before);
  given = omega (arith, i.given);
  by_master = i.by_master;
  by_follower = i.by_follower;
  one = omega (arith, i.one);
  asks = i.asks';
  asks' = i.asks;
  intents = omega (arith, i.intents);
  unsent = omega (arith, i.unsent);
  pair = i.pair;
  told = i.told';
  told' = i.told;
  mine = i.mine';
  mine' = i.mine;
  other = i.other';
  other' = i.other;
}

pub access-Inv :
    {a b : ℕ} (f : Flags) (p q : Pc) → Inv a b f p q → Inv a b (access f p).0 (access f p).1 q
unfolding access
access-Inv f (free b) q i = i
access-Inv f ask q i = elim (Bool-cases f.master) [
  | inl m ↦ rw m (elim (Bool-cases (signed_le32 1 f.ready_to_exit_neighbors)) [
    | inl z ↦ rw z (grind arith)
    | inr z ↦ rw z (grind arith)
  ])
  | inr m ↦
      rw m (elim (Bool-cases f.intent_sent) [
        | inl z ↦ rw z (grind arith)
        | inr z ↦ rw z (grind arith)
      ])
]
access-Inv f send_intent q i = grind (arith, count-snoc)
access-Inv f set_intent_sent q i = grind arith
access-Inv f ask_permitted q i = grind arith
access-Inv f at_boundary q i = grind arith
access-Inv f boundary_ready q i = grind arith
access-Inv f boundary_permitted q i = grind arith
access-Inv f (set_permitted r) q i = grind arith
access-Inv f (send_permission r) q i = grind (arith, count-snoc)
access-Inv f (read_permitted to_can_stop) q i = grind arith
access-Inv f (read_permitted to_caller) q i = grind arith
access-Inv f (exchange_sent to_can_stop) q i = grind arith
access-Inv f (exchange_sent to_caller) q i = grind arith
access-Inv f (send_end to_can_stop) q i = grind (arith, count-snoc)
access-Inv f (send_end to_caller) q i = grind (arith, count-snoc)
access-Inv f set_ready q i = grind arith
access-Inv f answer_permitted q i = grind arith
access-Inv f answer_finished q i = grind arith
access-Inv f exchange_notified q i = grind arith
access-Inv f count_intent q i = grind arith
access-Inv f take_permission q i = grind arith
access-Inv f assert_permitted q i = grind arith
access-Inv f set_finished q i = grind arith
access-Inv f failed q i = i
