-- ===== src/Base/Word.antt =====
-- Machine integers by their bit patterns: a `uintN_t` is its value, and an `intN_t` is the same
-- pattern below 2 ^ N, with signed order. Conversions between the two are then the identity, as
-- they are in C; sums wrap.
use qemu_pdes.Base.{ℕ, ◌+◌, ◌-◌, ◌*◌, ◌%◌, ◌^◌, ◌<◌, ◌≡◌, Bool, arith, ltb, leb}

abbrev pub u32 : ℕ → ℕ
u32 n = n % 2 ^ 32

abbrev pub u64 : ℕ → ℕ
u64 n = n % 2 ^ 64

abbrev pub add64 : ℕ → ℕ → ℕ
add64 a b = u64 (a + b)

abbrev pub sub64 : ℕ → ℕ → ℕ
sub64 a b = u64 (a + (2 ^ 64 - b))

abbrev pub mul64 : ℕ → ℕ → ℕ
mul64 a b = u64 (a * b)

-- The pattern of the `int64_t` -1.
abbrev pub minus_one64 : ℕ
minus_one64 = 2 ^ 64 - 1

-- Signed orders: adding half the range maps signed order to the order of ℕ.
abbrev pub signed_lt64 : ℕ → ℕ → Bool
signed_lt64 a b = ltb (u64 (a + 2 ^ 63)) (u64 (b + 2 ^ 63))

abbrev pub signed_lt32 : ℕ → ℕ → Bool
signed_lt32 a b = ltb (u32 (a + 2 ^ 31)) (u32 (b + 2 ^ 31))

abbrev pub signed_le32 : ℕ → ℕ → Bool
signed_le32 a b = leb (u32 (a + 2 ^ 31)) (u32 (b + 2 ^ 31))

pub sub64-add64 : (a b : ℕ) → a < 2 ^ 64 → b < 2 ^ 64 → sub64 (add64 a b) b ≡ a
sub64-add64 a b ha hb = omega arith

pub add64-sub64 : (a b : ℕ) → a < 2 ^ 64 → b < 2 ^ 64 → add64 (sub64 a b) b ≡ a
add64-sub64 a b ha hb = omega arith
