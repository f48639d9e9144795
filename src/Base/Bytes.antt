-- ===== src/Base/Bytes.antt =====
-- Numbers as little-endian bytes: what `memcpy` of an integer writes and reads.
use native.Mathlib.Nat.{pow-suc}
use qemu_pdes.Base.{
  ℕ, zero, suc, ◌+◌, ◌*◌, ◌/◌, ◌%◌, ◌^◌, ◌<◌, ◌≡◌, refl, List, [], ◌∷◌, arith, length, ap, All, ◌≢◌,
  if◌then◌else◌, ◌==◌,
}

-- The `k` low bytes of `n`.
unfoldable pub le_bytes : ℕ → ℕ → List ℕ
le_bytes zero n = []
le_bytes (suc k) n = n % 256 ∷ le_bytes k (n / 256)

unfoldable pub of_le_bytes : List ℕ → ℕ
of_le_bytes [] = 0
of_le_bytes (b ∷ bs) = b + 256 * of_le_bytes bs

pub length-le_bytes : (k n : ℕ) → length (le_bytes k n) ≡ k
unfolding le_bytes
length-le_bytes zero n = refl
length-le_bytes (suc k) n = ap suc (length-le_bytes k (n / 256))

pub of_le_bytes-le_bytes : (k n : ℕ) → n < 256 ^ k → of_le_bytes (le_bytes k n) ≡ n
unfolding le_bytes of_le_bytes
of_le_bytes-le_bytes zero n h = omega arith
of_le_bytes-le_bytes (suc k) n h =
    let smaller : n / 256 < 256 ^ k = omega (arith, pow-suc 256 k) in
    omega (arith, of_le_bytes-le_bytes k (n / 256) smaller)

-- The text of a `char` array: up to its first zero byte.
unfoldable pub c_str : List ℕ → List ℕ
c_str [] = []
c_str (b ∷ bs) = let rest = c_str bs in if b == 0 then [] else b ∷ rest

pub c_str-eq_self : (bs : List ℕ) → All (λ b. b ≢ 0) bs → c_str bs ≡ bs
unfolding c_str
c_str-eq_self [] h = refl
c_str-eq_self (b ∷ bs) h = ground (arith, c_str-eq_self bs h.1)
