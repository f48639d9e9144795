-- ===== src/Text/Search/Laws.antt =====
-- Searches go past text that cannot begin a match.
use qemu_pdes.Base.{ℕ, ◌≡◌, ◌≢◌, refl, List, [], ◌∷◌, ◌++◌, arith, All}
use qemu_pdes.Text.Search.{strstr, strchr}

pub strstr_skip :
    (k : ℕ) (ks pre s : List ℕ)
    → All (λ c. c ≢ k) pre
    → strstr (pre ++ s) (k ∷ ks) ≡ strstr s (k ∷ ks)
unfolding strstr
strstr_skip k ks [] s h = refl
strstr_skip k ks (c ∷ pre) s h = ground (arith, h, strstr_skip k ks pre s h.1)

pub strchr_skip : (k : ℕ) (pre s : List ℕ) → All (λ c. c ≢ k) pre → strchr (pre ++ s) k ≡ strchr s k
unfolding strchr
strchr_skip k [] s h = refl
strchr_skip k (c ∷ pre) s h = ground (arith, h, strchr_skip k pre s h.1)
