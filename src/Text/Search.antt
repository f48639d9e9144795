-- ===== src/Text/Search.antt =====
-- `strstr` and `strchr`: what is left of a text from the first match on.
pub mod Laws
use qemu_pdes.Base.{
  ℕ, Bool, true, false, ◌&&◌, Option, none, some, List, [], ◌∷◌, ◌++◌, if◌then◌else◌, ◌==◌,
}

abbrev pub starts : List ℕ → List ℕ → Bool
starts [] s = true
starts (k ∷ ks) [] = false
starts (k ∷ ks) (c ∷ s) = elim (k == c) [ true ↦ starts ks s | false ↦ false ]

-- `strstr(s, key)` of a key that is not empty.
unfoldable pub strstr : List ℕ → List ℕ → Option (List ℕ)
strstr [] key = none
strstr (c ∷ s) key = let rest = strstr s key in if starts key (c ∷ s) then some (c ∷ s) else rest

unfoldable pub strchr : List ℕ → ℕ → Option (List ℕ)
strchr [] k = none
strchr (c ∷ s) k = let rest = strchr s k in if c == k then some (c ∷ s) else rest
