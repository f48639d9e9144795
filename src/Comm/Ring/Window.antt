-- ===== src/Comm/Ring/Window.antt =====
-- What a ring holds, oldest message first, and how writes and the indices change it.
use qemu_pdes.Base.{
  ℕ, zero, suc, ◌+◌, ◌-◌, ◌%◌, ◌<◌, ◌≡◌, ◌≢◌, refl, ap, ◌∙◌, List, [], ◌∷◌, ◌++◌, arith, length,
}
use qemu_pdes.Comm.Ring.{ShmRing, ring_size, next_idx, update}

module _ {ℓ} {A : Type ℓ} where
  -- The `n` messages from index `h` on, going round at RING_SIZE.
  abbrev pub window : (ℕ → A) → ℕ → ℕ → List A
  window f h zero = []
  window f h (suc n) = f h ∷ window f (next_idx h) n

  -- How many messages wait.
  abbrev pub used : ShmRing A → ℕ
  used r = (r.write_idx + (ring_size - r.read_idx)) % ring_size

  abbrev pub contents : ShmRing A → List A
  contents r = window r.messages r.read_idx (used r)

  -- The indices are inside the array.
  pub record IsValid (r : ShmRing A) : Type 0 where
    pub write_in : r.write_idx < ring_size
    pub read_in : r.read_idx < ring_size

  pub length-window : (f : ℕ → A) (h n : ℕ) → length (window f h n) ≡ n
  length-window f h zero = refl
  length-window f h (suc n) = ap suc (length-window f (next_idx h) n)

  -- A write outside a window leaves it alone.
  pub window-update :
      (f : ℕ → A) (i : ℕ) (v : A) (h n : ℕ)
      → h < ring_size
      → n < ring_size
      → i ≡ (h + n) % ring_size
      → window (update f i v) h n ≡ window f h n
  window-update f i v h zero hh hn e = refl
  window-update f i v h (suc n) hh hn e =
      let apart : i ≢ h = omega arith in ground (arith, apart, window-update f i v (next_idx h) n)

  -- A window of one more message ends with the message just past it.
  pub window-suc :
      (f : ℕ → A) (h n : ℕ)
      → h < ring_size
      → window f h (suc n) ≡ window f h n ++ (f ((h + n) % ring_size) ∷ [])
  window-suc f h zero hh = ap (λ (k : ℕ). f k ∷ []) (omega arith)
  window-suc f h (suc n) hh =
      let same : (next_idx h + n) % ring_size ≡ (h + suc n) % ring_size = omega arith in
      ap (λ (t : List A). f h ∷ t)
        (window-suc f (next_idx h) n (omega arith)
          ∙ ap (λ (k : ℕ). window f (next_idx h) n ++ (f k ∷ [])) same)

  -- A window that is not empty begins with the message at its index.
  pub window-pos :
      (f : ℕ → A) (h n : ℕ) → n ≢ 0 → window f h n ≡ f h ∷ window f (next_idx h) (n - 1)
  window-pos f h zero p = absurd (p refl)
  window-pos f h (suc n) p = ap (λ (k : ℕ). f h ∷ window f (next_idx h) k) (omega arith)
