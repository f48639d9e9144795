-- ===== src/Checkpoint/Json/Load/Entry.antt =====
-- One entry is read back as it was written, up to the pointer behind its last byte.
use mathlib.Core.List.{append_assoc, append-nil}
use qemu_pdes.Base.{
  ℕ, suc, ◌+◌, ◌-◌, ◌%◌, ◌<◌, ◌≤◌, ◌≡◌, ◌≢◌, refl, ap, ◌∙◌, Bool, true, false, Option, some, List,
  [], ◌∷◌, ◌++◌, arith, codes, length, All, All-map, leb, ltb,
}
use qemu_pdes.Text.Decimal.{print_unsigned, scan_unsigned, starts_digit}
use qemu_pdes.Text.Decimal.RoundTrip.{
  scan_unsigned-print, scan_unsigned_blank, IsPlain, print_unsigned-IsPlain,
}
use qemu_pdes.Text.Search.{strstr, strchr}
use qemu_pdes.Text.Search.Laws.{strstr_skip, strchr_skip}
use qemu_pdes.Checkpoint.Json.{ok, time_key, ts_key, type_key, len_key, data_key}
use qemu_pdes.Checkpoint.Json.Load.{load_bytes, after_comma, past_one}
use qemu_pdes.Checkpoint.Json.Save.{save_bytes}

-- What follows a key, up to the next.
abbrev pub field : List ℕ → List ℕ → List ℕ
field number next = codes " " ++ (number ++ (codes ",\n" ++ (codes "      " ++ next)))

module _ (number rest : List ℕ) (plain : All (λ c. c ≢ b'"') number) where
  pub ts_found : strstr (time_key ++ field number (ts_key ++ rest)) ts_key ≡ some (ts_key ++ rest)
  unfolding strstr
  ts_found = strstr_skip _ _ number _ plain

  pub type_found :
      strstr (ts_key ++ field number (type_key ++ rest)) type_key ≡ some (type_key ++ rest)
  unfolding strstr
  type_found = strstr_skip _ _ number _ plain

  pub len_found :
      strstr (type_key ++ field number (len_key ++ rest)) len_key ≡ some (len_key ++ rest)
  unfolding strstr
  len_found = strstr_skip _ _ number _ plain

  pub data_found :
      strstr (len_key ++ field number (data_key ++ rest)) data_key ≡ some (data_key ++ rest)
  unfolding strstr
  data_found = strstr_skip _ _ number _ plain

pub no_quote : (s : List ℕ) → All IsPlain s → All (λ c. c ≢ b'"') s
no_quote s = All-map IsPlain (λ c. c ≢ b'"') s (λ c h. h.0)

no_comma : (s : List ℕ) → All IsPlain s → All (λ c. c ≢ b',') s
no_comma s = All-map IsPlain (λ c. c ≢ b',') s (λ c h. h.1)

-- The blank behind a comma.
abbrev gap : Bool → List ℕ
gap true = codes " "
gap false = []

scan_byte :
    (g : Bool) (b : ℕ) (rest : List ℕ)
    → b < 256
    → starts_digit rest ≡ false
    → scan_unsigned 32 (gap g ++ (print_unsigned b ++ rest)) ≡ some b
scan_byte true b rest h e =
    scan_unsigned_blank 32 (print_unsigned b ++ rest)
    ∙ scan_unsigned-print 32 b rest (omega arith) (omega arith) e
scan_byte false b rest h e = scan_unsigned-print 32 b rest (omega arith) (omega arith) e

next_comma :
    (g : Bool) (b : ℕ) (rest : List ℕ)
    → after_comma (gap g ++ (print_unsigned b ++ rest)) ≡ after_comma rest
unfolding after_comma
next_comma true b rest = ap past_one (
    strchr_skip b',' (b' ' ∷ print_unsigned b) rest
      (omega arith, no_comma _ (print_unsigned-IsPlain b)))
next_comma false b rest =
    ap past_one (strchr_skip b',' (print_unsigned b) rest (no_comma _ (print_unsigned-IsPlain b)))

load_byte :
    (k j b : ℕ) (p : List ℕ)
    → scan_unsigned 32 p ≡ some b
    → b < 256
    → j < 2048
    → (bytes : List ℕ) (rest : Option (List ℕ))
    → load_bytes k (j + 1) (after_comma p) ≡ ok (bytes, rest)
    → load_bytes (suc k) j (some p) ≡ ok (b ∷ bytes, rest)
unfolding load_bytes
load_byte k j b p s h i bytes rest l =
    let inside : leb 2048 j ≡ false = ground arith in
    let whole : b % 256 ≡ b = omega arith in simp (s, inside, l, whole) refl

no_bytes : (j : ℕ) (p : Option (List ℕ)) → load_bytes 0 j p ≡ ok ([], p)
unfolding load_bytes
no_bytes j p = refl

comma_first : (s : List ℕ) → after_comma (codes ", " ++ s) ≡ some (codes " " ++ s)
unfolding after_comma strchr
comma_first s = refl

save_bytes_last : (j len b : ℕ) → j + 1 ≡ len → save_bytes j len (b ∷ []) ≡ print_unsigned b
unfolding save_bytes
save_bytes_last j len b e =
    let last : ltb j (len - 1) ≡ false = ground arith in rw last (append-nil (print_unsigned b))

save_bytes_more :
    (j len b : ℕ) (bs : List ℕ)
    → j + 1 < len
    → save_bytes j len (b ∷ bs) ≡ print_unsigned b ++ (codes ", " ++ save_bytes (j + 1) len bs)
unfolding save_bytes
save_bytes_more j len b bs h = let more : ltb j (len - 1) ≡ true = ground arith in rw more refl

-- The bytes of `data`, and the pointer behind the next comma after them.
pub load_bytes-save_bytes :
    (b : ℕ) (bs : List ℕ) (j len : ℕ) (g : Bool) (tail : List ℕ)
    → j + suc (length bs) ≡ len
    → len ≤ 2048
    → All (λ c. c < 256) (b ∷ bs)
    → starts_digit tail ≡ false
    → load_bytes (suc (length bs)) j (some (gap g ++ (save_bytes j len (b ∷ bs) ++ tail)))
      ≡ ok (b ∷ bs, after_comma tail)
load_bytes-save_bytes b [] j len g tail e h a d = rw (save_bytes_last j len b e) (
    load_byte 0 j b (gap g ++ (print_unsigned b ++ tail)) (scan_byte g b tail a.0 d) a.0
      (omega arith) [] _
      (no_bytes (j + 1) _ ∙ ap (λ (r : Option (List ℕ)). ok ([], r)) (next_comma g b tail)))
load_bytes-save_bytes b (c ∷ bs) j len g tail e h a d =
    let s = save_bytes (j + 1) len (c ∷ bs) in
    let ih = load_bytes-save_bytes c bs (j + 1) len true tail (omega arith) h a.1 d in
    let p = gap g ++ (print_unsigned b ++ (codes ", " ++ (s ++ tail))) in
    rw
      (
        save_bytes_more j len b (c ∷ bs) (omega arith),
        append_assoc (print_unsigned b) (codes ", " ++ s) tail,
      )
      (load_byte (suc (length bs)) j b p (scan_byte g b (codes ", " ++ (s ++ tail)) a.0 refl) a.0
        (omega arith) (c ∷ bs) _
        (rw (next_comma g b (codes ", " ++ (s ++ tail)), comma_first (s ++ tail)) ih))
