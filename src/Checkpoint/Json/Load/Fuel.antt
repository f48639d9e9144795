-- ===== src/Checkpoint/Json/Load/Fuel.antt =====
-- The loop of `pdes_inflight_load_json` ends: each turn leaves a pointer into a shorter text.
use qemu_pdes.Base.{
  ℕ, zero, suc, ◌+◌, ◌-◌, ◌≤◌, ◌≡◌, ◌≢◌, true, Option, none, some, List, [], ◌∷◌, arith, length,
  drop, leb, ◌==◌, Bool-cases, inl, inr,
}
use qemu_pdes.Base.Bytes.{c_str}
use qemu_pdes.Comm.Message.{Message}
use qemu_pdes.Text.Decimal.{scan_unsigned}
use qemu_pdes.Text.Search.{strstr, strchr, starts}
use qemu_pdes.Checkpoint.Json.{
  Result, ok, failed, unfinished, ◌>>=◌, found, stored, time_key, ts_key, type_key, len_key,
  data_key,
}
use qemu_pdes.Checkpoint.Json.Load.{
  load_bytes, load_entry, next_entry, load_loop, load_content, load_file, pdes_inflight_load_json,
  after_comma, past_one,
}

-- A result that is not `unfinished`, and what holds of a value.
abbrev Finishes : {A : Type 0} → (A → Type 0) → Result A → Type 0
Finishes P (ok a) = P a
Finishes P (failed e) = Unit
Finishes P unfinished = ⊥

then-Finishes :
    {A B : Type 0} (P : A → Type 0) (Q : B → Type 0) (m : Result A) (f : A → Result B)
    → Finishes P m
    → ((a : A) → P a → Finishes Q (f a))
    → Finishes Q (m >>= f)
then-Finishes P Q (ok a) f h k = k a h
then-Finishes P Q (failed e) f h k = tt
then-Finishes P Q unfinished f h k = h

abbrev Anything : {A : Type 0} → A → Type 0
Anything a = Unit

stored-Finishes : {A : Type 0} (o : Option A) → Finishes Anything (stored o)
stored-Finishes none = tt
stored-Finishes (some a) = tt

-- A pointer to at most `n` bytes, or NULL.
abbrev Within : ℕ → Option (List ℕ) → Type 0
Within n none = Unit
Within n (some s) = length s ≤ n

found-Within : (n : ℕ) (o : Option (List ℕ)) → Within n o → Finishes (λ s. length s ≤ n) (found o)
found-Within n none h = tt
found-Within n (some s) h = h

Within-mono : (m n : ℕ) (o : Option (List ℕ)) → m ≤ n → Within m o → Within n o
Within-mono m n none h w = tt
Within-mono m n (some s) h w = omega arith

drop-Within : (k : ℕ) (s : List ℕ) → length (drop k s) ≤ length s - k
drop-Within zero s = omega arith
drop-Within (suc k) [] = omega arith
drop-Within (suc k) (c ∷ s) = omega (arith, drop-Within k s)

strchr-Within : (s : List ℕ) (c : ℕ) → Within (length s) (strchr s c)
unfolding strchr
strchr-Within [] c = tt
strchr-Within (d ∷ s) c = elim (Bool-cases (d == c)) [
  | inl z ↦ rw z (omega arith)
  | inr z ↦
      rw z (Within-mono (length s) (suc (length s)) (strchr s c) (omega arith) (strchr-Within s c))
]

after_comma-Within : (s : List ℕ) → Within (length s) (after_comma s)
unfolding after_comma
after_comma-Within s =
    elim (strchr s b',') as (λ o. Within (length s) o → Within (length s) (past_one o)) [
      | none ↦ λ h. tt
      | some q ↦ λ h. omega (arith, drop-Within 1 q)
    ]
      (strchr-Within s b',')

-- A match is not behind the end.
starts-length : (ks s : List ℕ) → starts ks s ≡ true → length ks ≤ length s
starts-length [] s h = omega arith
starts-length (k ∷ ks) [] h = cc
starts-length (k ∷ ks) (c ∷ s) h = ground (arith, starts-length ks s)

abbrev Found : ℕ → ℕ → Option (List ℕ) → Type 0
Found k n none = Unit
Found k n (some s) = (k ≤ length s) × (length s ≤ n)

Found-mono : (k m n : ℕ) (o : Option (List ℕ)) → m ≤ n → Found k m o → Found k n o
Found-mono k m n none h w = tt
Found-mono k m n (some s) h w = (w.0, omega (arith, w.1))

strstr-Found : (s ks : List ℕ) → Found (length ks) (length s) (strstr s ks)
unfolding strstr
strstr-Found [] ks = tt
strstr-Found (c ∷ s) ks = elim (Bool-cases (starts ks (c ∷ s))) [
  | inl z ↦ rw z (starts-length ks (c ∷ s) z, omega arith)
  | inr z ↦ rw z (
      Found-mono (length ks) (length s) (suc (length s)) (strstr s ks) (omega arith)
        (strstr-Found s ks))
]

found-Found :
    (k n : ℕ) (o : Option (List ℕ))
    → Found k n o
    → Finishes (λ s. (k ≤ length s) × (length s ≤ n)) (found o)
found-Found k n none h = tt
found-Found k n (some s) h = h

abbrev Rest : {A : Type 0} → ℕ → A × Option (List ℕ) → Type 0
Rest n x = Within n x.1

load_bytes-Finishes :
    (k j n : ℕ) (ptr : Option (List ℕ)) → Within n ptr → Finishes (Rest n) (load_bytes k j ptr)
unfolding load_bytes
load_bytes-Finishes zero j n ptr h = h
load_bytes-Finishes (suc k) j n ptr h =
    then-Finishes _ (Rest n) (found ptr) _ (found-Within n ptr h) (λ p w.
      then-Finishes Anything (Rest n) (stored (scan_unsigned 32 p)) _
        (stored-Finishes (scan_unsigned 32 p))
        (λ byte u. elim (Bool-cases (leb 2048 j)) [
          | inl z ↦ rw z tt
          | inr z ↦ rw z (
              then-Finishes (Rest n) (Rest n) (load_bytes k (j + 1) (after_comma p)) _
                (load_bytes-Finishes k (j + 1) n (after_comma p)
                  (Within-mono (length p) n (after_comma p) w (after_comma-Within p)))
                (λ x r. r))
        ]))

-- A search for a key, and what is done from the match on.
key-Finishes :
    {B : Type 0} (Q : B → Type 0) (n : ℕ) (p key : List ℕ) (f : List ℕ → Result B)
    → length p ≤ n
    → ((q : List ℕ) → (length key ≤ length q) × (length q ≤ n) → Finishes Q (f q))
    → Finishes Q (found (strstr p key) >>= f)
key-Finishes Q n p key f h k =
    then-Finishes _ Q (found (strstr p key)) f
      (found-Found (length key) n (strstr p key)
        (Found-mono (length key) (length p) n (strstr p key) h (strstr-Found p key)))
      k

scan-Finishes :
    {A B : Type 0} (Q : B → Type 0) (o : Option A) (f : A → Result B)
    → ((a : A) → Finishes Q (f a))
    → Finishes Q (stored o >>= f)
scan-Finishes Q o f k = then-Finishes Anything Q (stored o) f (stored-Finishes o) (λ a u. k a)

load_entry-Finishes : (n : ℕ) (p : List ℕ) → length p ≤ suc n → Finishes (Rest n) (load_entry p)
unfolding load_entry
load_entry-Finishes n p h = scan-Finishes (Rest n) _ _ (λ time.
    key-Finishes (Rest n) (suc n) p ts_key _ h (λ p1 h1. scan-Finishes (Rest n) _ _ (λ ts.
      key-Finishes (Rest n) (suc n) p1 type_key _ h1.1 (λ p2 h2. scan-Finishes (Rest n) _ _ (λ type.
        key-Finishes (Rest n) (suc n) p2 len_key _ h2.1 (λ p3 h3. scan-Finishes (Rest n) _ _ (λ len.
          key-Finishes (Rest n) (suc n) p3 data_key _ h3.1 (λ p4 h4.
            then-Finishes (Rest n) (Rest n) (load_bytes len 0 (some (drop 9 p4))) _
              (load_bytes-Finishes len 0 n (some (drop 9 p4)) (omega (arith, drop-Within 9 p4, h4)))
              (λ x r. r)))))))))

-- One turn, when the loop ends from every shorter text on.
next-Finishes :
    (n : ℕ) (loop : Option (List ℕ) → Result (List (Message × ℕ))) (o : Option (List ℕ))
    → ((r : Option (List ℕ)) → Within n r → Finishes Anything (loop r))
    → Found 20 (suc n) o
    → Finishes Anything (next_entry loop o)
next-Finishes n loop none k f = tt
next-Finishes n loop (some p) k f =
    then-Finishes (Rest n) Anything (load_entry p) _ (load_entry-Finishes n p f.1)
      (λ x r. then-Finishes Anything Anything (loop x.1) _ (k x.1 r) (λ es u. tt))

load_loop-Finishes :
    (n : ℕ) (ptr : Option (List ℕ)) → Within n ptr → Finishes Anything (load_loop (suc n) ptr)
unfolding load_loop
load_loop-Finishes n none h = tt
load_loop-Finishes zero (some []) h = unfold strstr in tt
load_loop-Finishes zero (some (c ∷ q)) h = absurd (omega arith)
load_loop-Finishes (suc n) (some q) h =
    next-Finishes n (load_loop (suc n)) (strstr q time_key) (load_loop-Finishes n)
      (Found-mono 20 (length q) (suc n) (strstr q time_key) h (strstr-Found q time_key))

Finishes→≢ : {A : Type 0} (P : A → Type 0) (r : Result A) → Finishes P r → r ≢ unfinished
Finishes→≢ P (ok a) h = cc
Finishes→≢ P (failed e) h = cc
Finishes→≢ P unfinished h = absurd h

load_file-Finishes : (file : Option (List ℕ)) → Finishes Anything (load_file file)
unfolding load_content
load_file-Finishes none = tt
load_file-Finishes (some bytes) =
    then-Finishes Anything Anything (load_content bytes) _
      (load_loop-Finishes (length (c_str bytes)) (some (c_str bytes)) (omega arith)) (λ es u. tt)

-- Whatever the file holds, the loop of `pdes_inflight_load_json` ends: the fuel is never used up.
pub load_json-ends :
    (files : List ℕ → Option (List ℕ)) (filename : List ℕ)
    → pdes_inflight_load_json files filename ≢ unfinished
unfolding pdes_inflight_load_json
load_json-ends files filename =
    Finishes→≢ Anything (load_file (files filename)) (load_file-Finishes (files filename))
