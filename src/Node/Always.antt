-- ===== src/Node/Always.antt =====
-- Invariants of a callback: what holds of the state however the callback ends, except at a fault.
use qemu_pdes.Base.{
  ℕ, ◌+◌, Bool, true, false, List, [], ◌∷◌, ◌++◌, ◌≡◌, refl, if◌then◌else◌, ◌==◌, arith, Option,
  none, some,
}
use qemu_pdes.Comm.Message.{Message}
use qemu_pdes.Node.{Node}
use qemu_pdes.Node.Monad.{Outcome, ret, fault, exited, spinning, M, after, lift, ◌>>=◌, when}

abbrev pub Always : {A : Type 0} → (Node → Type 0) → Outcome A → Type 0
Always P (ret a n) = P n
Always P (fault e) = Unit
Always P (exited n) = P n
Always P (spinning n) = P n

module _ {A : Type 0} (P : Node → Type 0) where
  pub after-Always :
      {B : Type 0} (o : Outcome A) (f : A → M B)
      → Always P o
      → ((a : A) (n : Node) → P n → Always P (f a n))
      → Always P (after o f)
  after-Always (ret a n) f h k = k a n h
  after-Always (fault e) f h k = tt
  after-Always (exited n) f h k = h
  after-Always (spinning n) f h k = h

  pub Always-map :
      (Q : Node → Type 0) (o : Outcome A) → Always P o → ((n : Node) → P n → Q n) → Always Q o
  Always-map Q (ret a n) h k = k n h
  Always-map Q (fault e) h k = tt
  Always-map Q (exited n) h k = k n h
  Always-map Q (spinning n) h k = k n h

-- The same with a property of its own before the next action.
module _ {A B : Type 0} (Q P : Node → Type 0) where
  pub then-Always :
      (o : Outcome A) (f : A → M B)
      → Always Q o
      → ((n : Node) → Q n → P n)
      → ((a : A) (n : Node) → Q n → Always P (f a n))
      → Always P (after o f)
  then-Always (ret a n) f h w k = k a n h
  then-Always (fault e) f h w k = tt
  then-Always (exited n) f h w k = w n h
  then-Always (spinning n) f h w k = w n h

-- An action that keeps a property.
abbrev pub Keeps : {A : Type 0} → (Node → Type 0) → M A → Type 0
Keeps P m = (n : Node) → P n → Always P (m n)

module _ (P : Node → Type 0) where
  pub when-Keeps : (b : Bool) (m : M (Unit {0})) → Keeps P m → Keeps P (when b m)
  when-Keeps true m k n h = k n h
  when-Keeps false m k n h = h

  pub if-Keeps :
      {A : Type 0} (b : Bool) (m k : M A) → Keeps P m → Keeps P k → Keeps P (if b then m else k)
  if-Keeps true m k hm hk n h = hm n h
  if-Keeps false m k hm hk n h = hk n h

  pub bind-Keeps :
      {A B : Type 0} (m : M A) (f : A → M B)
      → Keeps P m
      → ((a : A) → Keeps P (f a))
      → Keeps P (m >>= f)
  bind-Keeps m f hm hf n h = after-Always P (m n) f (hm n h) (λ a k q. hf a k q)

-- The same with the result of a callback that returns.
abbrev pub Gives : {A : Type 0} → (A → Node → Type 0) → (Node → Type 0) → Outcome A → Type 0
Gives R P (ret a n) = R a n
Gives R P (fault e) = Unit
Gives R P (exited n) = P n
Gives R P (spinning n) = P n

module _ {A : Type 0} (R : A → Node → Type 0) (P : Node → Type 0) where
  pub after-Gives :
      {B : Type 0} (S : B → Node → Type 0) (o : Outcome A) (f : A → M B)
      → Gives R P o
      → ((a : A) (n : Node) → R a n → Gives S P (f a n))
      → Gives S P (after o f)
  after-Gives S (ret a n) f h k = k a n h
  after-Gives S (fault e) f h k = tt
  after-Gives S (exited n) f h k = h
  after-Gives S (spinning n) f h k = h

  pub if-Gives :
      (b : Bool) (m k : M A) (n : Node)
      → (b ≡ true → Gives R P (m n))
      → (b ≡ false → Gives R P (k n))
      → Gives R P ((if b then m else k) n)
  if-Gives true m k n h g = h refl
  if-Gives false m k n h g = g refl

module _ {A : Type 0} (P : Node → Type 0) where
  pub Always-Gives : (o : Outcome A) → Always P o → Gives (λ _. P) P o
  Always-Gives (ret a n) h = h
  Always-Gives (fault e) h = h
  Always-Gives (exited n) h = h
  Always-Gives (spinning n) h = h

  pub Gives-Always :
      (R : A → Node → Type 0) (o : Outcome A)
      → ((a : A) (n : Node) → R a n → P n)
      → Gives R P o
      → Always P o
  Gives-Always R (ret a n) k h = k a n h
  Gives-Always R (fault e) k h = h
  Gives-Always R (exited n) k h = h
  Gives-Always R (spinning n) k h = h

  pub Gives-map :
      (R S : A → Node → Type 0) (Q : Node → Type 0) (o : Outcome A)
      → ((a : A) (n : Node) → R a n → S a n)
      → ((n : Node) → Q n → P n)
      → Gives R Q o
      → Gives S P o
  Gives-map R S Q (ret a n) f g h = f a n h
  Gives-map R S Q (fault e) f g h = h
  Gives-map R S Q (exited n) f g h = g n h
  Gives-map R S Q (spinning n) f g h = g n h

-- A branch, with the result of its test.
module _ {A : Type 0} (P : Node → Type 0) where
  pub if-Always :
      (b : Bool) (m k : M A) (n : Node)
      → (b ≡ true → Always P (m n))
      → (b ≡ false → Always P (k n))
      → Always P ((if b then m else k) n)
  if-Always true m k n h g = h refl
  if-Always false m k n h g = g refl

-- What was read of an optional value.
module _ {A B : Type 0} (P : Node → Type 0) where
  pub lift-Always :
      (a : Option A) (f : A → M B) (n : Node)
      → ((x : A) → a ≡ some x → Always P (f x n))
      → Always P ((lift a >>= f) n)
  lift-Always none f n h = tt
  lift-Always (some x) f n h = h x refl

-- How many messages of a kind a history holds.
unfoldable pub count_kind : ℕ → List Message → ℕ
count_kind k [] = 0
count_kind k (m ∷ ms) = (if m.kind == k then 1 else 0) + count_kind k ms

pub count_kind-append :
    (k : ℕ) (xs ys : List Message) → count_kind k (xs ++ ys) ≡ count_kind k xs + count_kind k ys
unfolding count_kind
count_kind-append k [] ys = omega arith
count_kind-append k (m ∷ xs) ys = omega (arith, count_kind-append k xs ys)

pub count_kind-snoc :
    (k : ℕ) (xs : List Message) (m : Message)
    → count_kind k (xs ++ (m ∷ [])) ≡ count_kind k xs + (if m.kind == k then 1 else 0)
unfolding count_kind
count_kind-snoc k xs m = omega (arith, count_kind-append k xs (m ∷ []))
