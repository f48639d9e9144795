-- ===== src/Node/Ends.antt =====
-- Total correctness of a callback: it meets no fault, and what holds of its result and state where
-- it returns, of the state where it leaves, and of the state where it waits for more messages.
use qemu_pdes.Base.{Bool, true, false, ◌≡◌, refl, if◌then◌else◌}
use qemu_pdes.Node.{Node}
use qemu_pdes.Node.Monad.{Outcome, ret, fault, exited, spinning, M, after, when}

abbrev pub Ends :
    {A : Type 0} → (A → Node → Type 0) → (Node → Type 0) → (Node → Type 0) → Outcome A → Type 0
Ends R E W (ret a n) = R a n
Ends R E W (fault e) = ⊥
Ends R E W (exited n) = E n
Ends R E W (spinning n) = W n

module _ {A B : Type 0} (R : A → Node → Type 0) (S : B → Node → Type 0) (E W : Node → Type 0) where
  pub after-Ends :
      (o : Outcome A) (f : A → M B)
      → Ends R E W o
      → ((a : A) (n : Node) → R a n → Ends S E W (f a n))
      → Ends S E W (after o f)
  after-Ends (ret a n) f h k = k a n h
  after-Ends (fault e) f h k = absurd h
  after-Ends (exited n) f h k = h
  after-Ends (spinning n) f h k = h

module _ {A : Type 0} (R S : A → Node → Type 0) (D E V W : Node → Type 0) where
  pub Ends-map :
      (o : Outcome A)
      → ((a : A) (n : Node) → R a n → S a n)
      → ((n : Node) → D n → E n)
      → ((n : Node) → V n → W n)
      → Ends R D V o
      → Ends S E W o
  Ends-map (ret a n) f g h e = f a n e
  Ends-map (fault x) f g h e = e
  Ends-map (exited n) f g h e = g n e
  Ends-map (spinning n) f g h e = h n e

module _ {A : Type 0} (R : A → Node → Type 0) (E W : Node → Type 0) where
  pub if-Ends :
      (b : Bool) (m k : M A) (n : Node)
      → (b ≡ true → Ends R E W (m n))
      → (b ≡ false → Ends R E W (k n))
      → Ends R E W ((if b then m else k) n)
  if-Ends true m k n h g = h refl
  if-Ends false m k n h g = g refl

-- The callback returns, whatever its result, and one property is kept.
abbrev pub Holds : {A : Type 0} → (Node → Type 0) → Outcome A → Type 0
Holds P o = Ends (λ _. P) (λ _. ⊥) (λ _. ⊥) o

module _ {A : Type 0} (P E W : Node → Type 0) where
  pub Holds-weaken : (o : Outcome A) → Holds P o → Ends (λ _. P) E W o
  Holds-weaken o =
      Ends-map (λ _. P) (λ _. P) (λ _. ⊥) E (λ _. ⊥) W o (λ _ _ p. p) (λ _ x. absurd x)
        (λ _ x. absurd x)

module _ (P : Node → Type 0) where
  pub after-Holds :
      {A B : Type 0} (o : Outcome A) (f : A → M B)
      → Holds P o
      → ((a : A) (n : Node) → P n → Holds P (f a n))
      → Holds P (after o f)
  after-Holds = after-Ends (λ _. P) (λ _. P) (λ _. ⊥) (λ _. ⊥)

  pub when-Holds :
      (b : Bool) (m : M (Unit {0})) (n : Node)
      → P n
      → (b ≡ true → Holds P (m n))
      → Holds P (when b m n)
  when-Holds true m n p h = h refl
  when-Holds false m n p h = p

  pub true-Holds :
      {A : Type 0} (b : Bool) (o o' : Outcome A)
      → b ≡ true
      → Holds P o
      → Holds P (if b then o else o')
  true-Holds true o o' e h = h
  true-Holds false o o' e h = cc
