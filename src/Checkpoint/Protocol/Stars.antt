-- ===== src/Checkpoint/Protocol/Stars.antt =====
-- Sequences of exchanges and of moves.
use qemu_pdes.Base.{◌≡◌, true, ap, ◌∙◌}
use qemu_pdes.Node.Monad.{M}
use qemu_pdes.Node.Always.{Keeps, Always-map}
use qemu_pdes.Checkpoint.Protocol.{
  View, view, Exchange, announce, stay_silent, request, order, ignore, Move, exchange, Star,
  none_yet, more, From,
}

-- What each step keeps, any number of steps keeps.
pub Star-Keeps :
    {R : View → View → Type 0} {v t : View} (Q : View → Type 0)
    → ((s u : View) → R s u → Q s → Q u)
    → Star R v t
    → Q v
    → Q t
Star-Keeps Q k none_yet q = q
Star-Keeps Q k (more s r) q = k _ _ r (Star-Keeps Q k s q)

pub Star-append : {R : View → View → Type 0} {v t u : View} → Star R v t → Star R t u → Star R v u
Star-append s none_yet = s
Star-append s (more s' r) = more (Star-append s s') r

-- An action that only exchanges.
abbrev pub Exchanges : {A : Type 0} → M A → Type 0
Exchanges m = (v : View) → Keeps (From Exchange v) m

module _ {A : Type 0} (Q : View → Type 0) (closed : (s u : View) → Exchange s u → Q s → Q u) where
  pub Exchanges-Keeps : (m : M A) → Exchanges m → Keeps (λ k. Q (view k)) m
  Exchanges-Keeps m h n q =
      Always-map (From Exchange (view n)) (λ k. Q (view k)) (m n) (h (view n) n none_yet)
        (λ k s. Star-Keeps Q closed s q)

-- It moves.
pub Exchanges-Move : {A : Type 0} (m : M A) → Exchanges m → (v : View) → Keeps (From Move v) m
Exchanges-Move m h v = Exchanges-Keeps (Star Move v) (λ _ _ e s. more s (exchange e)) m h

-- An exchange does not touch the barrier.
pub finished_on : (v t : View) → Exchange v t → v.finished ≡ true → t.finished ≡ true
finished_on v t (announce m needs r a e) h = ap (λ (w : View). w.finished) e ∙ h
finished_on v t (stay_silent needs r e) h = ap (λ (w : View). w.finished) e ∙ h
finished_on v t (request m e) h = ap (λ (w : View). w.finished) e ∙ h
finished_on v t (order m f e) h = ap (λ (w : View). w.finished) e ∙ h
finished_on v t (ignore m e) h = ap (λ (w : View). w.finished) e ∙ h

-- It does not take a request back.
pub needs_on : (v t : View) → Exchange v t → v.needs ≡ true → t.needs ≡ true
needs_on v t (announce m needs r a e) h = ap (λ (w : View). w.needs) e ∙ h
needs_on v t (stay_silent needs r e) h = ap (λ (w : View). w.needs) e ∙ h
needs_on v t (request m e) h = ap (λ (w : View). w.needs) e
needs_on v t (order m f e) h = ap (λ (w : View). w.needs) e
needs_on v t (ignore m e) h = ap (λ (w : View). w.needs) e ∙ h

pub round_on : (v t : View) → Exchange v t → t.round ≡ v.round
round_on v t (announce m n r a e) = ap (λ (w : View). w.round) e
round_on v t (stay_silent n l e) = ap (λ (w : View). w.round) e
round_on v t (request m e) = ap (λ (w : View). w.round) e
round_on v t (order m f e) = ap (λ (w : View). w.round) e
round_on v t (ignore m e) = ap (λ (w : View). w.round) e
