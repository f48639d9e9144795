-- ===== src/Checkpoint/Protocol/History.antt =====
-- What the moves of `Checkpoint.Protocol` do to the announcements.
use mathlib.Core.Path.{subst}
use qemu_pdes.Base.{ℕ, ◌≡◌, refl, ap, ◌∙◌}
use qemu_pdes.Checkpoint.Protocol.{
  View, Exchange, announce, stay_silent, request, order, ignore, Move, exchange, finish, wait,
  stop_waiting, stop, pass, leave, Star,
}
use qemu_pdes.Checkpoint.Protocol.Stars.{Star-Keeps}
use qemu_pdes.Checkpoint.Protocol.Facts.{Says, Says-init}

-- A step changes what was told at its end only, and what is coming not at all.
module _ (r : ℕ) where
  told-exchange : (v t : View) → Exchange v t → Says r t.told → Says r v.told
  told-exchange v t (announce m n e a f) h =
      Says-init r v.told m (subst (λ (w : View). Says r w.told) f h)
  told-exchange v t (stay_silent n l f) h = subst (λ (w : View). Says r w.told) f h
  told-exchange v t (request m f) h = subst (λ (w : View). Says r w.told) f h
  told-exchange v t (order m e f) h = subst (λ (w : View). Says r w.told) f h
  told-exchange v t (ignore m f) h = subst (λ (w : View). Says r w.told) f h

  told-move : (v t : View) → Move v t → Says r t.told → Says r v.told
  told-move v t (exchange x) h = told-exchange v t x h
  told-move v t (finish f) h = subst (λ (w : View). Says r w.told) f h
  told-move v t (wait w f) h = subst (λ (w : View). Says r w.told) f h
  told-move v t (stop_waiting f) h = subst (λ (w : View). Says r w.told) f h
  told-move v t (stop w n e f) h = subst (λ (w : View). Says r w.told) f h
  told-move v t (pass w e f) h = subst (λ (w : View). Says r w.told) f h
  told-move v t (leave n f) h = subst (λ (w : View). Says r w.told) f h

  pub told-moves : (v t : View) → Star Move v t → Says r t.told → Says r v.told
  told-moves v t s =
      Star-Keeps (λ (w : View). Says r w.told → Says r v.told) (λ s u x k h. k (told-move s u x h))
        s (λ h. h)

coming-exchange : (v t : View) → Exchange v t → t.coming ≡ v.coming
coming-exchange v t (announce m n e a f) = ap (λ (w : View). w.coming) f
coming-exchange v t (stay_silent n l f) = ap (λ (w : View). w.coming) f
coming-exchange v t (request m f) = ap (λ (w : View). w.coming) f
coming-exchange v t (order m e f) = ap (λ (w : View). w.coming) f
coming-exchange v t (ignore m f) = ap (λ (w : View). w.coming) f

coming-move : (v t : View) → Move v t → t.coming ≡ v.coming
coming-move v t (exchange x) = coming-exchange v t x
coming-move v t (finish f) = ap (λ (w : View). w.coming) f
coming-move v t (wait w f) = ap (λ (w : View). w.coming) f
coming-move v t (stop_waiting f) = ap (λ (w : View). w.coming) f
coming-move v t (stop w n e f) = ap (λ (w : View). w.coming) f
coming-move v t (pass w e f) = ap (λ (w : View). w.coming) f
coming-move v t (leave n f) = ap (λ (w : View). w.coming) f

pub coming-moves : (v t : View) → Star Move v t → t.coming ≡ v.coming
coming-moves v t s =
    Star-Keeps (λ (w : View). w.coming ≡ v.coming) (λ s u x k. coming-move s u x ∙ k) s refl

saved-exchange : (v t : View) → Exchange v t → t.saved ≡ v.saved
saved-exchange v t (announce m n e a f) = ap (λ (w : View). w.saved) f
saved-exchange v t (stay_silent n l f) = ap (λ (w : View). w.saved) f
saved-exchange v t (request m f) = ap (λ (w : View). w.saved) f
saved-exchange v t (order m e f) = ap (λ (w : View). w.saved) f
saved-exchange v t (ignore m f) = ap (λ (w : View). w.saved) f

saved-move : (v t : View) → Move v t → t.saved ≡ v.saved
saved-move v t (exchange x) = saved-exchange v t x
saved-move v t (finish f) = ap (λ (w : View). w.saved) f
saved-move v t (wait w f) = ap (λ (w : View). w.saved) f
saved-move v t (stop_waiting f) = ap (λ (w : View). w.saved) f
saved-move v t (stop w n e f) = ap (λ (w : View). w.saved) f
saved-move v t (pass w e f) = ap (λ (w : View). w.saved) f
saved-move v t (leave n f) = ap (λ (w : View). w.saved) f

-- No move takes a snapshot.
pub saved-moves : (v t : View) → Star Move v t → t.saved ≡ v.saved
saved-moves v t s =
    Star-Keeps (λ (w : View). w.saved ≡ v.saved) (λ s u x k. saved-move s u x ∙ k) s refl
