-- ===== src/Checkpoint/Protocol/Turn.antt =====
-- A poll as moves: each message of it is taken and handled in one.
use mathlib.Core.Path.{subst}
use mathlib.Core.List.{append_assoc}
use qemu_pdes.System.{stream, flat}
use qemu_pdes.Base.{
  ◌≡◌, refl, sym, ap, ◌∙◌, true, false, List, [], ◌∷◌, ◌++◌, ◌==◌, arith, Bool-cases, inl, inr,
}
use qemu_pdes.Comm.Message.{
  Message, drain_start, drain_end, checkpoint_init_step, intent_to_end_emulation,
  permission_to_end_emulation, end_of_emulation,
}
use qemu_pdes.Node.{Node}
use qemu_pdes.Node.Monad.{when}
use qemu_pdes.Node.Always.{Always, Keeps, Always-map, bind-Keeps, when-Keeps, if-Keeps, then-Always}
use qemu_pdes.Engine.Process.{
  process_message, on_intent, on_permission, on_end, on_drain_start, on_drain_end,
  on_checkpoint_init, pdes_engine_poll,
}
use qemu_pdes.Engine.Process.Poll.{taken, accepted, poll-Turns}
use qemu_pdes.Wwt.Receive.{wwt_recivied_callback}
use qemu_pdes.Checkpoint.Protocol.{
  View, view, Exchange, Star, drains, From, more, order, ignore, announced_round, announced_name,
}
use qemu_pdes.Checkpoint.Protocol.Frame.{Shows, view_of, drains-snoc}
use qemu_pdes.Checkpoint.Protocol.Quiet.{
  receive-Quiet, on_intent-Quiet, on_permission-Quiet, on_end-Quiet, on_drain_end-Quiet,
}
use qemu_pdes.Checkpoint.Protocol.Order.{
  Shows-as, Quiet-From, init-From, Handled, ignored, followed, on_drain_start-Handled,
}

-- What is read and to be read stays as it is when a message is taken.
stream-taken :
    (m : Message) (rest : List Message) (n : Node)
    → n.inbox ≡ m ∷ rest
    → stream (taken m rest n) ≡ stream n
stream-taken m rest n i =
    append_assoc n.received (m ∷ []) (rest ++ flat n.arriving)
    ∙ ap (λ (l : List Message). n.received ++ (l ++ flat n.arriving)) (sym i)

view-taken :
    (m : Message) (rest : List Message) (n : Node) (heard : List Message)
    → n.inbox ≡ m ∷ rest
    → drains (n.received ++ (m ∷ [])) ≡ heard
    → view (taken m rest n) ≡ record (view n) { heard = heard }
view-taken m rest n heard i e =
    ap (λ (l : List Message). record (view (taken m rest n)) { coming = drains l })
      (stream-taken m rest n i)
    ∙ ap (λ (ms : List Message). record (view n) { heard = ms }) e

view-accepted :
    (n : Node) (batch : List Message) (later : List (List Message))
    → n.arriving ≡ batch ∷ later
    → view (accepted batch later n) ≡ view n
view-accepted n batch later a =
    ap (λ (l : List Message). record (view n) { coming = drains (n.received ++ l) })
      (append_assoc n.inbox batch (flat later)
        ∙ ap (λ (l : List (List Message)). n.inbox ++ flat l) (sym a))

before :
    (v : View) (n : Node) (m : Message) (rest : List Message)
    → n.inbox ≡ m ∷ rest
    → From Exchange v n
    → (m.kind == drain_start) ≡ false
    → From Exchange v (taken m rest n)
before v n m rest i p e =
    subst (Star Exchange v)
      (sym (view-taken m rest n (drains n.received) i (drains-snoc n.received m ∙ rw e refl))) p

-- A message that is no announcement.
other-From :
    (v : View) (m : Message)
    → (m.kind == drain_start) ≡ false
    → Keeps (From Exchange v) (process_message m)
unfolding process_message
other-From v m e =
    bind-Keeps (From Exchange v) (wwt_recivied_callback m) _
      (Quiet-From (wwt_recivied_callback m) (receive-Quiet m) v)
      λ _.
        bind-Keeps (From Exchange v) (when (m.kind == intent_to_end_emulation) on_intent) _
          (when-Keeps (From Exchange v) (m.kind == intent_to_end_emulation) on_intent
            (Quiet-From on_intent on_intent-Quiet v))
          λ _.
            bind-Keeps (From Exchange v)
              (when (m.kind == permission_to_end_emulation) on_permission) _
              (when-Keeps (From Exchange v) (m.kind == permission_to_end_emulation) on_permission
                (Quiet-From on_permission on_permission-Quiet v))
              λ _.
                bind-Keeps (From Exchange v) (when (m.kind == end_of_emulation) on_end) _
                  (when-Keeps (From Exchange v) (m.kind == end_of_emulation) on_end
                    (Quiet-From on_end on_end-Quiet v))
                  λ _ n p. rw e (
                    if-Keeps (From Exchange v) (m.kind == drain_end) on_drain_end _
                      (Quiet-From on_drain_end on_drain_end-Quiet v)
                      (when-Keeps (From Exchange v) (m.kind == checkpoint_init_step)
                        on_checkpoint_init (init-From v))
                      n p)

module _ (v : View) (m : Message) (e : (m.kind == drain_start) ≡ true) where
  Handled-From :
      (w : View) (n k : Node)
      → Star Exchange v w
      → view n ≡ record w { heard = w.heard ++ (m ∷ []) }
      → Handled m n k
      → From Exchange v k
  Handled-From w n k p s (ignored a h) = more p (ignore m (h ∙ s))
  Handled-From w n k p s (followed a h) = more p (
      order m (sym (ap (λ (w' : View). w'.master) s) ∙ a) (
        h
        ∙ ap
            (λ (w' : View). record w' {
              needs = true;
              target = announced_round m;
              name = announced_name m;
            })
            s))

  announcement-From :
      (n : Node) (rest : List Message)
      → n.inbox ≡ m ∷ rest
      → From Exchange v n
      → Always (From Exchange v) (process_message m (taken m rest n))
  unfolding process_message
  announcement-From n rest i p =
      let w : View = record (view n) { heard = drains n.received ++ (m ∷ []) } in
      let start : Shows w (taken m rest n) = Shows-as (
        view-taken m rest n (drains n.received ++ (m ∷ [])) i
          (drains-snoc n.received m ∙ rw e refl)) in
      let no_intent : (m.kind == intent_to_end_emulation) ≡ false = ground (arith, e) in
      let no_permission : (m.kind == permission_to_end_emulation) ≡ false = ground (arith, e) in
      let no_end : (m.kind == end_of_emulation) ≡ false = ground (arith, e) in
      then-Always (Shows w) (From Exchange v) (wwt_recivied_callback m (taken m rest n)) _
        (receive-Quiet m w (taken m rest n) start) (λ k s. more p (ignore m (view_of s)))
        λ _ k s.
          rw (no_intent, no_permission, no_end, e)
            (Always-map (Handled m k) (From Exchange v) (on_drain_start m k)
              (on_drain_start-Handled m k) (λ l h. Handled-From (view n) k l p (view_of s) h))

-- One turn of the loop.
turn-From :
    (v : View) (m : Message) (rest : List Message) (n : Node)
    → n.inbox ≡ m ∷ rest
    → From Exchange v n
    → Always (From Exchange v) (process_message m (taken m rest n))
turn-From v m rest n i p = elim (Bool-cases (m.kind == drain_start)) [
  | inl e ↦ announcement-From v m e n rest i p
  | inr e ↦ other-From v m e (taken m rest n) (before v n m rest i p e)
]

taken-From :
    (v : View) (m : Message) (rest : List Message) (n : Node)
    → n.inbox ≡ m ∷ rest
    → From Exchange v n
    → From Exchange v (taken m rest n)
taken-From v m rest n i p = elim (Bool-cases (m.kind == drain_start)) [
  | inl e ↦ more p (ignore m (view-taken m rest n _ i (drains-snoc n.received m ∙ rw e refl)))
  | inr e ↦ before v n m rest i p e
]

pub poll-From : (v : View) → Keeps (From Exchange v) pdes_engine_poll
poll-From v =
    poll-Turns (From Exchange v) (taken-From v) (turn-From v)
      (λ n batch later e p. subst (Star Exchange v) (sym (view-accepted n batch later e)) p)
