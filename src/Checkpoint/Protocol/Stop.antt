-- ===== src/Checkpoint/Protocol/Stop.antt =====
-- The barrier's stop for a checkpoint as moves.
use qemu_pdes.Base.{◌<◌, ◌≡◌, Bool, true, false, not, ◌&&◌, ◌||◌, ◌==◌, ltb, if◌then◌else◌, arith}
use qemu_pdes.Base.Word.{add64}
use qemu_pdes.Node.{Node, scheduled}
use qemu_pdes.Node.Monad.{
  M, pure, when, skip, engine, wwt, get, set_engine, set_wwt, timer_mod, fail, assertion, ◌>>=◌,
  ◌>>◌,
}
use qemu_pdes.Node.Always.{Gives, Gives-map, if-Gives, after-Gives, Always-Gives}
use qemu_pdes.Engine.Pause.{is_null}
use qemu_pdes.Wwt.Drain.{notify_of_checkpoint}
use qemu_pdes.Wwt.Sync.{sync_checkpoint_check}
use qemu_pdes.Checkpoint.Protocol.{View, view, Move, exchange, stop, Star, more, From}
use qemu_pdes.Checkpoint.Protocol.Frame.{Shows, view_of}
use qemu_pdes.Checkpoint.Protocol.Tell.{notify-From}
use qemu_pdes.Checkpoint.Protocol.Stars.{Exchanges-Keeps, needs_on}

-- The barrier may be passed.
abbrev pub Free : View → Type 0
Free v = v.needs ≡ true → (v.round < v.target) × (v.should_sync ≡ true)

-- From the bottom half on.
abbrev halt : M Bool
halt = do
  bh ← engine (λ e. e.boundry_checkpoint_bh)
  when (is_null bh) (set_engine (λ e. record e { boundry_checkpoint_bh = scheduled false }))
  timer ← wwt (λ w. w.sync_check_timer)
  now ← get (λ n. n.realtime_ns)
  later ← timer_mod timer (add64 now 10000000)
  set_wwt (λ w. record w { sync_check_timer = later })
  pure true

abbrev stopped : View → View
stopped v = record v { bh = if is_null v.bh then scheduled false else v.bh }

halt-Shows :
    (n : Node)
    → Gives
        (λ again k. (again ≡ true) × ((view n).waiting ≡ true) × Shows (stopped (view n)) k)
        (λ _. ⊥)
        (halt n)
halt-Shows n = ground arith

abbrev pub Decided : View → Bool → Node → Type 0
Decided v again k = From Move v k × (again ≡ false → Free (view k))

halt-Decided :
    (v : View) (n : Node)
    → From Move v n
    → n.engine.needs_to_checkpoint ≡ true
    → (n.wwt.should_sync ≡ true → n.wwt.current_quantum_round ≡ n.engine.checkpoint_quantum_round)
    → Gives (Decided v) (From Move v) (halt n)
halt-Decided v n p needs at =
    Gives-map (From Move v) _ (Decided v) (λ _. ⊥) (halt n)
      (λ again k (t, w, s). (more p (stop w needs at (view_of s)), λ e. cc)) (λ k x. absurd x)
      (halt-Shows n)

-- What follows the announcement.
abbrev decide : Bool → M Bool
decide needs = do
  round ← wwt (λ w. w.current_quantum_round)
  should_sync ← wwt (λ w. w.should_sync)
  target ← engine (λ e. e.checkpoint_quantum_round)
  if not needs || (ltb round target && should_sync)
      then pure false
      else if (round == target) || not should_sync
      then halt
      else fail assertion

decide-Decided :
    (v : View) (needs : Bool) (n : Node)
    → From Move v n
    → (needs ≡ true → n.engine.needs_to_checkpoint ≡ true)
    → (needs ≡ false → n.engine.needs_to_checkpoint ≡ false)
    → Gives (Decided v) (From Move v) (decide needs n)
decide-Decided v needs n p on off =
    let w = n.wwt in
    let target = n.engine.checkpoint_quantum_round in
    if-Gives (Decided v) (From Move v)
      (not needs || (ltb w.current_quantum_round target && w.should_sync)) (pure false) _ n
      (λ e. (p, λ _. λ c. ground (arith, e, c, off)))
      λ e.
        if-Gives (Decided v) (From Move v)
          ((w.current_quantum_round == target) || not w.should_sync) halt (fail assertion) n
          (λ f. halt-Decided v n p (ground (arith, e, on)) (λ c. ground (arith, f, c))) (λ f. tt)

-- The check's result says whether the barrier may be passed.
pub check-Decided :
    (v : View) (n : Node)
    → From Move v n
    → Gives (Decided v) (From Move v) (sync_checkpoint_check n)
unfolding sync_checkpoint_check
check-Decided v n p =
    let c = n.engine.needs_to_checkpoint in
    let Mid : Unit {0} → Node → Type 0 = λ _ k.
      From Move v k
      × (c ≡ true → k.engine.needs_to_checkpoint ≡ true)
      × (c ≡ false → k.engine.needs_to_checkpoint ≡ false) in
    after-Gives Mid (From Move v) (Decided v)
      (when (c && not n.engine.notified_neighbors) notify_of_checkpoint n) _
      (if-Gives Mid (From Move v) (c && not n.engine.notified_neighbors) notify_of_checkpoint skip n
        (λ e.
          let on : c ≡ true = ground (arith, e) in
          let Q : View → Type 0 = λ w. Star Move v w × (w.needs ≡ true) in
          Gives-map (From Move v) (λ _ k. Q (view k)) Mid (λ k. Q (view k)) (notify_of_checkpoint n)
            (λ _ k q. (q.0, (λ _. q.1), λ f. cc)) (λ k q. q.0)
            (Always-Gives (λ k. Q (view k)) (notify_of_checkpoint n)
              (Exchanges-Keeps Q (λ s u x q. (more q.0 (exchange x), needs_on s u x q.1))
                notify_of_checkpoint notify-From n (p, on))))
        (λ e. (p, (λ h. h), λ h. h)))
      λ _ k q. decide-Decided v c k q.0 q.1 q.2
