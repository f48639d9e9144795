-- ===== src/Checkpoint/Protocol/Frame.antt =====
-- The callbacks of net/ that have nothing to do with a checkpoint leave what `Checkpoint.Protocol`
-- looks at as it is.
use qemu_pdes.Base.{◌≡◌, refl, List, [], ◌∷◌, ◌++◌, if◌then◌else◌, ◌==◌, arith, not}
use qemu_pdes.Comm.Message.{Message, drain_start}
use qemu_pdes.Node.{Node, Effect}
use qemu_pdes.Checkpoint.Protocol.{View, view, drains, saves, is_save}
use qemu_pdes.Wwt.Sync.{is_no_timer}
use qemu_pdes.System.{stream}

pub drains-append : (xs ys : List Message) → drains (xs ++ ys) ≡ drains xs ++ drains ys
unfolding drains
drains-append [] ys = refl
drains-append (m ∷ xs) ys = ground (arith, drains-append xs ys)

pub drains-snoc :
    (xs : List Message) (m : Message)
    → drains (xs ++ (m ∷ [])) ≡ (if m.kind == drain_start then drains xs ++ (m ∷ []) else drains xs)
unfolding drains
drains-snoc [] m = refl
drains-snoc (k ∷ xs) m = ground (arith, drains-snoc xs m)

pub saves-snoc :
    (xs : List Effect) (e : Effect)
    → saves (xs ++ (e ∷ [])) ≡ (if is_save e then saves xs ++ (e ∷ []) else saves xs)
unfolding saves
saves-snoc [] e = refl
saves-snoc (k ∷ xs) e = ground (arith, saves-snoc xs e)

-- `view k ≡ v`, field by field.
pub record Shows (v : View) (k : Node) : Type 0 where
  pub master : k.engine.master ≡ v.master
  pub connected : k.engine.connected ≡ v.connected
  pub needs : k.engine.needs_to_checkpoint ≡ v.needs
  pub notified : k.engine.notified_neighbors ≡ v.notified
  pub target : k.engine.checkpoint_quantum_round ≡ v.target
  pub name : k.engine.checkpoint_name ≡ v.name
  pub bh : k.engine.boundry_checkpoint_bh ≡ v.bh
  pub should_sync : k.wwt.should_sync ≡ v.should_sync
  pub finished : k.wwt.finished_quantum ≡ v.finished
  pub waiting : not (is_no_timer k.wwt.sync_check_timer) ≡ v.waiting
  pub round : k.wwt.current_quantum_round ≡ v.round
  pub told : drains k.outbox ≡ v.told
  pub heard : drains k.received ≡ v.heard
  pub coming : drains (stream k) ≡ v.coming
  pub saved : saves k.trace ≡ v.saved

pub view_of : {v : View} {k : Node} → Shows v k → view k ≡ v
view_of {v} {k} s =
    rw
      (
        s.master, s.connected, s.needs, s.notified, s.target, s.name, s.bh, s.should_sync,
        s.finished, s.waiting, s.round, s.told, s.heard, s.coming, s.saved,
      )
      refl
