-- ===== src/Checkpoint/Boundary.antt =====
-- `validate_checkpoint` and `create_checkpoint_bh` of net/pdes-checkpoint.c, and the unused
-- `initiate_checkpoint_master` of net/pdes-engine.c.
pub mod Announce
pub mod Outcome
use Prim.Native.String.{String}
use qemu_pdes.Base.{
  ℕ, Bool, true, false, Option, none, some, List, [], ◌∷◌, ◌&&◌, not, if◌then◌else◌, ◌==◌, leb,
  length, take, drop, bytes_eq, codes,
}
use qemu_pdes.Base.Word.{signed_lt32}
use qemu_pdes.Base.Bytes.{c_str}
use qemu_pdes.Node.{Node, PdesEngine, no_bh, save_snapshot}
use qemu_pdes.Node.Monad.{
  M, pure, skip, when, assert, fail, exit, get, engine, set_engine, emit, ◌>>=◌, ◌>>◌,
}
use qemu_pdes.Engine.Exit.{pdes_engine_destroy}
use qemu_pdes.Engine.Process.{init_warmed}
use qemu_pdes.Wwt.Drain.{drain_prefix}

-- `strlen(name) >= 5 && strncmp(name, "QPDES", 5) == 0`
abbrev pub has_prefix : List ℕ → Bool
has_prefix name = leb 5 (length name) && bytes_eq (take 5 name) drain_prefix

unfoldable pub validate_follower : List ℕ → M (Bool × List ℕ)
validate_follower name = if has_prefix name then pure (true, drop 5 name) else pure (false, name)

unfoldable pub validate_master : List ℕ → M (Bool × List ℕ)
validate_master name =
    if bytes_eq name init_warmed
    then (do
      early ← engine (λ e. signed_lt32 e.init_flag 1)
      if early
          then (do set_engine (λ e. record e { master_init = true }); pure (false, name))
          else pure (true, name))
    else pure (true, name)

-- Whether the snapshot may be taken, and the name that `*check_point_name` has then. A NULL name
-- meets none of the tests on names.
unfoldable pub validate_checkpoint : Option (List ℕ) → M (Bool × Option (List ℕ))
unfolding validate_follower validate_master
validate_checkpoint name = do
  has_engine ← get (λ n. n.has_engine)
  master ← engine (λ e. e.master)
  if not has_engine then pure (true, name) else elim name [
    | none ↦ pure (master, none)
    | some s ↦ (do
      (allowed, s') ← if master then validate_master s else validate_follower s
      pure (allowed, some s'))
  ]

-- The snapshot and the reset of the flags; the result says that this was the first checkpoint, on
-- the master, which ends the emulation.
unfoldable pub take_checkpoint : M Bool
take_checkpoint = do
  set_engine (λ e. record e { checkpoint_in_progress = false })
  name ← engine (λ e. c_str e.checkpoint_name)
  format ← engine (λ e. e.checkpoint_format)
  emit (save_snapshot name format)
  set_engine (λ e. record e {
    needs_to_checkpoint = false;
    notified_neighbors = false;
    checkpoint_quantum_round = 0;
    boundry_checkpoint_bh = no_bh;
    skip_boundry_check_after_checkpoint = true;
  })
  engine (λ e. bytes_eq name init_warmed && e.master)

unfoldable pub create_checkpoint_bh : Bool → M (Unit {0})
unfolding take_checkpoint
create_checkpoint_bh exit_after = do
  needs ← engine (λ e. e.needs_to_checkpoint)
  when needs (do last ← take_checkpoint; when last pdes_engine_destroy; when exit_after exit)

unfoldable pub initiate_checkpoint_master : M (Unit {0})
initiate_checkpoint_master = do
  master ← engine (λ e. e.master)
  assert master
  format ← get (λ n. n.base_format)
  emit (save_snapshot init_warmed format)
  set_engine (λ e. record e { checkpoint_bh = no_bh })
