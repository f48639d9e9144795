-- ===== src/Engine/Pause.antt =====
-- `pdes_pause`, its bottom half and `pdes_play` of net/pdes-engine.c.
use qemu_pdes.Base.{ℕ, Bool, true, false, Option, none, some, if◌then◌else◌, ◌==◌}
use qemu_pdes.Node.{
  Flexus, Bh, no_bh, idle, scheduled, vm_start, vm_stop, flexus_pause, flexus_resume,
}
use qemu_pdes.Node.Monad.{
  M, skip, when, assert, fail, assertion, get, engine, set_engine, modify, emit, ◌>>=◌, ◌>>◌,
}

-- Without libqflex: the processor that runs is told to stop, and remembered.
unfoldable pub stop_cpu : Option ℕ → M (Unit {0})
stop_cpu none = skip
stop_cpu (some cpu) = modify (λ n. record n {
  paused_cpu = some cpu;
  cpu_stop = λ c. if c == cpu then true else n.cpu_stop c;
})

unfoldable pub resume_cpu : Option ℕ → M (Unit {0})
resume_cpu none = skip
resume_cpu (some cpu) =
    modify (λ n. record n {
      paused_cpu = none;
      cpu_stop = λ c. if c == cpu then false else n.cpu_stop c;
    })

-- The blocks of `#ifdef CONFIG_LIBQFLEX`.
unfoldable pub pause_flexus : Option Flexus → M (Unit {0})
pause_flexus none = skip
pause_flexus (some f) = if f.has_pause then emit flexus_pause else when f.has_stop (fail assertion)

unfoldable pub resume_flexus : Option Flexus → M (Unit {0})
resume_flexus none = skip
resume_flexus (some f) =
    if f.has_resume then emit flexus_resume else when f.has_stop (fail assertion)

-- The block of `#ifndef CONFIG_LIBQFLEX`.
abbrev without_flexus : Option Flexus → M (Unit {0}) → M (Unit {0})
without_flexus none m = m
without_flexus (some f) m = skip

abbrev pub is_null : {A : Type 0} → Bh A → Bool
is_null no_bh = true
is_null (idle a) = false
is_null (scheduled a) = false

unfoldable pub pdes_pause : M (Unit {0})
unfolding stop_cpu pause_flexus
pdes_pause = do
  set_engine (λ e. record e { paused = true })
  flexus ← get (λ n. n.flexus)
  pause_flexus flexus
  bh ← engine (λ e. e.pause_bh)
  assert (is_null bh)
  set_engine (λ e. record e { pause_bh = scheduled tt })
  cpu ← get (λ n. n.current_cpu)
  without_flexus flexus (stop_cpu cpu)

unfoldable pub pdes_pause_bh : M (Unit {0})
pdes_pause_bh = do emit vm_stop; set_engine (λ e. record e { pause_bh = no_bh })

unfoldable pub pdes_play : M (Unit {0})
unfolding resume_cpu resume_flexus
pdes_play = do
  flexus ← get (λ n. n.flexus)
  cpu ← get (λ n. n.paused_cpu)
  without_flexus flexus (resume_cpu cpu)
  emit vm_start
  resume_flexus flexus
  set_engine (λ e. record e { paused = false })
