-- ===== src/Engine/Exit/Threads/Safety.antt =====
-- What every interleaving of the two threads does with the control messages.
use qemu_pdes.Base.{◌+◌, ◌*◌, ◌≤◌, ◌≡◌, Bool, true, false, arith}
use qemu_pdes.Comm.Message.{end_of_emulation, intent_to_end_emulation, permission_to_end_emulation}
use qemu_pdes.Engine.Exit.Invariant.{bit, bit-le}
use qemu_pdes.Engine.Exit.Threads.{
  Flags, Pc, free, Threads, created, Step, main_calls, flexus_calls, main_accesses, flexus_accesses,
  Reach, here, later, MainCall, intent_arrives, permission_arrives, end_arrives, boundary,
  main_destroys, FlexusCall, asks_to_stop, flexus_destroys,
}
use qemu_pdes.Engine.Exit.Threads.Invariant.{Inv, access-Inv, swap, count, granting}

MainCall-Inv :
    (f : Flags) (b : Bool) (p q : Pc) → MainCall f.master p → Inv 0 1 f (free b) q → Inv 0 1 f p q
MainCall-Inv f b p q intent_arrives i = grind arith
MainCall-Inv f b p q (permission_arrives m) i = grind arith
MainCall-Inv f b p q end_arrives i = grind arith
MainCall-Inv f b p q (boundary m) i = grind arith
MainCall-Inv f b p q main_destroys i = grind arith

FlexusCall-Inv :
    (f : Flags) (b : Bool) (p q : Pc) → FlexusCall p → Inv 1 0 f (free b) q → Inv 1 0 f p q
FlexusCall-Inv f b p q asks_to_stop i = grind arith
FlexusCall-Inv f b p q flexus_destroys i = grind arith

abbrev pub Keeps : Threads → Type 0
Keeps t = Inv 0 1 t.flags t.main t.flexus

Step-Inv : {s t : Threads} → Step s t → Keeps s → Keeps t
Step-Inv {s} (main_calls b p e c) i = MainCall-Inv s.flags b p s.flexus c (rw e at i)
Step-Inv {s} (flexus_calls b p e c) i =
    swap p s.main (FlexusCall-Inv s.flags b p s.main c (rw e at (swap s.main s.flexus i)))
Step-Inv {s} main_accesses i = access-Inv s.flags s.main s.flexus i
Step-Inv {s} flexus_accesses i =
    swap _ s.main (access-Inv s.flags s.flexus s.main (swap s.main s.flexus i))

created-Inv : (master : Bool) → Keeps (created master)
created-Inv true = grind arith
created-Inv false = grind arith

pub Reach-Inv : {master : Bool} {t : Threads} → Reach master t → Keeps t
Reach-Inv {master} here = created-Inv master
Reach-Inv (later r st) = Step-Inv st (Reach-Inv r)

module _ {master : Bool} {t : Threads} (r : Reach master t) where
  -- However the accesses of both threads interleave: at most one END_OF_EMULATION goes out, and
  -- none before `permitted_to_exit` is set; at most one intent; at most two permissions, and none
  -- from a follower. At the master, an END_OF_EMULATION is behind a permission, or a thread is about to
  -- send the permission.
  pub control_messages :
      (count end_of_emulation t.flags.sent ≤ bit t.flags.permitted_to_exit)
      × (count intent_to_end_emulation t.flags.sent ≤ 1)
      × (count permission_to_end_emulation t.flags.sent ≤ 2 * bit t.flags.master)
      × (bit t.flags.master + count end_of_emulation t.flags.sent
          ≤ 1
            + (count permission_to_end_emulation t.flags.sent
                + (granting t.main + granting t.flexus)))
  control_messages =
      let i = Reach-Inv r in
      (
        omega (arith, i),
        omega (arith, i),
        omega (arith, i),
        omega (arith, i, bit-le t.flags.permitted_to_exit),
      )

  -- Whenever neither thread is in a call, END_OF_EMULATION is out exactly if `permitted_to_exit` is
  -- set, and at the master the permission is out then too: whichever thread came first, the END that
  -- was put off is sent.
  pub none_lost :
      (b c : Bool)
      → t.main ≡ free b
      → t.flexus ≡ free c
      → (count end_of_emulation t.flags.sent ≡ bit t.flags.permitted_to_exit)
        × (bit t.flags.master + bit t.flags.permitted_to_exit
            ≤ 1 + count permission_to_end_emulation t.flags.sent)
  none_lost b c e f = let i = Reach-Inv r in grind (arith, i)

  -- When `can_stop` has answered that Flexus may stop, the node is permitted to exit and its pair
  -- has finished, whatever the main thread has done since.
  pub answer_stands :
      t.flexus ≡ free true → (t.flags.permitted_to_exit ≡ true) × (t.flags.pair_has_finished ≡ true)
  answer_stands e = let i = Reach-Inv r in grind (arith, i)
