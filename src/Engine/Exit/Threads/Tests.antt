-- ===== src/Engine/Exit/Threads/Tests.antt =====
-- A master whose two threads both give the permission.
use qemu_pdes.Base.{◌+◌, ◌*◌, ◌≤◌, ◌≡◌, refl, Bool, true, false, List, [], ◌∷◌}
use qemu_pdes.Comm.Message.{end_of_emulation, intent_to_end_emulation, permission_to_end_emulation}
use qemu_pdes.Engine.Exit.Invariant.{bit}
use qemu_pdes.Engine.Exit.Threads.{
  Pc, ask, at_boundary, count_intent, assert_permitted, access, Threads, created, main_calls,
  flexus_calls, main_accesses, flexus_accesses, Reach, here, later, intent_arrives, end_arrives,
  boundary, asks_to_stop,
}
use qemu_pdes.Engine.Exit.Threads.Invariant.{count, granting}
use qemu_pdes.Engine.Exit.Threads.Safety.{control_messages, none_lost, answer_stands}

-- Accesses by the main thread (`true`) and by the one of Flexus.
abbrev drive : Threads → List Bool → Threads
drive s [] = s
drive s (true ∷ l) =
    drive (record s { flags = (access s.flags s.main).0; main = (access s.flags s.main).1 }) l
drive s (false ∷ l) =
    drive (record s { flags = (access s.flags s.flexus).0; flexus = (access s.flags s.flexus).1 }) l

drive-Reach :
    {master : Bool} (s : Threads) (l : List Bool) → Reach master s → Reach master (drive s l)
drive-Reach s [] r = r
drive-Reach s (true ∷ l) r =
    drive-Reach (record s { flags = (access s.flags s.main).0; main = (access s.flags s.main).1 }) l
      (later r main_accesses)
drive-Reach s (false ∷ l) r =
    drive-Reach
      (record s { flags = (access s.flags s.flexus).0; flexus = (access s.flags s.flexus).1 }) l
      (later r flexus_accesses)

abbrev main_in : Pc → Threads → Threads
main_in p s = record s { main = p }

abbrev flexus_in : Pc → Threads → Threads
flexus_in p s = record s { flexus = p }

-- Flexus has asked once, and the intent of the follower is there.
abbrev both_ready : Threads
both_ready =
    drive (main_in count_intent (drive (flexus_in ask (created true)) (false ∷ false ∷ false ∷ [])))
      (true ∷ [])

both_ready-Reach : Reach true both_ready
unfolding access
both_ready-Reach = drive-Reach _ (true ∷ []) (
    later
      (drive-Reach (flexus_in ask (created true)) (false ∷ false ∷ false ∷ [])
        (later here (flexus_calls false ask refl asks_to_stop)))
      (main_calls false count_intent refl intent_arrives))

-- Both threads are past their test of `permitted_to_exit`.
abbrev both_past : Threads
both_past =
    drive (main_in at_boundary (drive (flexus_in ask both_ready) (false ∷ false ∷ [])))
      (true ∷ true ∷ true ∷ [])

both_past-Reach : Reach true both_past
unfolding access
both_past-Reach = drive-Reach _ (true ∷ true ∷ true ∷ []) (
    later
      (drive-Reach (flexus_in ask both_ready) (false ∷ false ∷ [])
        (later both_ready-Reach (flexus_calls false ask refl asks_to_stop)))
      (main_calls false at_boundary refl (boundary refl)))

-- Both set the flag; the main thread sends its permission and END_OF_EMULATION, and the thread of
-- Flexus then its permission.
abbrev done : Threads
done =
    drive both_past (
      false ∷ true ∷ true ∷ true ∷ true ∷ true ∷ false ∷ false ∷ false ∷ false ∷ false ∷ false ∷ [])

done-Reach : Reach true done
unfolding access
done-Reach =
    drive-Reach both_past
      (false ∷ true ∷ true ∷ true ∷ true ∷ true ∷ false ∷ false ∷ false ∷ false ∷ false ∷ false
        ∷ [])
      both_past-Reach

-- The permission goes out twice.
done_sent :
    done.flags.sent
    ≡ permission_to_end_emulation ∷ end_of_emulation ∷ permission_to_end_emulation ∷ []
unfolding access
done_sent = refl

control_messages_example :
    (count end_of_emulation done.flags.sent ≤ bit done.flags.permitted_to_exit)
    × (count intent_to_end_emulation done.flags.sent ≤ 1)
    × (count permission_to_end_emulation done.flags.sent ≤ 2 * bit done.flags.master)
    × (bit done.flags.master + count end_of_emulation done.flags.sent
        ≤ 1
          + (count permission_to_end_emulation done.flags.sent
              + (granting done.main + granting done.flexus)))
control_messages_example = control_messages done-Reach

none_lost_example :
    (count end_of_emulation done.flags.sent ≡ bit done.flags.permitted_to_exit)
    × (bit done.flags.master + bit done.flags.permitted_to_exit
        ≤ 1 + count permission_to_end_emulation done.flags.sent)
unfolding access
none_lost_example = none_lost done-Reach false false refl refl

-- The follower's END_OF_EMULATION arrives, and Flexus asks again.
abbrev answered : Threads
answered =
    drive (flexus_in ask (drive (main_in assert_permitted done) (true ∷ true ∷ [])))
      (false ∷ false ∷ false ∷ false ∷ false ∷ [])

answered-Reach : Reach true answered
unfolding access
answered-Reach = drive-Reach _ (false ∷ false ∷ false ∷ false ∷ false ∷ []) (
    later
      (drive-Reach (main_in assert_permitted done) (true ∷ true ∷ [])
        (later done-Reach (main_calls false assert_permitted refl end_arrives)))
      (flexus_calls false ask refl asks_to_stop))

answer_stands_example :
    (answered.flags.permitted_to_exit ≡ true) × (answered.flags.pair_has_finished ≡ true)
unfolding access
answer_stands_example = answer_stands answered-Reach refl
