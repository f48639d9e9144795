-- ===== src/Comm/Setup.antt =====
-- `pdes_comm_init_ring`, `pdes_comm_create` and `pdes_comm_destroy` of net/pdes-communicator.c as
-- the system calls that they make, one after the other, for any answers of the system.
pub mod Cleanup
use qemu_pdes.Base.{ℕ, Bool, true, false, List, [], ◌∷◌, ◌++◌, if◌then◌else◌}

-- Which of the two shared memory objects a call is about.
pub data Ring : Type 0 where
  send_ring : Ring
  recv_ring : Ring

pub data SystemCall : Type 0 where
  shm_open_excl : Ring → SystemCall  -- with O_CREAT | O_EXCL
  shm_open : Ring → SystemCall
  ftruncate : Ring → SystemCall
  shm_unlink : Ring → SystemCall
  close : Ring → SystemCall
  mmap : Ring → SystemCall
  munmap : Ring → SystemCall
  memset : Ring → SystemCall
  g_free : SystemCall

-- What the system answers for one ring: which calls succeed.
pub record Answers : Type 0 where
  pub created : Bool
  pub opened : Bool
  pub truncated : Bool
  pub mapped : Bool

-- The calls made, and whether the ring is there.
abbrev pub Setup : Type 0
Setup = List SystemCall × Bool

-- From the `mmap` on.
unfoldable pub map_ring : Ring → Answers → Setup
map_ring r a =
    if a.mapped
    then (if a.created then mmap r ∷ memset r ∷ [] else mmap r ∷ [], true)
    else (if a.created then mmap r ∷ shm_unlink r ∷ close r ∷ [] else mmap r ∷ close r ∷ [], false)

abbrev pub then_calls : List SystemCall → Setup → Setup
then_calls calls (rest, ok) = (calls ++ rest, ok)

unfoldable pub pdes_comm_init_ring : Ring → Answers → Setup
unfolding map_ring
pdes_comm_init_ring r a =
    if a.created
    then if a.truncated
      then then_calls (shm_open_excl r ∷ ftruncate r ∷ []) (map_ring r a)
      else (shm_open_excl r ∷ ftruncate r ∷ shm_unlink r ∷ close r ∷ [], false)
    else if a.opened
    then then_calls (shm_open_excl r ∷ shm_open r ∷ []) (map_ring r a)
    else (shm_open_excl r ∷ shm_open r ∷ [], false)

-- `singleton_comm` is NULL here: otherwise the process exits at once.
unfoldable pub pdes_comm_create : Answers → Answers → Setup
unfolding pdes_comm_init_ring
pdes_comm_create s r =
    let (calls, ok) = pdes_comm_init_ring send_ring s in
    let (calls', ok') = pdes_comm_init_ring recv_ring r in
    if ok
    then if ok'
      then (calls ++ calls', true)
      else (calls ++ (calls' ++ (munmap send_ring ∷ close send_ring ∷ g_free ∷ [])), false)
    else (calls ++ (g_free ∷ []), false)

-- Of a communicator that `pdes_comm_create` made.
unfoldable pub pdes_comm_destroy : List SystemCall
pdes_comm_destroy =
    munmap send_ring ∷ munmap recv_ring ∷ close send_ring ∷ close recv_ring ∷ g_free ∷ []
