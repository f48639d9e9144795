-- ===== src/Comm/Setup/Cleanup.antt =====
-- What the setup of the rings leaves behind.
use qemu_pdes.Base.{ℕ, ◌+◌, ◌≡◌, Bool, true, false, List, [], ◌∷◌, if◌then◌else◌, arith}
use qemu_pdes.Comm.Setup.{
  Ring, send_ring, recv_ring, SystemCall, shm_unlink, close, munmap, g_free, Answers,
  pdes_comm_init_ring, pdes_comm_create, pdes_comm_destroy,
}

abbrev same : Ring → Ring → Bool
same send_ring send_ring = true
same recv_ring recv_ring = true
same send_ring recv_ring = false
same recv_ring send_ring = false

-- How many calls of a list close, or unmap, a ring, and how many remove its name.
abbrev closes : Ring → List SystemCall → ℕ
closes r [] = 0
closes r (close q ∷ cs) = (if same r q then 1 else 0) + closes r cs
closes r (c ∷ cs) = closes r cs

abbrev unmaps : Ring → List SystemCall → ℕ
unmaps r [] = 0
unmaps r (munmap q ∷ cs) = (if same r q then 1 else 0) + unmaps r cs
unmaps r (c ∷ cs) = unmaps r cs

abbrev unlinks : Ring → List SystemCall → ℕ
unlinks r [] = 0
unlinks r (shm_unlink q ∷ cs) = (if same r q then 1 else 0) + unlinks r cs
unlinks r (c ∷ cs) = unlinks r cs

abbrev frees : List SystemCall → ℕ
frees [] = 0
frees (g_free ∷ cs) = 1 + frees cs
frees (c ∷ cs) = frees cs

-- A descriptor is open after `shm_open` of either kind; a mapping exists if `mmap` was reached and
-- succeeded.
abbrev has_fd : Answers → ℕ
has_fd a = if a.created then 1 else if a.opened then 1 else 0

abbrev is_there : Answers → Bool
is_there a =
    if a.created
    then (if a.truncated then a.mapped else false)
    else (if a.opened then a.mapped else false)

abbrev bit : Bool → ℕ
bit true = 1
bit false = 0

-- A ring is there exactly if every call that was made for it succeeded; one that is not there has
-- had its descriptor closed, if there was one, and its name removed, if this process created it.
pub init_ring_cleans_up :
    (r : Ring) (a : Answers)
    → let (calls, ok) = pdes_comm_init_ring r a in
      (ok ≡ is_there a)
      × (closes r calls ≡ (if ok then 0 else has_fd a))
      × (unlinks r calls ≡ (if ok then 0 else bit a.created))
      × (unmaps r calls ≡ 0)
      × (frees calls ≡ 0)
unfolding pdes_comm_init_ring
init_ring_cleans_up send_ring a = ground arith
init_ring_cleans_up recv_ring a = ground arith

-- The outcome of `pdes_comm_create`, then of `pdes_comm_destroy`, in calls for each ring.
abbrev pub CleansUp : Answers → Answers → Type 0
CleansUp s r =
    let (calls, ok) = pdes_comm_create s r in
    (ok ≡ (if is_there s then is_there r else false))
    × (closes send_ring calls ≡ (if ok then 0 else has_fd s))
    × (closes recv_ring calls ≡ (if ok then 0 else if is_there s then has_fd r else 0))
    × (unmaps send_ring calls ≡ (if ok then 0 else bit (is_there s)))
    × (unmaps recv_ring calls ≡ 0)
    × (frees calls ≡ (if ok then 0 else 1))
    × (closes send_ring pdes_comm_destroy ≡ 1)
    × (closes recv_ring pdes_comm_destroy ≡ 1)
    × (unmaps send_ring pdes_comm_destroy ≡ 1)
    × (unmaps recv_ring pdes_comm_destroy ≡ 1)
    × (frees pdes_comm_destroy ≡ 1)

-- `pdes_comm_create` succeeds exactly if both rings are there. If it fails no descriptor stays
-- open, no ring stays mapped and the communicator is freed once; if it succeeds nothing is closed,
-- unmapped or freed, and `pdes_comm_destroy` then closes and unmaps each ring once.
pub create-CleansUp : (s r : Answers) → CleansUp s r
unfolding pdes_comm_create pdes_comm_destroy
create-CleansUp s r = ground arith
