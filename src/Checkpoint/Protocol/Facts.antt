-- ===== src/Checkpoint/Protocol/Facts.antt =====
-- What holds of a node in every state that the machine of `Checkpoint.Protocol` comes to.
use mathlib.Core.Path.{subst}
use qemu_pdes.Base.{
  ℕ, ◌^◌, ◌<◌, ◌≡◌, refl, sym, ap, ◌∙◌, Bool, true, false, not, List, [], ◌∷◌, ◌++◌, All, arith,
}
use qemu_pdes.Comm.Message.{Message}
use qemu_pdes.Node.{Bh, no_bh, idle, scheduled}
use qemu_pdes.Engine.Pause.{is_null}
use qemu_pdes.Engine.Process.{init_warmed}
use qemu_pdes.Wwt.Drain.{drain_prefix}
use qemu_pdes.Checkpoint.Boundary.Outcome.{c_str-init_warmed}
use qemu_pdes.Checkpoint.Protocol.{
  View, Exchange, announce, stay_silent, request, order, ignore, Move, exchange, finish, wait,
  stop_waiting, stop, pass, leave, Star, announced_round, announced_name,
}
use qemu_pdes.Checkpoint.Protocol.Stars.{Star-Keeps, needs_on, round_on}

-- A bottom half that is to take the checkpoint at the end of the quantum, and to go on.
abbrev pub goes_on : Bh Bool → Bool
goes_on no_bh = false
goes_on (idle exit_after) = not exit_after
goes_on (scheduled exit_after) = not exit_after

-- The name of the follower's snapshot.
abbrev pub follower_name : List ℕ
follower_name = drain_prefix ++ init_warmed

-- Every announcement carries one round, and that name.
abbrev pub Says : ℕ → List Message → Type 0
Says r ms = All (λ m. (announced_round m ≡ r) × (announced_name m ≡ follower_name)) ms

Says-snoc :
    (r : ℕ) (ms : List Message) (m : Message)
    → Says r ms
    → (announced_round m ≡ r) × (announced_name m ≡ follower_name)
    → Says r (ms ++ (m ∷ []))
Says-snoc r [] m h e = (e, tt)
Says-snoc r (x ∷ ms) m h e = (h.0, Says-snoc r ms m h.1 e)

pub Says-init : (r : ℕ) (ms : List Message) (m : Message) → Says r (ms ++ (m ∷ [])) → Says r ms
Says-init r [] m h = tt
Says-init r (x ∷ ms) m h = (h.0, Says-init r ms m h.1)

Says-last :
    (r : ℕ) (ms : List Message) (m : Message)
    → Says r (ms ++ (m ∷ []))
    → (announced_round m ≡ r) × (announced_name m ≡ follower_name)
Says-last r [] m h = h.0
Says-last r (x ∷ ms) m h = Says-last r ms m h.1

-- Of both nodes.
pub record Common (v : View) : Type 0 where
  pub waits : v.waiting ≡ true → v.finished ≡ true
  pub pending : is_null v.bh ≡ false → v.needs ≡ true
  pub small : v.round < 2 ^ 64

-- A master stays in the round of its checkpoint, and announces no other.
pub record Master (v : View) : Type 0 where
  pub common : Common v
  pub role : v.master ≡ true
  pub at : v.needs ≡ true → v.target ≡ v.round
  pub stopped : goes_on v.bh ≡ true → v.finished ≡ true
  pub name : v.needs ≡ true → v.name ≡ init_warmed
  pub unsaid : v.needs ≡ false → v.told ≡ []
  pub says : Says v.round v.told

-- A follower that is told of one round stops in it.
pub record Follower (r : ℕ) (v : View) : Type 0 where
  pub common : Common v
  pub role : v.master ≡ false
  pub at : Says r v.heard → v.needs ≡ true → (v.target ≡ r) × (v.name ≡ follower_name)
  pub stopped :
      Says r v.heard
      → goes_on v.bh ≡ true
      → (v.finished ≡ true) × (v.should_sync ≡ true → v.round ≡ r)

Master-exchange : (v t : View) → Exchange v t → Master v → Master t
Master-exchange v t (announce m n round a e) i = subst Master (sym e) (record {
  common = ground (arith, i.common);
  role = i.role;
  at = i.at;
  stopped = i.stopped;
  name = i.name;
  unsaid = λ off. absurd (ground (arith, n, off));
  says =
      Says-snoc v.round v.told m i.says
        (round i.common.small, a ∙ rw (i.name n, c_str-init_warmed) refl);
})
Master-exchange v t (stay_silent n long e) i = subst Master (sym e) (ground (arith, i))
Master-exchange v t (request m e) i = subst Master (sym e) (ground (arith, i))
Master-exchange v t (order m f e) i = absurd (ground (arith, f, i.role))
Master-exchange v t (ignore m e) i = subst Master (sym e) (ground (arith, i))

Master-move : (v t : View) → Move v t → Master v → Master t
Master-move v t (exchange x) i = Master-exchange v t x i
Master-move v t (finish e) i = subst Master (sym e) (ground (arith, i))
Master-move v t (wait f e) i = subst Master (sym e) (ground (arith, i))
Master-move v t (stop_waiting e) i = subst Master (sym e) (ground (arith, i))
Master-move v t (stop w n at e) i = subst Master (sym e) (ground (arith, i))
Master-move v t (pass w free e) i =
    let off : v.needs ≡ false = ground (arith, i.at, free) in
    subst Master (sym e) (record {
      common = ground (arith, i.common, off);
      role = i.role;
      at = λ n. absurd (ground (arith, n, off));
      stopped = λ b. absurd (ground (arith, b, off, i.common.pending));
      name = λ n. absurd (ground (arith, n, off));
      unsaid = i.unsaid;
      says = rw (i.unsaid off) tt;
    })
Master-move v t (leave n e) i = subst Master (sym e) (ground (arith, i))

pub Master-moves : (v t : View) → Star Move v t → Master v → Master t
Master-moves v t = Star-Keeps Master Master-move

module _ (r : ℕ) where
  Follower-exchange : (v t : View) → Exchange v t → Follower r v → Follower r t
  Follower-exchange v t (announce m n round a e) i = subst (Follower r) (sym e) (ground (arith, i))
  Follower-exchange v t (stay_silent n long e) i = subst (Follower r) (sym e) (ground (arith, i))
  Follower-exchange v t (request m e) i = absurd (ground (arith, m, i.role))
  Follower-exchange v t (order m f e) i = subst (Follower r) (sym e) (record {
    common = ground (arith, i.common);
    role = i.role;
    at = λ h n. Says-last r v.heard m h;
    stopped = λ h. i.stopped (Says-init r v.heard m h);
  })
  Follower-exchange v t (ignore m e) i = subst (Follower r) (sym e) (record {
    common = ground (arith, i.common);
    role = i.role;
    at = λ h. i.at (Says-init r v.heard m h);
    stopped = λ h. i.stopped (Says-init r v.heard m h);
  })

  Follower-move : (v t : View) → Move v t → Follower r v → Follower r t
  Follower-move v t (exchange x) i = Follower-exchange v t x i
  Follower-move v t (finish e) i = subst (Follower r) (sym e) (ground (arith, i))
  Follower-move v t (wait f e) i = subst (Follower r) (sym e) (ground (arith, i))
  Follower-move v t (stop_waiting e) i = subst (Follower r) (sym e) (ground (arith, i))
  Follower-move v t (stop w n at e) i = subst (Follower r) (sym e) (ground (arith, i, at))
  Follower-move v t (pass w free e) i = subst (Follower r) (sym e) (record {
    common = ground (arith, i.common);
    role = i.role;
    at = i.at;
    stopped = λ h b.
        let n : v.needs ≡ true = ground (arith, i.common.pending, b) in
        absurd (ground (arith, n, (i.at h n).0, i.stopped h b, free n));
  })
  Follower-move v t (leave n e) i = subst (Follower r) (sym e) (ground (arith, i))

  pub Follower-moves : (v t : View) → Star Move v t → Follower r v → Follower r t
  Follower-moves v t = Star-Keeps (Follower r) Follower-move

-- A master that needs a checkpoint keeps to its round.
pub record Settled (r : ℕ) (v : View) : Type 0 where
  pub master : Master v
  pub needs : v.needs ≡ true
  pub round : v.round ≡ r

module _ (r : ℕ) where
  Settled-exchange : (v t : View) → Exchange v t → Settled r v → Settled r t
  Settled-exchange v t x i = record {
    master = Master-exchange v t x i.master;
    needs = needs_on v t x i.needs;
    round = round_on v t x ∙ i.round;
  }

  settle :
      (v t : View) → Move v t → t.needs ≡ v.needs → t.round ≡ v.round → Settled r v → Settled r t
  settle v t x n e i = record {
    master = Master-move v t x i.master;
    needs = n ∙ i.needs;
    round = e ∙ i.round;
  }

  Settled-move : (v t : View) → Move v t → Settled r v → Settled r t
  Settled-move v t (exchange x) i = Settled-exchange v t x i
  Settled-move v t (finish e) i =
      settle v t (finish e) (ap (λ (w : View). w.needs) e) (ap (λ (w : View). w.round) e) i
  Settled-move v t (wait f e) i =
      settle v t (wait f e) (ap (λ (w : View). w.needs) e) (ap (λ (w : View). w.round) e) i
  Settled-move v t (stop_waiting e) i =
      settle v t (stop_waiting e) (ap (λ (w : View). w.needs) e) (ap (λ (w : View). w.round) e) i
  Settled-move v t (stop w n at e) i =
      settle v t (stop w n at e) (ap (λ (w : View). w.needs) e) (ap (λ (w : View). w.round) e) i
  Settled-move v t (pass w free e) i = absurd (ground (arith, i.master.at i.needs, free i.needs))
  Settled-move v t (leave n e) i =
      settle v t (leave n e) (ap (λ (w : View). w.needs) e) (ap (λ (w : View). w.round) e) i

  pub Settled-moves : (v t : View) → Star Move v t → Settled r v → Settled r t
  Settled-moves v t = Star-Keeps (Settled r) Settled-move
