-- ===== src/System/Wire.antt =====
-- What a node puts on the wire: its sync messages carry the numbers 0, 1, 2, … in order, a packet
-- is not due before the quantum that the syncs ahead of it have opened and has 1 to 2048 bytes, and the master's
-- END_OF_EMULATION comes after its permission.
use qemu_pdes.Base.{
  ℕ, ◌+◌, ◌*◌, ◌^◌, ◌<◌, ◌≤◌, ◌≡◌, refl, Bool, true, false, List, [], ◌∷◌, ◌++◌, arith,
  if◌then◌else◌, ◌==◌,
}
use qemu_pdes.Base.Bytes.{le_bytes}
use qemu_pdes.Comm.Message.{
  Message, max_msg_size, msg_type_normal, msg_type_sync, end_of_emulation, intent_to_end_emulation,
  permission_to_end_emulation,
}
use qemu_pdes.Node.Always.{count_kind}

-- The master is `role ≡ true`; `s` syncs and `p` permissions come before the message.
pub data Good (role : Bool) (q s p : ℕ) (m : Message) : Type 0 where
  good_sync : m.kind ≡ msg_type_sync → m.len ≡ 8 → m.payload ≡ le_bytes 8 s → Good role q s p m
  good_packet :
      m.kind ≡ msg_type_normal
      → s * q ≤ m.ts_ns
      → m.ts_ns < 2 ^ 63
      → 0 < m.len
      → m.len ≤ max_msg_size
      → Good role q s p m
  good_intent : m.kind ≡ intent_to_end_emulation → m.len ≡ 0 → Good role q s p m
  good_permission :
      m.kind ≡ permission_to_end_emulation → m.len ≡ 0 → role ≡ true → Good role q s p m
  good_end : m.kind ≡ end_of_emulation → m.len ≡ 0 → (role ≡ true → 1 ≤ p) → Good role q s p m

abbrev pub is_kind : ℕ → Message → ℕ
is_kind k m = if m.kind == k then 1 else 0

abbrev pub Wire : Bool → ℕ → ℕ → ℕ → List Message → Type 0
Wire role q s p [] = Unit
Wire role q s p (m ∷ ms) =
    Good role q s p m
    × Wire role q (is_kind msg_type_sync m + s) (is_kind permission_to_end_emulation m + p) ms

abbrev pub syncs : List Message → ℕ
syncs ms = count_kind msg_type_sync ms

abbrev pub permissions : List Message → ℕ
permissions ms = count_kind permission_to_end_emulation ms

module _ (role : Bool) (q : ℕ) where
  same-Good : {s t p r : ℕ} {m : Message} → s ≡ t → p ≡ r → Good role q s p m → Good role q t r m
  same-Good e f g = rw (← e, ← f) g

  pub Wire-snoc :
      (s p : ℕ) (ms : List Message) (m : Message)
      → Wire role q s p ms
      → Good role q (syncs ms + s) (permissions ms + p) m
      → Wire role q s p (ms ++ (m ∷ []))
  unfolding count_kind
  Wire-snoc s p [] m w g = (same-Good (omega arith) (omega arith) g, tt)
  Wire-snoc s p (x ∷ ms) m w g = (
    w.0,
    Wire-snoc (is_kind msg_type_sync x + s) (is_kind permission_to_end_emulation x + p) ms m w.1
        (same-Good (omega arith) (omega arith) g),
  )

  pub Wire-at :
      (s p : ℕ) (pre : List Message) (m : Message) (post : List Message)
      → Wire role q s p (pre ++ (m ∷ post))
      → Good role q (syncs pre + s) (permissions pre + p) m
  unfolding count_kind
  Wire-at s p [] m post w = same-Good (omega arith) (omega arith) w.0
  Wire-at s p (x ∷ pre) m post w = same-Good (omega arith) (omega arith) (
      Wire-at (is_kind msg_type_sync x + s) (is_kind permission_to_end_emulation x + p) pre m post
        w.1)

  is_permission-Good :
      {s p : ℕ} {m : Message}
      → role ≡ false
      → Good role q s p m
      → is_kind permission_to_end_emulation m ≡ 0
  is_permission-Good e (good_sync k l b) = ground arith
  is_permission-Good e (good_packet k l b y z) = ground arith
  is_permission-Good e (good_intent k l) = ground arith
  is_permission-Good e (good_permission k l r) = ground arith
  is_permission-Good e (good_end k l r) = ground arith

  -- The follower gives no permission.
  pub permissions-Wire :
      (s p : ℕ) (ms : List Message) → role ≡ false → Wire role q s p ms → permissions ms ≡ 0
  unfolding count_kind
  permissions-Wire s p [] e w = refl
  permissions-Wire s p (m ∷ ms) e w = omega (
    arith,
    is_permission-Good e w.0,
    permissions-Wire (is_kind msg_type_sync m + s) (is_kind permission_to_end_emulation m + p) ms e
        w.1,
  )
