-- ===== src/Checkpoint/Inflight/Laws.antt =====
-- What the list of messages in flight keeps: its count, and which entry a removal takes.
use mathlib.Core.Option
use qemu_pdes.Base.{
  ℕ, suc, ◌+◌, ◌-◌, ◌^◌, ◌<◌, ◌≤◌, true, false, some, List, [], ◌∷◌, ◌++◌, ◌&&◌, ◌==◌, ◌≡◌, refl,
  ap, arith, length, map, Bool-cases, inl, inr, All, bytes_eq, bytes_eq_refl, bytes_eq→eq, ==_refl,
  ◌⊎◌, length-append, replicate,
}
use qemu_pdes.Base.Word.{u32}
use qemu_pdes.Comm.Message.{Message, max_msg_size, zero_padded, read_at}
use qemu_pdes.Checkpoint.Inflight.{
  ScheduledMessage, Inflight, InflightMessageArray, pdes_inflight_add, same_bytes, matches, removed,
  not_found, remove_first, pdes_inflight_remove, zero_message,
}

-- The count is the length of the list.
pub record IsCounted (s : Inflight) : Type 0 where
  pub counted : s.count ≡ length s.pending
  pub small : length s.pending < 2 ^ 31

-- The same time, the same length, and the same bytes up to it; `payload` is followed by zeros.
pub record Same (m : Message) (t : ℕ) (e : ScheduledMessage) : Type 0 where
  pub time : e.scheduled_time_ns ≡ t
  pub length : e.msg.len ≡ m.len
  pub bytes : zero_padded m.len e.msg.payload ≡ zero_padded m.len m.payload

same_bytes_lem :
    (n : ℕ) (a b : Message)
    → n ≤ max_msg_size
    → same_bytes n a b ≡ some (bytes_eq (zero_padded n a.payload) (zero_padded n b.payload))
unfolding same_bytes read_at
same_bytes_lem n a b h = ground arith

-- With a message that fits its array, the test of the loop finds out whether an entry is the same.
matches-cases :
    (m : Message) (t : ℕ) (e : ScheduledMessage)
    → m.len ≤ max_msg_size
    → ((matches m t e ≡ some true) × Same m t e) ⊎ ((matches m t e ≡ some false) × (Same m t e → ⊥))
unfolding matches
matches-cases m t e h =
    let x = zero_padded m.len e.msg.payload in
    let y = zero_padded m.len m.payload in
    let b = same_bytes_lem m.len e.msg m h in
    elim (Bool-cases ((e.scheduled_time_ns == t) && (e.msg.len == m.len))) [
      | inr misses ↦ inr (ground (arith, misses), λ s. ground (arith, misses, s))
      | inl hits ↦ elim (Bool-cases (bytes_eq x y)) [
        | inl same ↦ inl (
          ground (arith, hits, b, same),
          record {
            time = ground (arith, hits);
            length = ground (arith, hits);
            bytes = bytes_eq→eq x y same;
          },
        )
        | inr other ↦ inr (
          ground (arith, hits, b, other),
          λ s. ground (arith, other, ap (bytes_eq x) s.bytes, bytes_eq_refl x),
        )
      ]
    ]

matches_self :
    (m : Message) (t : ℕ)
    → m.len ≤ max_msg_size
    → matches m t (record { msg = m; scheduled_time_ns = t }) ≡ some true
unfolding matches
matches_self m t h = ground (
  arith,
  ==_refl t,
  ==_refl m.len,
  same_bytes_lem m.len m m h,
  bytes_eq_refl (zero_padded m.len m.payload),
)

add-IsCounted :
    (m : Message) (t : ℕ) {s : Inflight}
    → IsCounted s
    → length s.pending + 1 < 2 ^ 31
    → IsCounted (pdes_inflight_add m t s)
unfolding pdes_inflight_add
add-IsCounted m t c h = ground (arith, c)

-- With the count right and room for one more in an `int`, adding a message keeps the count right, and
-- a message that fits its array is then removed by the same message and time: the list and its count
-- are as before.
pub remove-add :
    (m : Message) (t : ℕ) {s : Inflight}
    → IsCounted s
    → length s.pending + 1 < 2 ^ 31
    → m.len ≤ max_msg_size
    → IsCounted (pdes_inflight_add m t s)
      × (pdes_inflight_remove m t (pdes_inflight_add m t s) ≡ removed s)
unfolding pdes_inflight_remove pdes_inflight_add
remove-add m t {s} c room h = (add-IsCounted m t c room, ground (arith, c, matches_self m t h))

-- The entry that goes is the first one that is the same; all others stay, in order.
pub record Removed (m : Message) (t : ℕ) (l r : List ScheduledMessage) : Type 0 where
  pub before : List ScheduledMessage
  pub entry : ScheduledMessage
  pub behind : List ScheduledMessage
  pub whole : l ≡ before ++ (entry ∷ behind)
  pub left : r ≡ before ++ behind
  pub hit : Same m t entry
  pub first : All (λ e. Same m t e → ⊥) before

module _ (m : Message) (t : ℕ) where
  extend :
      (e : ScheduledMessage) {l r : List ScheduledMessage}
      → (Same m t e → ⊥)
      → Removed m t l r
      → Removed m t (e ∷ l) (e ∷ r)
  extend e other d = record {
    before = e ∷ d.before;
    entry = d.entry;
    behind = d.behind;
    whole = ap (λ (k : List ScheduledMessage). e ∷ k) d.whole;
    left = ap (λ (k : List ScheduledMessage). e ∷ k) d.left;
    hit = d.hit;
    first = (other, d.first);
  }

  -- A removal from a list either finds no entry that is the same, or takes out the first one.
  remove_first-cases :
      m.len ≤ max_msg_size
      → (l : List ScheduledMessage)
      → ((remove_first m t l ≡ not_found) × All (λ e. Same m t e → ⊥) l)
        ⊎ ((r : List ScheduledMessage) × (remove_first m t l ≡ removed r) × Removed m t l r)
  unfolding remove_first
  remove_first-cases h [] = inl (refl, tt)
  remove_first-cases h (e ∷ l) = elim (matches-cases m t e h) [
    | inl (hits, same) ↦ inr (
      l,
      ground (arith, hits),
      record {
        before = [];
        entry = e;
        behind = l;
        whole = refl;
        left = refl;
        hit = same;
        first = tt;
      },
    )
    | inr (misses, other) ↦ elim (remove_first-cases h l) [
      | inl (gone, all) ↦ inl (ground (arith, misses, gone), (other, all))
      | inr (r, found, d) ↦ inr (e ∷ r, ground (arith, misses, found), extend e other d)
    ]
  ]

  Removed-length : {l r : List ScheduledMessage} → Removed m t l r → length l ≡ suc (length r)
  Removed-length d = omega (
    arith,
    ap length d.whole,
    ap length d.left,
    length-append d.before (d.entry ∷ d.behind),
    length-append d.before d.behind,
  )

  -- With the count right and a message that fits its array, `pdes_inflight_remove` reads no array
  -- past its end. It stops at its assertion exactly when no entry has the message's time, length and
  -- bytes; else the first entry that has goes, all others stay, in order, and the count stays right.
  pub remove-cases :
      {s : Inflight}
      → IsCounted s
      → m.len ≤ max_msg_size
      → ((pdes_inflight_remove m t s ≡ not_found) × All (λ e. Same m t e → ⊥) s.pending)
        ⊎ ((s' : Inflight) × (pdes_inflight_remove m t s ≡ removed s')
            × Removed m t s.pending s'.pending
            × IsCounted s')
  unfolding pdes_inflight_remove
  remove-cases {s} c h = elim (remove_first-cases h s.pending) [
    | inl (gone, all) ↦ inl (rw gone refl, all)
    | inr (r, found, d) ↦ inr (
      record { pending = r; count = u32 (s.count + (2 ^ 32 - 1)) },
      rw found refl,
      d,
      ground (arith, c, Removed-length d),
    )
  ]

-- Arrays with an entry in front.
abbrev pushed : Message → ℕ → InflightMessageArray → InflightMessageArray
pushed m t a = record a { messages = m ∷ a.messages; scheduled_times = t ∷ a.scheduled_times }

-- Two arrays of `k` entries after the loop.
abbrev copied : List ScheduledMessage → ℕ → ℕ → InflightMessageArray
copied l k c = record {
  messages = map (λ e. e.msg) l ++ replicate (k - length l) zero_message;
  scheduled_times = map (λ e. e.scheduled_time_ns) l ++ replicate (k - length l) 0;
  count = c;
}
