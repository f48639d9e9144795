-- ===== src/Checkpoint/Protocol/Order.antt =====
-- The master's request, and what the follower does when it is told.
use mathlib.Core.Path.{subst}
use qemu_pdes.Base.{
  ℕ, ◌+◌, ◌≡◌, refl, sym, ap, ◌∙◌, Option, none, some, Bool, true, false, not, ◌&&◌, List,
  if◌then◌else◌, leb, ◌==◌, arith,
}
use qemu_pdes.Comm.Message.{Message, read_at}
use qemu_pdes.Node.{Node}
use qemu_pdes.Node.Monad.{M, pure, lift, set_engine, skip, ◌>>=◌}
use qemu_pdes.Node.Always.{Always, Keeps, Always-map, if-Always, lift-Always}
use qemu_pdes.Engine.Process.{
  on_drain_start, parse_drain_start, on_checkpoint_init, set_checkpoint_values_for_master,
  drain_name_len, finish_initiate_checkpoint, send_initiate_checkpoint_message,
}
use qemu_pdes.Base.Bytes.{of_le_bytes}
use qemu_pdes.Base.Word.{signed_le32, u32}
use qemu_pdes.Checkpoint.Protocol.{
  View, view, Exchange, Star, From, more, request, announced_round, announced_name, bytes_of,
  number_of,
}
use qemu_pdes.Checkpoint.Protocol.Frame.{Shows, view_of}
use qemu_pdes.Checkpoint.Protocol.Quiet.{Quiet, initiate-Quiet}

-- Each node shows its own view.
pub shows : (n : Node) → Shows (view n) n
shows n = record {
  master = refl;
  connected = refl;
  needs = refl;
  notified = refl;
  target = refl;
  name = refl;
  bh = refl;
  should_sync = refl;
  finished = refl;
  waiting = refl;
  round = refl;
  told = refl;
  heard = refl;
  coming = refl;
  saved = refl;
}

pub Shows-as : {v : View} {k : Node} → view k ≡ v → Shows v k
Shows-as {v} {k} e = subst (λ w. Shows w k) e (shows k)

pub Quiet-Keeps : {A : Type 0} (Q : View → Type 0) (m : M A) → Quiet m → Keeps (λ k. Q (view k)) m
Quiet-Keeps Q m q n p =
    Always-map (Shows (view n)) (λ k. Q (view k)) (m n) (q (view n) n (shows n))
      (λ k s. rw (view_of s) p)

pub Quiet-From : {A : Type 0} (m : M A) → Quiet m → (v : View) → Keeps (From Exchange v) m
Quiet-From m q v = Quiet-Keeps (Star Exchange v) m q

-- The master's request.
set_values-From :
    (v : View) (n : Node)
    → n.engine.master ≡ true
    → From Exchange v n
    → Always (From Exchange v) (set_checkpoint_values_for_master n)
unfolding set_checkpoint_values_for_master
set_values-From v n e p = more p (request e refl)

pub init-From : (v : View) → Keeps (From Exchange v) on_checkpoint_init
unfolding on_checkpoint_init
init-From v n p =
    let first = (u32 (n.engine.init_flag + 1) == 1) && n.engine.master_init in
    let n' = record n { engine = record n.engine { init_flag = u32 (n.engine.init_flag + 1) } } in
    if-Always (From Exchange v) (n.engine.master && first) set_checkpoint_values_for_master skip n'
      (λ e. set_values-From v n' (ground (arith, e)) p) (λ e. p)

pub finish_initiate-From : (v : View) → Keeps (From Exchange v) finish_initiate_checkpoint
unfolding finish_initiate_checkpoint
finish_initiate-From v n p =
    let n' = record n { engine = record n.engine { master_init = true } } in
    if-Always (From Exchange v) n.engine.master _ _ n
      (λ e.
        if-Always (From Exchange v) (signed_le32 1 n.engine.init_flag)
          set_checkpoint_values_for_master skip n' (λ f. set_values-From v n' e p) (λ f. p))
      (λ e. Quiet-From send_initiate_checkpoint_message initiate-Quiet v n p)

-- The end of the handling of an announcement.
pub data Handled (m : Message) (n k : Node) : Type 0 where
  ignored : n.engine.master ≡ true → view k ≡ view n → Handled m n k
  followed :
      n.engine.master ≡ false
      → view k
        ≡ record (view n) { needs = true; target = announced_round m; name = announced_name m }
      → Handled m n k

-- Where the round is read to, and what is done with it.
abbrev store : ℕ → ℕ → M (Unit {0})
store format round =
    set_engine (λ e. record e { checkpoint_format = format; checkpoint_quantum_round = round })

followed_with :
    (m : Message) (n k : Node) (format round : ℕ)
    → view k ≡ record (view n) { needs = true; name = announced_name m }
    → n.engine.master ≡ false
    → round ≡ announced_round m
    → Always (Handled m n) (store format round k)
followed_with m n k format round s e r =
    followed e (ap (λ (w : View). record w { target = round }) s ∙ rw r refl)

-- Whether the message is long enough, and what is read of it then.
store-Handled :
    (m : Message) (n k : Node) (format : ℕ) (long : Bool) (o : Option (List ℕ))
    → view k ≡ record (view n) { needs = true; name = announced_name m }
    → n.engine.master ≡ false
    → (if long then number_of o else 0) ≡ announced_round m
    → Always (Handled m n) (
        ((if long then (do bytes ← lift o; pure (of_le_bytes bytes)) else pure 0) >>= store format)
          k)
store-Handled m n k format true none s e r = tt
store-Handled m n k format true (some bytes) s e r =
    followed_with m n k format (of_le_bytes bytes) s e r
store-Handled m n k format false o s e r = followed_with m n k format 0 s e r

parse-Handled :
    (m : Message) (n k : Node)
    → view k ≡ view n
    → n.engine.master ≡ false
    → Always (Handled m n) (parse_drain_start m k)
unfolding parse_drain_start
parse-Handled m n k s e =
    let P = Handled m n in
    let at = drain_name_len m in
    let k' = record k { engine = record k.engine { needs_to_checkpoint = true } } in
    lift-Always P (read_at m 0 at) _ k' λ name q.
      let l = record k' { engine = record k'.engine { checkpoint_name = name } } in
      lift-Always P (read_at m at 4) _ l λ format _.
        store-Handled m n l (of_le_bytes format) (leb 12 m.len) (read_at m (at + 4) 8)
          (ap (λ (w : View). record w { needs = true; name = name }) s
            ∙ ap (λ (x : List ℕ). record (view n) { needs = true; name = x }) (sym (ap bytes_of q)))
          e refl

pub on_drain_start-Handled : (m : Message) (n : Node) → Always (Handled m n) (on_drain_start m n)
unfolding on_drain_start
on_drain_start-Handled m n =
    let n' = record n { engine = record n.engine { checkpoint_in_progress = true } } in
    if-Always (Handled m n) (not n.engine.master) (parse_drain_start m) _ n'
      (λ e. parse-Handled m n n' refl (ground (arith, e))) (λ e. ignored (ground (arith, e)) refl)
