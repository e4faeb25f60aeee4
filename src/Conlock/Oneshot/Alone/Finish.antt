-- ===== src/Conlock/Oneshot/Alone/Finish.antt =====
-- A call that has begun, run by its thread alone, with exchanges that fail only for a reason.
use mathlib.Core.Option
use forwardr.Base.{
  Option-cases, ℕ, zero, suc, ◌-◌, ◌≤◌, ◌≡◌, inl, inr, refl, ap, ◌∙◌, Option, All-get_elem?,
  get_elem?-set, Bool, true, false, some, none, replicate, get_elem?, arith,
}
use forwardr.Conlock.Oneshot.Inner.{Outcome, ok, fault}
use forwardr.Conlock.Oneshot.Sender.{SenderPc, gone, sender_step}
use forwardr.Conlock.Oneshot.Receiver.{ReceiverPc, poll_returned, receiver_step}
use forwardr.Conlock.Oneshot.Recv.{RecvPc, parked, returned, recv_step}
use forwardr.Conlock.Oneshot.System.{System, Action, is_idle, act, run}
use forwardr.Conlock.Oneshot.Invariant.Defs.{Ensures, RecvOk}
use forwardr.Conlock.Oneshot.Invariant.Steps.{Inv, Ensures->>=, act-Inv}
use forwardr.Conlock.Oneshot.Invariant.Start.{Reachable, Reachable-Inv}
use forwardr.Conlock.Oneshot.Ledger.{Allows, Allows->>=}
use forwardr.Conlock.Oneshot.Refinement.{unattended, unpolled}
use forwardr.Conlock.Oneshot.Alone.Sends.{sender_left, is_held, SenderNearer, sender_step-nearer}
use forwardr.Conlock.Oneshot.Alone.Receives.{
  recv_left, RecvNearer, recv_step-nearer, receiver_left, call_kind, ReceiverNearer,
  receiver_step-nearer,
}

Ensures-Allows :
    {X : Type 0} (P Q : X → Type 0) (x : Outcome X)
    → Ensures P x
    → Allows Q x
    → Ensures (λ a. P a × Q a) x
Ensures-Allows P Q (ok a) p q = (p, q)
Ensures-Allows P Q (fault e) p q = p

Ensures-value :
    {X : Type 0} (P : X → Type 0) (x : Outcome X) → Ensures P x → (a : X) × (x ≡ ok a) × P a
Ensures-value P (ok a) h = (a, refl, h)
Ensures-value P (fault e) h = elim h [ ]

module _ {A W : Type 0} (ww : W → W → Bool) where
  -- An action that brings its thread nearer to the end, whenever `P` holds, ends in as many turns.
  solo-ends :
      (a : Action A W) (left : System A W → ℕ) (P : System A W → Type 0)
      → ((s : System A W) → Inv s → P s → Allows (λ t. (left t ≤ left s - 1) × P t) (act ww a s))
      → (n : ℕ) (s : System A W) → left s ≤ n
      → Inv s
      → P s
      → Ensures (λ t. (left t ≡ 0) × P t) (run ww (replicate n a) s)
  unfolding run
  solo-ends a left P nearer zero s few i p = (omega arith, p)
  solo-ends a left P nearer (suc n) s few i p =
      Ensures->>= (λ t. Inv t × ((left t ≤ left s - 1) × P t)) _ (act ww a s) _
        (Ensures-Allows Inv (λ t. (left t ≤ left s - 1) × P t) (act ww a s) (act-Inv ww a s i)
          (nearer s i p))
        (λ t (j, (le, q)). solo-ends a left P nearer n t (omega arith) j q)

  solo_finish :
      (a : Action A W) (left : System A W → ℕ) (P : System A W → Type 0)
      → ((s : System A W) → Inv s → P s → Allows (λ t. (left t ≤ left s - 1) × P t) (act ww a s))
      → (n : ℕ) (s : System A W) → left s ≤ n
      → Inv s
      → P s
      → (t : System A W) × (run ww (replicate n a) s ≡ ok t) × ((left t ≡ 0) × P t)
  solo_finish a left P nearer n s few i p =
      Ensures-value (λ t. (left t ≡ 0) × P t) (run ww (replicate n a) s)
        (solo-ends a left P nearer n s few i p)

  sender-nearer :
      (k : Bool) (s : System A W)
      → Inv s
      → is_held s.sender ≡ k
      → Allows
          (λ t.
            (sender_left t.mem.state t.sender ≤ sender_left s.mem.state s.sender - 1)
            × (is_held t.sender ≡ k))
          (act ww (Action.run_sender false) s)
  unfolding act
  sender-nearer k s i h =
      Allows->>= (SenderNearer s.mem.state s.sender) _ (sender_step false s.mem s.sender) _
        (sender_step-nearer s.mem s.sender i.owned.is_known i.sender_ok)
        (λ q (le, same). (le, same ∙ h))

  receiver-nearer :
      (k : ℕ) (s : System A W)
      → Inv s
      → call_kind s.receiver ≡ k
      → Allows
          (λ t.
            (receiver_left t.mem.state t.receiver ≤ receiver_left s.mem.state s.receiver - 1)
            × (call_kind t.receiver ≡ k))
          (act ww (Action.run_receiver false) s)
  unfolding act
  receiver-nearer k s i h =
      Allows->>= (ReceiverNearer s.mem.state s.receiver) _ (receiver_step ww false s.mem s.receiver)
        _
        (receiver_step-nearer ww s.mem s.receiver i.owned.is_known i.receiver_ok (unattended i)
          i.owned.polled)
        (λ q (le, same). (le, omega (arith, same, h)))

sender_left_bound : {A : Type 0} (w : ℕ) (p : SenderPc A) → sender_left w p ≤ 8
sender_left_bound w p = ground arith

-- No call of the sender is under way; none of the receiver; none of a thread in `recv`, or it sleeps.
abbrev pub sender_rests : {A : Type 0} → SenderPc A → Bool
sender_rests SenderPc.held = true
sender_rests gone = true
sender_rests _ = false

abbrev pub receiver_rests : {A W : Type 0} → ReceiverPc A W → Bool
receiver_rests ReceiverPc.free = true
receiver_rests (poll_returned _) = true
receiver_rests ReceiverPc.gone = true
receiver_rests _ = false

abbrev pub recv_rests : {A : Type 0} → Option (RecvPc A) → Bool
recv_rests none = true
recv_rests (some RecvPc.idle) = true
recv_rests (some parked) = true
recv_rests (some (returned _)) = true
recv_rests (some _) = false

sender_left_rests :
    {A : Type 0} (w : ℕ) (p : SenderPc A) → sender_left w p ≡ 0 → sender_rests p ≡ true
sender_left_rests w p z = ground arith

receiver_left_bound : {A W : Type 0} (w : ℕ) (p : ReceiverPc A W) → receiver_left w p ≤ 8
receiver_left_bound w p = ground arith

receiver_left_rests :
    {A W : Type 0} (w : ℕ) (p : ReceiverPc A W) → receiver_left w p ≡ 0 → receiver_rests p ≡ true
receiver_left_rests w p z = ground arith

-- What is left for a thread in `recv`; one that is not there has nothing to do.
abbrev recv_left_at : {A W : Type 0} → ℕ → System A W → ℕ
recv_left_at n s = elim (get_elem? s.recvs n) [ none ↦ 0 | some p ↦ recv_left s.mem.state p ]

abbrev pub called_at : {A W : Type 0} → ℕ → System A W → Option Bool
called_at n s = Option.map is_idle (get_elem? s.recvs n)

recv_left_bound : {A : Type 0} (w : ℕ) (p : RecvPc A) → recv_left w p ≤ 8
recv_left_bound w p = ground arith

recv_left_rests :
    {A : Type 0} (w : ℕ) (p : RecvPc A) → recv_left w p ≡ 0 → recv_rests (some p) ≡ true
recv_left_rests w p z = ground arith

module _ {A W : Type 0} (n : ℕ) (s : System A W) where
  recv_left_at_bound : recv_left_at n s ≤ 8
  recv_left_at_bound = elim (Option-cases (get_elem? s.recvs n)) [
    | inl e ↦ rw (recv_left_at, e) (ground arith)
    | inr (p, e) ↦ rw (recv_left_at, e) (recv_left_bound s.mem.state p)
  ]

  recv_left_at_rests : recv_left_at n s ≡ 0 → recv_rests (get_elem? s.recvs n) ≡ true
  recv_left_at_rests z = elim (Option-cases (get_elem? s.recvs n)) [
    | inl e ↦ rw e refl
    | inr (p, e) ↦ rw e (recv_left_rests s.mem.state p (rw (recv_left_at, e) at z))
  ]

recv-nearer :
    {A W : Type 0} (ww : W → W → Bool) (n : ℕ) (k : Option Bool) (s : System A W)
    → Inv s
    → called_at n s ≡ k
    → Allows
        (λ t. (recv_left_at n t ≤ recv_left_at n s - 1) × (called_at n t ≡ k))
        (act ww (Action.run_recv n false) s)
unfolding act
recv-nearer ww n k s i h = elim (Option-cases (get_elem? s.recvs n)) [
  | inl e ↦ rw (e, Allows) (rw (recv_left_at, e) (omega arith), h)
  | inr (p, e) ↦
      rw (e, Allows)
        (Allows->>= (RecvNearer s.mem.state p) _ (recv_step false s.mem p) _
          (recv_step-nearer s.mem p i.owned.is_known
            (All-get_elem? (RecvOk s.mem.state) s.recvs n i.recvs_ok e) (unpolled i n e))
          (λ q (le, same).
            rw (recv_left_at, get_elem?-set s.recvs n q.1 e, e)
              (le, ap some same ∙ rw (called_at, e, Option.map) at h)))
]

module _ {A W : Type 0} (will_wake : W → W → Bool) {s : System A W}
    (r : Reachable will_wake s) where
  sender_finishes :
      (t : System A W) × (run will_wake (replicate 8 (Action.run_sender false)) s ≡ ok t)
      × (sender_rests t.sender ≡ true)
      × (is_held t.sender ≡ is_held s.sender)
  sender_finishes =
      let (t, e, (z, same)) =
        solo_finish will_wake (Action.run_sender false) (λ t. sender_left t.mem.state t.sender)
          (λ t. is_held t.sender ≡ is_held s.sender) (sender-nearer will_wake (is_held s.sender)) 8
          s (sender_left_bound s.mem.state s.sender) (Reachable-Inv will_wake r) refl in
      (t, e, sender_left_rests t.mem.state t.sender z, same)

  receiver_finishes :
      (t : System A W) × (run will_wake (replicate 8 (Action.run_receiver false)) s ≡ ok t)
      × (receiver_rests t.receiver ≡ true)
      × (call_kind t.receiver ≡ call_kind s.receiver)
  receiver_finishes =
      let (t, e, (z, same)) =
        solo_finish will_wake (Action.run_receiver false)
          (λ t. receiver_left t.mem.state t.receiver)
          (λ t. call_kind t.receiver ≡ call_kind s.receiver)
          (receiver-nearer will_wake (call_kind s.receiver)) 8 s
          (receiver_left_bound s.mem.state s.receiver) (Reachable-Inv will_wake r) refl in
      (t, e, receiver_left_rests t.mem.state t.receiver z, same)

  pub recv_finishes :
      (n : ℕ)
      → (t : System A W) × (run will_wake (replicate 8 (Action.run_recv n false)) s ≡ ok t)
        × (recv_rests (get_elem? t.recvs n) ≡ true)
        × (called_at n t ≡ called_at n s)
  recv_finishes n =
      let (t, e, (z, same)) =
        solo_finish will_wake (Action.run_recv n false) (recv_left_at n)
          (λ t. called_at n t ≡ called_at n s) (recv-nearer will_wake n (called_at n s)) 8 s
          (recv_left_at_bound n s) (Reachable-Inv will_wake r) refl in
      (t, e, recv_left_at_rests n t z, same)

  -- From every reachable state, eight accesses of one thread alone, whose weak exchanges fail only for a
  -- reason, end the call that the thread is in: the sender's `send` or drop, with the sender gone; the
  -- receiver's poll or drop; and `recv` of thread `n`, which may end asleep. A thread in no call stays so.
  pub calls_finish :
      (n : ℕ)
      → ((t : System A W) × (run will_wake (replicate 8 (Action.run_sender false)) s ≡ ok t)
          × (sender_rests t.sender ≡ true)
          × (is_held t.sender ≡ is_held s.sender))
        × ((t : System A W) × (run will_wake (replicate 8 (Action.run_receiver false)) s ≡ ok t)
            × (receiver_rests t.receiver ≡ true)
            × (call_kind t.receiver ≡ call_kind s.receiver))
        × ((t : System A W) × (run will_wake (replicate 8 (Action.run_recv n false)) s ≡ ok t)
            × (recv_rests (get_elem? t.recvs n) ≡ true)
            × (called_at n t ≡ called_at n s))
  calls_finish n = (sender_finishes, receiver_finishes, recv_finishes n)
