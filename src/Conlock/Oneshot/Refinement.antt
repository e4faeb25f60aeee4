-- ===== src/Conlock/Oneshot/Refinement.antt =====
-- The detailed steps against the table of transfers.
use forwardr.Base.{
  ℕ, ◌≡◌, refl, subst, Bool, true, ◌==◌, some, All-get_elem?, get_elem?, total-remove_at,
  Option-cases, inl, inr, arith,
}
use forwardr.Conlock.Status.{status_bit}
use forwardr.Conlock.Oneshot.Inner.{Inner, ok}
use forwardr.Conlock.Oneshot.Sender.{SenderPc, held, sender_step}
use forwardr.Conlock.Oneshot.Recv.{RecvPc, recv_step, woken}
use forwardr.Conlock.Oneshot.Receiver.{ReceiverPc, receiver_step}
use forwardr.Conlock.Oneshot.System.{System, Action, act, update_recv, begin, finish}
use forwardr.Conlock.Oneshot.Invariant.Defs.{
  known, SenderOk, RecvOk, ReceiverOk, is_active, receiver_view, receiver-ReceiverBounds,
}
use forwardr.Conlock.Oneshot.Invariant.Steps.{Inv}
use forwardr.Conlock.Oneshot.Invariant.Start.{Reachable, Reachable-Inv}
use forwardr.Conlock.Oneshot.Table.{transfers, sender_role, receiver_role, role_of, Role}
use forwardr.Conlock.Oneshot.Ledger.{Allows, Allows->>=}

eq_self : (w : ℕ) → (w == w) ≡ true
eq_self w = ground arith

still : (role : Role) (w : ℕ) → transfers role w w ≡ true
still role w = rw (eq_self w) refl

module _ {A W : Type 0} where
  abbrev Within : {X : Type 0} → Role → Inner A W → Inner A W × X → Type 0
  Within role m q = transfers role m.state q.0.state ≡ true

  sender-Within :
      (sp : Bool) (m : Inner A W) (p : SenderPc A)
      → known m.state ≡ true
      → SenderOk m p
      → Allows (Within (sender_role p) m) (sender_step sp m p)
  unfolding sender_step
  sender-Within sp m held kn k = ground arith
  sender-Within sp m p kn k = ground arith

  recv-Within :
      (sp : Bool) (m : Inner A W) (p : RecvPc A)
      → known m.state ≡ true
      → RecvOk m.state p
      → (m.state ≡ 28 → is_active p ≡ 0)
      → Allows (Within Role.by_recv m) (recv_step sp m p)
  unfolding recv_step
  recv-Within sp m RecvPc.idle kn k h = ground arith
  recv-Within sp m p kn k h = ground arith

  receiver-Within :
      (ww : W → W → Bool) (sp : Bool) (m : Inner A W) (p : ReceiverPc A W)
      → known m.state ≡ true
      → ReceiverOk m p
      → (m.state ≡ 4 → (receiver_view p).busy ≡ 0)
      → (m.state ≡ 28 → (receiver_view p).polling ≡ 1)
      → Allows (Within (receiver_role p) m) (receiver_step ww sp m p)
  unfolding receiver_step
  receiver-Within ww sp m ReceiverPc.free kn k h g = ground arith
  receiver-Within ww sp m p kn k h g = ground arith

  update_recv-mem :
      (i : ℕ) (f : RecvPc A → RecvPc A) (s : System A W) → (update_recv i f s).mem ≡ s.mem
  update_recv-mem i f s = elim (Option-cases (get_elem? s.recvs i)) [
    | inl e ↦ rw (e, update_recv) refl
    | inr (p, e) ↦ rw (e, update_recv) refl
  ]

  abbrev Moves : Role → System A W → System A W → Type 0
  Moves role s s' = transfers role s.mem.state s'.mem.state ≡ true

  update_recv-Moves :
      (i : ℕ) (f : RecvPc A → RecvPc A) (s : System A W) → Moves Role.by_none s (update_recv i f s)
  update_recv-Moves i f s = rw (update_recv-mem i f s) (still Role.by_none s.mem.state)

  -- Of an invariant state: no poll is open while a thread is in `recv`, and none in `recv` while the
  -- receiver is taken alone.
  module _ {s : System A W} (v : Inv s) where
    pub unpolled :
        (i : ℕ) {p : RecvPc A} → get_elem? s.recvs i ≡ some p → s.mem.state ≡ 28 → is_active p ≡ 0
    unpolled i e w = ground (
      arith,
      v.owned.polled w,
      v.owned.apart,
      total-remove_at is_active s.recvs i e,
      receiver-ReceiverBounds s.receiver,
    )

    pub unattended : s.mem.state ≡ 4 → (receiver_view s.receiver).busy ≡ 0
    unattended w = ground (arith, v.owned.attended w, v.owned.apart)

  act-Moves :
      (ww : W → W → Bool) (a : Action A W) (s : System A W)
      → Inv s
      → Allows (Moves (role_of a s) s) (act ww a s)
  unfolding act
  act-Moves ww (Action.call_send v) s i = ground (arith, still Role.by_none s.mem.state)
  act-Moves ww Action.call_drop_sender s i = ground (arith, still Role.by_none s.mem.state)
  act-Moves ww (Action.run_sender sp) s i =
      Allows->>= _ (Moves (sender_role s.sender) s) (sender_step sp s.mem s.sender) _
        (sender-Within sp s.mem s.sender i.owned.is_known i.sender_ok) (λ q h. h)
  act-Moves ww (Action.call_recv n) s i =
      ground (arith, still Role.by_none s.mem.state, update_recv-Moves n begin s)
  act-Moves ww (Action.run_recv n sp) s i = elim (Option-cases (get_elem? s.recvs n)) [
    | inl e ↦ rw (e, Allows) (still Role.by_recv s.mem.state)
    | inr (p, e) ↦
        rw (e, Allows)
          (Allows->>= _ (Moves Role.by_recv s) (recv_step sp s.mem p) _
            (recv-Within sp s.mem p i.owned.is_known
              (All-get_elem? (RecvOk s.mem.state) s.recvs n i.recvs_ok e) (unpolled i n e))
            (λ q h. h))
  ]
  act-Moves ww (Action.wake_recv n) s i = update_recv-Moves n woken s
  act-Moves ww (Action.end_recv n) s i = update_recv-Moves n finish s
  act-Moves ww (Action.call_poll cx) s i = ground (arith, still Role.by_none s.mem.state)
  act-Moves ww (Action.run_receiver sp) s i =
      Allows->>= _ (Moves (receiver_role s.receiver) s) (receiver_step ww sp s.mem s.receiver) _
        (receiver-Within ww sp s.mem s.receiver i.owned.is_known i.receiver_ok (unattended i)
          i.owned.polled)
        (λ q h. h)
  act-Moves ww Action.end_poll s i = ground (arith, still Role.by_none s.mem.state)
  act-Moves ww Action.call_drop_receiver s i = ground (arith, still Role.by_none s.mem.state)

-- Each access from a reachable state leaves the status word as it is, or changes it along a row of the
-- README's table of transfers that the column of the call, which the thread is in, allows, or, for the
-- receiver's drop, from 10000 to 00000. Any other action leaves the word as it is.
pub act-refines-table :
    {A W : Type 0} (will_wake : W → W → Bool) {s s' : System A W} (a : Action A W)
    → Reachable will_wake s
    → act will_wake a s ≡ ok s'
    → transfers (role_of a s) s.mem.state s'.mem.state ≡ true
act-refines-table will_wake {s} {s'} a r e =
    subst (Allows (Moves (role_of a s) s)) e (act-Moves will_wake a s (Reachable-Inv will_wake r))
