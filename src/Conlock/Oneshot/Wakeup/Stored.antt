-- ===== src/Conlock/Oneshot/Wakeup/Stored.antt =====
-- Which waker lies in the cell while a poll is about to answer, and whether one was woken before.
use forwardr.Base.{
  ℕ, ◌≡◌, refl, ◌∙◌, Bool-cases, Bool, true, false, ◌⊎◌, inl, inr, some, List, [], ◌∷◌, get_elem?,
  All-get_elem?, total-remove_at, Option-cases, arith,
}
use forwardr.Conlock.Oneshot.Inner.{Inner, Event, Outcome, ok, fault, access}
use forwardr.Conlock.Oneshot.Sender.{SenderPc, sender_step}
use forwardr.Conlock.Oneshot.Recv.{RecvPc, woken, recv_step}
use forwardr.Conlock.Oneshot.Receiver.{ReceiverPc, receiver_step}
use forwardr.Conlock.Oneshot.System.{System, Action, update_recv, begin, finish, act}
use forwardr.Conlock.Oneshot.Invariant.Defs.{
  SenderView, RecvView, ReceiverView, known, RecvOk, open_word, has_waker, Owned, SenderOk,
  ReceiverOk, sender_view, receiver_view, mem_view,
}
use forwardr.Conlock.Oneshot.Invariant.Steps.{Inv}
use forwardr.Conlock.Oneshot.Invariant.Start.{Reachable}
use forwardr.Conlock.Oneshot.Along.{filled_bound, Allows-×, Reachable-along}
use forwardr.Conlock.Oneshot.Ledger.{Allows, Allows->>=}

-- The wakers that were woken, newest first.
abbrev pub wakes : {A W : Type 0} → List (Event A W) → List W
wakes [] = []
wakes (Event.woke w ∷ es) = w ∷ wakes es
wakes (_ ∷ es) = wakes es

-- The stored waker is the one that the poll was given, or wakes the same task.
abbrev pub WakesTask : {W : Type 0} → (W → W → Bool) → W → W → Type 0
WakesTask ww cx w = (w ≡ cx) ⊎ (ww w cx ≡ true)

Allows-access :
    {A W X : Type 0} (P : X → Type 0) (m : Inner A W) (x : Outcome X)
    → Allows P x
    → Allows P (access m x)
Allows-access P m x h = elim (Bool-cases m.freed) [ inl f ↦ rw (f, Allows) tt | inr f ↦ rw f h ]

Allows-map :
    {X : Type 0} (P Q : X → Type 0)
    → ((a : X) → P a → Q a)
    → (x : Outcome X) → Allows P x
    → Allows Q x
Allows-map P Q f (ok a) p = f a p
Allows-map P Q f (fault e) p = tt

-- While a poll holds the waker, no other thread does.
pub waker_owner :
    {A W : Type 0} (m : Inner A W) {s : SenderView} {r : RecvView} {e : ReceiverView}
    → Owned (mem_view m) s r e
    → e.waker ≡ 1
    → (s.waker ≡ 0) × (r.waker ≡ 0)
waker_owner m o h = ground (arith, filled_bound m.waker)

module _ {A W : Type 0} (ww : W → W → Bool) where
  -- Before the poll answers, the waker is in the cell.
  abbrev pub Stored : Inner A W → ReceiverPc A W → Type 0
  Stored m (ReceiverPc.poll_unset _ cx) = (w : W) × (m.waker ≡ some w) × WakesTask ww cx w
  Stored m _ = Unit

  Stored-kept :
      (m m' : Inner A W) (e : ReceiverPc A W)
      → ((receiver_view e).waker ≡ 1 → m'.waker ≡ m.waker)
      → Stored m e
      → Stored m' e
  Stored-kept m m' (ReceiverPc.poll_unset c cx) k (w, h, t) = (w, k refl ∙ h, t)
  Stored-kept m m' e k h = ground arith

  receiver_step-Stored :
      (sp : Bool) (m : Inner A W) (e : ReceiverPc A W)
      → ReceiverOk m e
      → Stored m e
      → Allows (λ q. Stored q.0 q.1) (receiver_step ww sp m e)
  unfolding receiver_step
  receiver_step-Stored sp m (ReceiverPc.poll_update c cx) k h = elim (Option-cases m.waker) [
    | inl e ↦ ground arith
    | inr (w, e) ↦ Allows-access _ m _ (elim (Bool-cases (ww w cx)) [
      | inl t ↦ rw (e, t, Allows) (w, refl, inr t)
      | inr t ↦ rw (e, t, Allows) (cx, refl, inl refl)
    ])
  ]
  receiver_step-Stored sp m (ReceiverPc.poll_write c cx) (k, n) h = ground arith
  receiver_step-Stored sp m (ReceiverPc.poll_unset c cx) k h = ground arith
  receiver_step-Stored sp m e k h = ground arith

  sender_step-waker :
      (sp : Bool) (m : Inner A W) (p : SenderPc A)
      → Allows (λ q. (sender_view p).waker ≡ 0 → q.0.waker ≡ m.waker) (sender_step sp m p)
  unfolding sender_step
  sender_step-waker sp m SenderPc.held = λ n. refl
  sender_step-waker sp m p = ground arith

  recv_step-waker :
      (sp : Bool) (m : Inner A W) (p : RecvPc A)
      → Allows (λ q. has_waker p ≡ 0 → q.0.waker ≡ m.waker) (recv_step sp m p)
  unfolding recv_step
  recv_step-waker sp m RecvPc.idle = λ n. refl
  recv_step-waker sp m p = ground arith

  -- No waker was woken while the word is open, unless the receiver is being dropped.
  abbrev pub Unwoken : Inner A W → ℕ → Type 0
  Unwoken m dropping = (wakes m.log ≡ []) ⊎ (open_word m.state ≡ false) ⊎ (dropping ≡ 1)

  sender_step-Unwoken :
      (sp : Bool) (m : Inner A W) (p : SenderPc A) (d : ℕ)
      → known m.state ≡ true
      → ((sender_view p).waker ≡ 1 → open_word m.state ≡ true → d ≡ 1)
      → SenderOk m p
      → Unwoken m d
      → Allows (λ q. Unwoken q.0 d) (sender_step sp m p)
  unfolding sender_step
  sender_step-Unwoken sp m SenderPc.held d kn n k h = h
  sender_step-Unwoken sp m p d kn n k h = ground arith

  recv_step-Unwoken :
      (sp : Bool) (m : Inner A W) (p : RecvPc A) (d : ℕ)
      → known m.state ≡ true
      → RecvOk m.state p
      → Unwoken m d
      → Allows (λ q. Unwoken q.0 d) (recv_step sp m p)
  unfolding recv_step
  recv_step-Unwoken sp m RecvPc.idle d kn k h = h
  recv_step-Unwoken sp m p d kn k h = ground arith

  receiver_step-Unwoken :
      (sp : Bool) (m : Inner A W) (e : ReceiverPc A W)
      → known m.state ≡ true
      → ReceiverOk m e
      → Unwoken m (receiver_view e).dropping
      → Allows (λ q. Unwoken q.0 (receiver_view q.1).dropping) (receiver_step ww sp m e)
  unfolding receiver_step
  receiver_step-Unwoken sp m ReceiverPc.free kn k h = h
  receiver_step-Unwoken sp m e kn k h = ground arith

  -- Both, of a state of the channel.
  abbrev pub Account : System A W → Type 0
  Account s = Stored s.mem s.receiver × Unwoken s.mem (receiver_view s.receiver).dropping

  sender-Account :
      (sp : Bool) (s : System A W)
      → Inv s
      → Account s
      → Allows
          (λ q. Stored q.0 s.receiver × Unwoken q.0 (receiver_view s.receiver).dropping)
          (sender_step sp s.mem s.sender)
  sender-Account sp s i (st, u) =
      Allows-× _ _ (sender_step sp s.mem s.sender)
        (Allows-map _ _
          (λ q k. Stored-kept s.mem q.0 s.receiver (λ e. k ((waker_owner s.mem i.owned e).0)) st)
          (sender_step sp s.mem s.sender) (sender_step-waker sp s.mem s.sender))
        (sender_step-Unwoken sp s.mem s.sender _ i.owned.is_known i.owned.no_poller i.sender_ok u)

  recv-Account :
      (sp : Bool) (s : System A W) (n : ℕ) {p : RecvPc A}
      → get_elem? s.recvs n ≡ some p
      → Inv s
      → Account s
      → Allows
          (λ q. Stored q.0 s.receiver × Unwoken q.0 (receiver_view s.receiver).dropping)
          (recv_step sp s.mem p)
  recv-Account sp s n {p} at i (st, u) =
      Allows-× _ _ (recv_step sp s.mem p)
        (Allows-map _ _
          (λ q k.
            Stored-kept s.mem q.0 s.receiver
              (λ e. k (
                omega
                  (arith, (waker_owner s.mem i.owned e).1, total-remove_at has_waker s.recvs n at)))
              st)
          (recv_step sp s.mem p) (recv_step-waker sp s.mem p))
        (recv_step-Unwoken sp s.mem p _ i.owned.is_known
          (All-get_elem? (RecvOk s.mem.state) s.recvs n i.recvs_ok at) u)

  update_recv-Account :
      (i : ℕ) (f : RecvPc A → RecvPc A) (s : System A W) → Account s → Account (update_recv i f s)
  update_recv-Account i f s h = elim (Option-cases (get_elem? s.recvs i)) [
    | inl e ↦ rw (e, update_recv) h
    | inr (p, e) ↦ rw (e, update_recv) h
  ]

  act-Account : (a : Action A W) (s : System A W) → Inv s → Account s → Allows Account (act ww a s)
  unfolding act
  act-Account (Action.call_send v) s i h = ground arith
  act-Account Action.call_drop_sender s i h = ground arith
  act-Account (Action.run_sender sp) s i h =
      Allows->>= _ Account (sender_step sp s.mem s.sender) _ (sender-Account sp s i h) (λ q k. k)
  act-Account (Action.call_recv n) s i h = ground (arith, update_recv-Account n begin s h)
  act-Account (Action.run_recv n sp) s i h = elim (Option-cases (get_elem? s.recvs n)) [
    | inl e ↦ rw (e, Allows) h
    | inr (p, e) ↦
        rw (e, Allows)
          (Allows->>= _ Account (recv_step sp s.mem p) _ (recv-Account sp s n e i h) (λ q k. k))
  ]
  act-Account (Action.wake_recv n) s i h = update_recv-Account n woken s h
  act-Account (Action.end_recv n) s i h = update_recv-Account n finish s h
  act-Account (Action.call_poll cx) s i h = ground arith
  act-Account (Action.run_receiver sp) s i (st, u) =
      Allows->>= _ Account (receiver_step ww sp s.mem s.receiver) _
        (Allows-× _ _ (receiver_step ww sp s.mem s.receiver)
          (receiver_step-Stored sp s.mem s.receiver i.receiver_ok st)
          (receiver_step-Unwoken sp s.mem s.receiver i.owned.is_known i.receiver_ok u))
        (λ q k. k)
  act-Account Action.end_poll s i h = ground arith
  act-Account Action.call_drop_receiver s i h = ground arith

  pub Reachable-Account : {s : System A W} → Reachable ww s → Account s
  Reachable-Account = Reachable-along ww Account act-Account (λ n. (tt, inl refl))
