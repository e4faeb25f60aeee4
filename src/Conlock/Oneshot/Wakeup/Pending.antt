-- ===== src/Conlock/Oneshot/Wakeup/Pending.antt =====
-- A poll that answered `Pending`, and the wake-up that its waker is owed.
use forwardr.Base.{
  ℕ, ◌≡◌, ◌≢◌, refl, ap, sym, subst, ◌∙◌, Bool, true, false, ◌⊎◌, inl, inr, some, List, [], ◌∷◌,
  total, get_elem?, set, map, if◌then◌else◌, total-remove_at, total-set, Option-cases, arith, ◌&&◌,
}
use forwardr.Conlock.Oneshot.Inner.{Inner, ok, ◌>>=◌}
use forwardr.Conlock.Oneshot.Sender
use forwardr.Conlock.Oneshot.Sender.{SenderPc, sender_step}
use forwardr.Conlock.Oneshot.Recv.{RecvPc, woken, recv_step}
use forwardr.Conlock.Oneshot.Receiver.{
  ReceiverPc, Poll, poll_unset, poll_returned, free, receiver_step,
}
use forwardr.Conlock.Oneshot.System.{System, Action, wakes_all, update_recv, finish, act, run}
use forwardr.Conlock.Oneshot.Invariant.Defs.{is_active, known, SenderOk, sender_view}
use forwardr.Conlock.Oneshot.Invariant.Steps.{Inv, act-Inv}
use forwardr.Conlock.Oneshot.Invariant.Start.{Reachable, Reachable-Inv}
use forwardr.Conlock.Oneshot.Ledger.{Allows, Allows->>=}
use forwardr.Conlock.Oneshot.Along.{Allows-×, Ensures-Allowed}
use forwardr.Conlock.Oneshot.Wakeup.Stored.{
  wakes, WakesTask, Stored, Unwoken, Account, Reachable-Account, waker_owner,
}

-- No new call on the receiver: what a task does, and what happens to it, until it is polled again.
abbrev pub awaits : {A W : Type 0} → Action A W → Bool
awaits (Action.call_recv _) = false
awaits (Action.call_poll _) = false
awaits Action.call_drop_receiver = false
awaits _ = true

abbrev pub all_await : {A W : Type 0} → List (Action A W) → Bool
all_await [] = true
all_await (a ∷ h) = awaits a && all_await h

-- The receiver is in no call that does anything.
abbrev rests : {A W : Type 0} → ReceiverPc A W → Bool
rests free = true
rests (poll_returned _) = true
rests _ = false

module _ {A : Type 0} where
  active-update :
      (n : ℕ) (rs : List (RecvPc A)) {p : RecvPc A} (p' : RecvPc A)
      → get_elem? rs n ≡ some p
      → total is_active rs ≡ 0
      → (is_active p ≡ 0 → is_active p' ≡ 0)
      → total is_active (set rs n p') ≡ 0
  active-update n rs p' at q k =
      ground (arith, total-remove_at is_active rs n at, total-set is_active rs n p' at)

  active-woken :
      (b : Bool) (ps : List (RecvPc A))
      → total is_active (if b then map woken ps else ps) ≡ total is_active ps
  active-woken true [] = refl
  active-woken true (p ∷ ps) = ground (arith, active-woken true ps)
  active-woken false ps = refl

module _ {A W : Type 0} where
  -- The waker is in the cell and nobody was woken yet; or it was woken, and only it.
  abbrev Owed : W → Inner A W → SenderPc A → Type 0
  Owed w m p =
      (((m.state ≡ 20) × ((sender_view p).waker ≡ 0) × (m.waker ≡ some w) × (wakes m.log ≡ []))
        ⊎ ((m.state ≢ 20) × ((sender_view p).waker ≡ 1) × (m.waker ≡ some w) × (wakes m.log ≡ [])))
      ⊎ ((m.state ≢ 20) × ((sender_view p).waker ≡ 0) × (wakes m.log ≡ w ∷ []))

  sender_step-Owed :
      (w : W) (sp : Bool) (m : Inner A W) (p : SenderPc A)
      → known m.state ≡ true
      → SenderOk m p
      → Owed w m p
      → Allows (λ q. Owed w q.0 q.1) (sender_step sp m p)
  unfolding sender_step
  sender_step-Owed w sp m SenderPc.held kn k h = h
  sender_step-Owed w sp m p kn k h = ground arith

  abbrev Waiting : W → System A W → Type 0
  Waiting w s = (rests s.receiver ≡ true) × (total is_active s.recvs ≡ 0) × Owed w s.mem s.sender

  -- A step of a receiver at rest, and of a thread in no call.
  receiver_step-rests :
      (ww : W → W → Bool) (sp : Bool) (m : Inner A W) (e : ReceiverPc A W)
      → rests e ≡ true
      → receiver_step ww sp m e ≡ ok (m, e)
  unfolding receiver_step
  receiver_step-rests ww sp m free h = refl
  receiver_step-rests ww sp m (poll_returned r) h = refl
  receiver_step-rests ww sp m e h = ground arith

  recv_step-inactive :
      (sp : Bool) (m : Inner A W) (p : RecvPc A) → is_active p ≡ 0 → recv_step sp m p ≡ ok (m, p)
  unfolding recv_step
  recv_step-inactive sp m RecvPc.idle h = refl
  recv_step-inactive sp m (RecvPc.returned r) h = refl
  recv_step-inactive sp m p h = ground arith

  update_recv-Waiting :
      (w : W) (n : ℕ) (f : RecvPc A → RecvPc A) (s : System A W)
      → ((p : RecvPc A) → is_active p ≡ 0 → is_active (f p) ≡ 0)
      → Waiting w s
      → Waiting w (update_recv n f s)
  update_recv-Waiting w n f s k (h, q, o) = elim (Option-cases (get_elem? s.recvs n)) [
    | inl e ↦ rw (e, update_recv) (h, q, o)
    | inr (p, e) ↦ rw (e, update_recv) (h, active-update n s.recvs (f p) e q (k p), o)
  ]

  act-Waiting :
      (ww : W → W → Bool) (w : W) (a : Action A W) (s : System A W)
      → awaits a ≡ true
      → Inv s
      → Waiting w s
      → Allows (Waiting w) (act ww a s)
  unfolding act
  act-Waiting ww w (Action.call_send v) s y i h = ground arith
  act-Waiting ww w Action.call_drop_sender s y i h = ground arith
  act-Waiting ww w (Action.run_sender sp) s y i (e, q, o) =
      Allows->>= _ (Waiting w) (sender_step sp s.mem s.sender) _
        (sender_step-Owed w sp s.mem s.sender i.owned.is_known i.sender_ok o)
        (λ x k. (e, active-woken (wakes_all s.sender) s.recvs ∙ q, k))
  act-Waiting ww w (Action.run_recv n sp) s y i (h, q, o) =
      elim (Option-cases (get_elem? s.recvs n)) [
        | inl e ↦ rw (e, Allows) (h, q, o)
        | inr (p, e) ↦
            let same =
              recv_step-inactive sp s.mem p
                (omega (arith, total-remove_at is_active s.recvs n e, q)) in
            rw (e, same, ◌>>=◌, Allows) (h, active-update n s.recvs p e q (λ z. z), o)
      ]
  act-Waiting ww w (Action.wake_recv n) s y i h =
      update_recv-Waiting w n woken s (λ p k. ground arith) h
  act-Waiting ww w (Action.end_recv n) s y i h =
      update_recv-Waiting w n finish s (λ p k. ground arith) h
  act-Waiting ww w (Action.run_receiver sp) s y i (h, q, o) =
      rw (receiver_step-rests ww sp s.mem s.receiver h, Allows) (h, q, o)
  act-Waiting ww w Action.end_poll s y i h = ground arith
  act-Waiting ww w a s y i h = ground arith

  -- The exchange by which a poll hands its waker over.
  unset-Owed :
      (ww : W → W → Bool) (sp : Bool) (m : Inner A W) (c : ℕ) (cx w : W) (p : SenderPc A)
      → c ≡ 28
      → Unwoken ww m 0
      → m.waker ≡ some w
      → (sender_view p).waker ≡ 0
      → Allows
          (λ q. q.1 ≡ poll_returned Poll.pending → Owed w q.0 p)
          (receiver_step ww sp m (poll_unset c cx))
  unfolding receiver_step
  unset-Owed ww sp m c cx w p e u k n = ground arith

  -- A poll that takes waker `cx` and is about to answer.
  abbrev answering : ℕ → W → System A W → System A W
  answering c cx s = record s { receiver = poll_unset c cx }

  abbrev Registered : (W → W → Bool) → W → System A W → Type 0
  Registered ww cx t =
      t.receiver ≡ poll_returned Poll.pending → (w : W) × WakesTask ww cx w × Waiting w t

  answering-Registered :
      (ww : W → W → Bool) (sp : Bool) (c : ℕ) (cx : W) (s : System A W)
      → Inv (answering c cx s)
      → Stored ww s.mem (poll_unset c cx)
      → Unwoken ww s.mem 0
      → Allows (Registered ww cx) (act ww (Action.run_receiver sp) (answering c cx s))
  unfolding act
  answering-Registered ww sp c cx s i (w, k, same) u =
      Allows->>= _ (Registered ww cx) (receiver_step ww sp s.mem (poll_unset c cx)) _
        (unset-Owed ww sp s.mem c cx w s.sender i.receiver_ok u k
          (waker_owner s.mem i.owned refl).0)
        (λ q o e. (w, same, (ap rests e, ground (arith, i.owned.apart), o e)))

  Registered-answer :
      (ww : W → W → Bool) (sp : Bool) (c : ℕ) (cx : W) {s t : System A W}
      → Inv s
      → Account ww s
      → s.receiver ≡ poll_unset c cx
      → act ww (Action.run_receiver sp) s ≡ ok t
      → Registered ww cx t
  Registered-answer ww sp c cx {s} {t} i a e h =
      let same : s ≡ answering c cx s =
        λ k. record { mem = s.mem; sender = s.sender; receiver = e k; recvs = s.recvs } in
      let (st, u) = subst (Account ww) same a in
      subst (Allows (Registered ww cx)) (ap (act ww (Action.run_receiver sp)) (sym same) ∙ h)
        (answering-Registered ww sp c cx s (subst Inv same i) st u)

  run-Waiting :
      (ww : W → W → Bool) (w : W) (h : List (Action A W)) (s : System A W)
      → all_await h ≡ true
      → Inv s
      → Waiting w s
      → Allows (λ t. Inv t × Waiting w t) (run ww h s)
  unfolding run
  run-Waiting ww w [] s y i o = (i, o)
  run-Waiting ww w (a ∷ h) s y i o =
      Allows->>= (λ t. Inv t × Waiting w t) _ (act ww a s) _
        (Allows-× Inv (Waiting w) (act ww a s) (Ensures-Allowed Inv (act ww a s) (act-Inv ww a s i))
          (act-Waiting ww w a s (ground arith) i o))
        (λ t (j, k). run-Waiting ww w h t (ground arith) j k)

  -- Once the sender is gone, the waker that was owed has been woken.
  paid :
      (w : W) {s : System A W}
      → Inv s
      → Waiting w s
      → s.sender ≡ Sender.gone
      → wakes s.mem.log ≡ w ∷ []
  paid w {s} i (h, q, o) g = ground (arith, i.owned.departed, i.owned.released)

module _ {A W : Type 0} (will_wake : W → W → Bool) where
  -- A poll with the waker `cx`, in a reachable state, answers `Pending`. Then, whatever happens without
  -- a further call on the receiver, once the sender is gone exactly one waker has been woken: `cx`
  -- itself, or the stored one that would wake the same task.
  pub pending_woken :
      {s s' t : System A W} (c : ℕ) (cx : W) (spurious : Bool) (h : List (Action A W))
      → Reachable will_wake s
      → s.receiver ≡ poll_unset c cx
      → act will_wake (Action.run_receiver spurious) s ≡ ok s'
      → s'.receiver ≡ poll_returned Poll.pending
      → all_await h ≡ true
      → run will_wake h s' ≡ ok t
      → t.sender ≡ Sender.gone
      → (w : W) × (wakes t.mem.log ≡ w ∷ []) × WakesTask will_wake cx w
  pending_woken {s} {s'} {t} c cx spurious h r e step answer quiet history g =
      let i = Reachable-Inv will_wake r in
      let (w, same, o) =
        Registered-answer will_wake spurious c cx i (Reachable-Account will_wake r) e step answer in
      let j =
        subst (Allows Inv) step
          (Ensures-Allowed Inv _ (act-Inv will_wake (Action.run_receiver spurious) s i)) in
      let (k, u) =
        subst (Allows (λ x. Inv x × Waiting w x)) history
          (run-Waiting will_wake w h s' quiet j o) in
      (w, paid w k u g, same)
