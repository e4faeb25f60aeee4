-- ===== src/Conlock/Oneshot/Handover/Receives.antt =====
-- A call of `recv` once the sender has left.
use forwardr.Base.{
  ℕ, ◌≡◌, refl, sym, subst, ◌∙◌, inl, inr, Bool, true, false, none, some, List, [], ◌∷◌, get_elem?,
  replicate, get_elem?-set, set,
}
use forwardr.Conlock.Oneshot.Inner.{Inner, Event, ok, ◌>>=◌, record_event}
use forwardr.Conlock.Oneshot.Sender
use forwardr.Conlock.Oneshot.Receiver.{free}
use forwardr.Conlock.Oneshot.Recv.{RecvPc, idle, load, take, take_data, returned, recv_step}
use forwardr.Conlock.Oneshot.System.{System, Action, all_idle, update_recv, act, run}
use forwardr.Conlock.Oneshot.Invariant.Start.{Reachable, Reachable-Inv}
use forwardr.Conlock.Oneshot.Handover.Settled.{
  Settled, Settled-cases, alone, alone_again, quiet_cell, word_10, word_11,
}

module _ {A W : Type 0} (ww : W → W → Bool) (n : ℕ) where
  -- One access of a thread in `recv`.
  recv_turn :
      (m : Inner A W) (rs : List (RecvPc A)) {p p' : RecvPc A} {m' : Inner A W}
      → get_elem? rs n ≡ some p
      → recv_step false m p ≡ ok (m', p')
      → act ww (Action.run_recv n false) (alone m rs) ≡ ok (alone m' (set rs n p'))
  unfolding act
  recv_turn m rs at e = rw (act, at, e, ◌>>=◌) refl

  recv_begins :
      (m : Inner A W) (rs : List (RecvPc A))
      → get_elem? rs n ≡ some idle
      → act ww (Action.call_recv n) (alone m rs) ≡ ok (alone m (set rs n load))
  unfolding act
  recv_begins m rs at = rw (act, at, update_recv) refl

  run_turn :
      (a : Action A W) (h : List (Action A W)) (s : System A W) {t : System A W}
      → act ww a s ≡ ok t
      → run ww (a ∷ h) s ≡ run ww h t
  unfolding run
  run_turn a h s e = rw e refl

  abbrev recv_to_end : List (Action A W)
  recv_to_end = Action.call_recv n ∷ replicate 3 (Action.run_recv n false)

  -- The call and three accesses of its thread, from one state of the thread to the next.
  three_turns :
      (m m1 m2 m3 : Inner A W) (rs : List (RecvPc A)) (p1 p2 p3 : RecvPc A)
      → get_elem? rs n ≡ some idle
      → recv_step false m load ≡ ok (m1, p1)
      → recv_step false m1 p1 ≡ ok (m2, p2)
      → recv_step false m2 p2 ≡ ok (m3, p3)
      → run ww recv_to_end (alone m rs)
        ≡ ok (alone m3 (set (set (set (set rs n load) n p1) n p2) n p3))
  unfolding run
  three_turns m m1 m2 m3 rs p1 p2 p3 at e1 e2 e3 =
      let at0 = get_elem?-set rs n load at in
      let at1 = get_elem?-set (set rs n load) n p1 at0 in
      let at2 = get_elem?-set (set (set rs n load) n p1) n p2 at1 in
      run_turn (Action.call_recv n) (replicate 3 (Action.run_recv n false)) (alone m rs)
        (recv_begins m rs at)
      ∙ run_turn (Action.run_recv n false) (replicate 2 (Action.run_recv n false))
          (alone m (set rs n load)) (recv_turn m (set rs n load) at0 e1)
      ∙ run_turn (Action.run_recv n false) (replicate 1 (Action.run_recv n false))
          (alone m1 (set (set rs n load) n p1)) (recv_turn m1 (set (set rs n load) n p1) at1 e2)
      ∙ run_turn (Action.run_recv n false) [] (alone m2 (set (set (set rs n load) n p1) n p2))
          (recv_turn m2 (set (set (set rs n load) n p1) n p2) at2 e3)

  abbrev Receives : System A W → Type 0
  Receives s =
      (t : System A W) × (run ww recv_to_end s ≡ ok t)
      × (get_elem? t.recvs n ≡ some (returned s.mem.slot))

  recv_ready_cell :
      (m : Inner A W) (v : A) (rs : List (RecvPc A))
      → get_elem? rs n ≡ some idle
      → Receives (alone (word_11 m v) rs)
  unfolding recv_step
  recv_ready_cell m v rs at =
      let m3 = record_event (Event.delivered v) (word_10 m) in
      let at1 = get_elem?-set (set rs n load) n (take 11) (get_elem?-set rs n load at) in
      let at2 = get_elem?-set (set (set rs n load) n (take 11)) n take_data at1 in
      (
        alone m3 (set (set (set (set rs n load) n (take 11)) n take_data) n (returned (some v))),
        three_turns (word_11 m v) (word_11 m v) (record (word_11 m v) { state = 10 }) m3 rs
            (take 11) take_data (returned (some v)) at refl refl refl,
        get_elem?-set (set (set (set rs n load) n (take 11)) n take_data) n (returned (some v)) at2,
      )

  recv_empty_cell :
      (m : Inner A W) (rs : List (RecvPc A))
      → get_elem? rs n ≡ some idle
      → Receives (alone (word_10 m) rs)
  unfolding recv_step
  recv_empty_cell m rs at =
      let end_ : RecvPc A = returned none in
      let at1 = get_elem?-set (set rs n load) n end_ (get_elem?-set rs n load at) in
      let at2 = get_elem?-set (set (set rs n load) n end_) n end_ at1 in
      (
        alone (word_10 m) (set (set (set (set rs n load) n end_) n end_) n end_),
        three_turns (word_10 m) (word_10 m) (word_10 m) (word_10 m) rs end_ end_ end_ at refl refl
            refl,
        get_elem?-set (set (set (set rs n load) n end_) n end_) n end_ at2,
      )

  recv_any_cell :
      (m : Inner A W) (rs : List (RecvPc A))
      → get_elem? rs n ≡ some idle
      → Settled m
      → Receives (alone m rs)
  recv_any_cell m rs at h = elim (Settled-cases m h) [
    | inl (v, e) ↦ subst (λ k. Receives (alone k rs)) (sym e) (recv_ready_cell m v rs at)
    | inr e ↦ subst (λ k. Receives (alone k rs)) (sym e) (recv_empty_cell m rs at)
  ]

  pub recv_after_gone :
      {s : System A W}
      → Reachable ww s
      → s.sender ≡ Sender.gone
      → s.receiver ≡ free
      → all_idle s.recvs ≡ true
      → get_elem? s.recvs n ≡ some idle
      → (t : System A W) × (run ww recv_to_end s ≡ ok t)
        × (get_elem? t.recvs n ≡ some (returned s.mem.slot))
  recv_after_gone {s} r g f quiet at =
      subst Receives (alone_again g f)
        (recv_any_cell s.mem s.recvs at (quiet_cell (Reachable-Inv ww r) g f quiet))
