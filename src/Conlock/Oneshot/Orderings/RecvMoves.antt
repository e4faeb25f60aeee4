-- ===== src/Conlock/Oneshot/Orderings/RecvMoves.antt =====
-- The clock of a cell where a thread in `recv` moves.
use forwardr.Base.{
  ℕ, ◌≡◌, inl, inr, refl, sym, subst, Bool, true, ◌==◌, ==_iff, Option, none, some, get_elem?, set,
  remove_at, Bool-cases, Option-cases, arith,
}
use forwardr.Conlock.Oneshot.Inner.{Inner}
use forwardr.Conlock.Oneshot.Recv.{RecvPc, recv_step}
use forwardr.Conlock.Oneshot.System.{System, Action, act}
use forwardr.Conlock.Oneshot.Invariant.Defs.{recv_view}
use forwardr.Conlock.Oneshot.Invariant.Steps.{Inv}
use forwardr.Conlock.Oneshot.Ledger.{Allows, Allows->>=}
use forwardr.Conlock.Oneshot.Orderings.Access.{Exchange, Order, Cell, Access}
use forwardr.Conlock.Oneshot.Orderings.Clock.{
  Clock, Mark, mark, later, put, perform, set_recv, tick,
}
use forwardr.Conlock.Oneshot.Orderings.Sync.{Agrees}
use forwardr.Conlock.Oneshot.Orderings.Perform.{Passes, Passes-map}
use forwardr.Conlock.Oneshot.Orderings.Ordered.{Ordered, OrderedWhile, Allows-map, frozen-Passes}
use forwardr.Conlock.Oneshot.Orderings.Threads.{Threads-set}
use forwardr.Conlock.Oneshot.Orderings.Flags.{sender_part, receiver_part}
use forwardr.Conlock.Oneshot.Orderings.Access.{recv_access}
use forwardr.Conlock.Oneshot.Orderings.Shared
use forwardr.Conlock.Oneshot.Orderings.Recv
use forwardr.Conlock.Oneshot.Orderings.RecvFacts.{recv_step-Steps}
use forwardr.Conlock.Oneshot.Orderings.Recv.{recv-Steps_data, recv-Steps_waker, recv-Steps_memory}

by_recv : ℕ → Clock → Mark → Clock
by_recv i k t = record k {
  word = t.word;
  side = later k.side t.own;
  recvs = put i t.own k.recvs;
  uses = t.uses;
}

set_recv-Passes :
    (P : Clock → Type 0) (i : ℕ) (k : Clock) (u : Option Mark)
    → Passes (λ t. P (by_recv i k t)) u
    → Passes P (set_recv i k u)
unfolding by_recv
set_recv-Passes P i k none h = h
set_recv-Passes P i k (some t) h = h

one_if_known : (n : ℕ) → n ≡ 1 → n == 1 ≡ true
one_if_known n h = ground arith

module _ (orders : Exchange → Order) (agrees : Agrees orders) {A W : Type 0} (y : Cell)
    (i : ℕ) where
  recv_step-frozen :
      (sp : Bool) (m : Inner A W) (p : RecvPc A) (k : Mark)
      → m.freed ≡ true
      → Allows
          (λ q. Passes (λ _. q.0.freed ≡ true) (perform orders y (recv_access sp m.state p) k))
          (recv_step sp m p)
  unfolding recv_step
  recv_step-frozen sp m p k f = ground arith

  after_recv : System A W → Inner A W × RecvPc A → System A W
  after_recv s q = record s { mem = q.0; recvs = set s.recvs i q.1 }

  recv_moved-Ordered :
      (s : System A W) (k : Clock) (a : Access) (q : Inner A W × RecvPc A) {p : RecvPc A}
      → get_elem? s.recvs i ≡ some p
      → Ordered y s k
      → Recv.Steps y a s.mem p
          (recv_view (remove_at s.recvs i))
          (sender_part s.sender)
          (receiver_part s.receiver)
          q
      → Passes
          (λ t. OrderedWhile y (after_recv s q) (by_recv i k t))
          (perform orders y a (mark k (k.recvs i)))
  unfolding after_recv by_recv
  recv_moved-Ordered s k a q {p} at h t =
      Passes-map _ (λ t. OrderedWhile y (after_recv s q) (by_recv i k t))
        (λ u v f. record {
          ends = v.sync.ends;
          threads =
              Threads-set y s.recvs i q.1 k.recvs k.side k.uses u.own u.uses at h.threads
                v.sync.joined (λ n. v.sync.in_thread (one_if_known _ n))
                (elim v.counts [ inl e ↦ inl e | inr e ↦ inr (t.alone e) ]);
          before = ground (arith, h.before);
        })
        (perform orders y a (mark k (k.recvs i)))
        (Shared.perform-Settled orders agrees y a _ _ _ _ (mark k (k.recvs i))
          (record { sender = k.sender; side = k.side })
          (record {
            ends = h.ends;
            joined = h.threads.behind i;
            in_thread = λ b. h.threads.knowing i at ((==_iff _ _).0 b);
          })
          t.follows)

  abbrev RecvPasses : System A W → Clock → Option Mark → Inner A W × RecvPc A → Type 0
  RecvPasses s k u q = Passes (λ t. OrderedWhile y (after_recv s q) (by_recv i k t)) u

  recv_step-Passes :
      (sp : Bool) (s : System A W) (k : Clock) {p : RecvPc A}
      → get_elem? s.recvs i ≡ some p
      → Inv s
      → OrderedWhile y s k
      → Allows
          (RecvPasses s k (perform orders y (recv_access sp s.mem.state p) (mark k (k.recvs i))))
          (recv_step sp s.mem p)
  unfolding after_recv by_recv
  recv_step-Passes sp s k {p} at v h =
      let x = recv_step sp s.mem p in
      let u = perform orders y (recv_access sp s.mem.state p) (mark k (k.recvs i)) in
      elim (Bool-cases s.mem.freed) [
        | inl frozen ↦
            Allows-map _ _ x
              (λ q. frozen-Passes q.0 (λ t. Ordered y (after_recv s q) (by_recv i k t)) u)
              (recv_step-frozen sp s.mem p (mark k (k.recvs i)) frozen)
        | inr live ↦
            Allows-map _ _ x (λ q. recv_moved-Ordered s k _ q at (h live))
              (recv_step-Steps i y sp s at v live)
      ]

  tick_absent :
      (sp : Bool) (s : System A W) (k : Clock)
      → get_elem? s.recvs i ≡ none
      → tick orders y (Action.run_recv i sp) s k ≡ some k
  unfolding tick
  tick_absent sp s k e = rw (e, tick) refl

  tick_present :
      (sp : Bool) (s : System A W) (k : Clock) {p : RecvPc A}
      → get_elem? s.recvs i ≡ some p
      → tick orders y (Action.run_recv i sp) s k
        ≡ set_recv i k (perform orders y (recv_access sp s.mem.state p) (mark k (k.recvs i)))
  unfolding tick
  tick_present sp s k e = rw (e, tick) refl

  pub move_recv-Ordered :
      (ww : W → W → Bool) (sp : Bool) (s : System A W) (k : Clock)
      → Inv s
      → OrderedWhile y s k
      → Allows
          (λ s'. Passes (OrderedWhile y s') (tick orders y (Action.run_recv i sp) s k))
          (act ww (Action.run_recv i sp) s)
  unfolding act after_recv by_recv
  move_recv-Ordered ww sp s k v h = elim (Option-cases (get_elem? s.recvs i)) [
    | inl e ↦
        subst (λ u. Allows (λ s'. Passes (OrderedWhile y s') u) (act ww (Action.run_recv i sp) s))
          (sym (tick_absent sp s k e)) (rw (e, Allows) h)
    | inr (p, e) ↦
        let u =
          set_recv i k (perform orders y (recv_access sp s.mem.state p) (mark k (k.recvs i))) in
        subst (λ u. Allows (λ s'. Passes (OrderedWhile y s') u) (act ww (Action.run_recv i sp) s))
          (sym (tick_present sp s k e))
          (rw (e, Allows)
            (Allows->>= _ (λ s'. Passes (OrderedWhile y s') u) (recv_step sp s.mem p) _
              (recv_step-Passes sp s k e v h)
              (λ q. set_recv-Passes (OrderedWhile y (after_recv s q)) i k _)))
  ]
