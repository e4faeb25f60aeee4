-- ===== src/Conlock/Oneshot/Orderings/RecvFacts.antt =====
-- What the invariant of a channel says to the step of a thread in `recv` about a cell.
use forwardr.Base.{ℕ, ◌≡◌, subst, Bool, false, some, get_elem?, remove_at, All-get_elem?, arith}
use forwardr.Conlock.Oneshot.Recv.{RecvPc, recv_step}
use forwardr.Conlock.Oneshot.System.{System}
use forwardr.Conlock.Oneshot.Invariant.Defs.{recv_view, sender_view, mem_view, receiver_view}
use forwardr.Conlock.Oneshot.Invariant.Steps.{Inv}
use forwardr.Conlock.Oneshot.Ledger.{Allows}
use forwardr.Conlock.Oneshot.Orderings.Access.{Cell, data_cell, waker_cell, memory}
use forwardr.Conlock.Oneshot.Orderings.Flags.{sender_part, receiver_part}
use forwardr.Conlock.Oneshot.Orderings.Facts.{sender-PartOk, system-Knows, active-apart}
use forwardr.Conlock.Oneshot.Invariant.Defs.{is_active}
use forwardr.Conlock.Oneshot.Invariant.Recv.{joined}
use forwardr.Conlock.Oneshot.Invariant.Threads.{recv_view-remove_at}
use forwardr.Conlock.Oneshot.Orderings.Access.{recv_access}
use forwardr.Conlock.Oneshot.Orderings.Recv
use forwardr.Conlock.Oneshot.Orderings.Recv.{recv-Steps_data, recv-Steps_waker, recv-Steps_memory}
use forwardr.Conlock.Oneshot.Orderings.Flags.{Knows}
use forwardr.Conlock.Oneshot.Orderings.Threads.{total_bound}

module _ {A W : Type 0} (i : ℕ) where
  pub recv_step-Steps :
      (z : Cell) (sp : Bool) (s : System A W) {p : RecvPc A}
      → get_elem? s.recvs i ≡ some p
      → Inv s
      → s.mem.freed ≡ false
      → Allows
          (Recv.Steps z
            (recv_access sp s.mem.state p)
            s.mem
            p
            (recv_view (remove_at s.recvs i))
            (sender_part s.sender)
            (receiver_part s.receiver))
          (recv_step sp s.mem p)
  recv_step-Steps z sp s {p} at v live = at_cell z (Knows-at z)
    where
      Knows-at :
          (x : Cell)
          → Knows x
              (mem_view s.mem)
              (sender_view s.sender)
              (joined (recv_view (remove_at s.recvs i)) p)
              (receiver_part s.receiver)
      Knows-at x =
          subst (λ r. Knows x (mem_view s.mem) (sender_view s.sender) r (receiver_part s.receiver))
            (recv_view-remove_at s.recvs i at) (system-Knows s v live x)

      apart :
          is_active p ≡ 1
          → ((receiver_view s.receiver).left ≡ 0) × ((receiver_view s.receiver).polling ≡ 0)
      apart h = active-apart s v (omega (arith, h, total_bound is_active s.recvs i at))

      at_cell :
          (x : Cell)
          → Knows x
              (mem_view s.mem)
              (sender_view s.sender)
              (joined (recv_view (remove_at s.recvs i)) p)
              (receiver_part s.receiver)
          → Allows
              (Recv.Steps x
                (recv_access sp s.mem.state p)
                s.mem
                p
                (recv_view (remove_at s.recvs i))
                (sender_part s.sender)
                (receiver_part s.receiver))
              (recv_step sp s.mem p)
      at_cell data_cell o =
          recv-Steps_data _ _ _ _ sp s.mem p v.owned.is_known
            (sender-PartOk s.mem s.sender v.sender_ok) apart o
            (All-get_elem? _ s.recvs i v.recvs_ok at)
      at_cell waker_cell o =
          recv-Steps_waker _ _ _ _ sp s.mem p v.owned.is_known
            (sender-PartOk s.mem s.sender v.sender_ok) apart o
            (All-get_elem? _ s.recvs i v.recvs_ok at)
      at_cell memory o =
          recv-Steps_memory _ _ _ _ sp s.mem p v.owned.is_known
            (sender-PartOk s.mem s.sender v.sender_ok) apart o
            (All-get_elem? _ s.recvs i v.recvs_ok at)
