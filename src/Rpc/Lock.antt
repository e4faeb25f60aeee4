-- ===== src/Rpc/Lock.antt =====
-- examples/rpc/lock/spin.rs: `SpinLock`, and the threads that share one.
use forwardr.Base.{
  ℕ, zero, suc, ◌+◌, ◌≤◌, ◌≡◌, refl, Bool, true, false, not, ◌&&◌, if◌then◌else◌, none, some, List,
  [], ◌∷◌, inl, inr, get_elem?, set, total, total-set, total-remove_at, remove_at, sym, ◌∙◌,
  Option-cases, arith,
}

pub record SpinLock (T : Type 0) : Type 0 where
  pub lock : Bool
  pub data_cell : T

-- A thread of the lock. `holding` has a `LockGuard`.
pub data LockPc : Type 0 where
  outside acquiring holding : LockPc

module _ {T : Type 0} where
  -- `SpinLock::new`
  abbrev pub new : T → SpinLock T
  new val = record { lock = false; data_cell = val }

  -- One exchange of the loop in `lock`; a weak exchange may also fail when `spurious` says so.
  unfoldable pub lock_step : Bool → SpinLock T → SpinLock T × LockPc
  lock_step spurious l =
      if not spurious && not l.lock then (record l { lock = true }, holding) else (l, acquiring)

  -- `Deref` and `DerefMut`: what the holder does with the data.
  unfoldable pub update : (T → T) → SpinLock T → SpinLock T
  update f l = record l { data_cell = f l.data_cell }

  -- `Drop` of the guard.
  unfoldable pub drop_guard : SpinLock T → SpinLock T
  drop_guard l = record l { lock = false }

-- Threads that share a lock, and what may happen next.
pub record Shared (T : Type 0) : Type 0 where
  pub spin : SpinLock T
  pub threads : List LockPc

pub data LockAction (T : Type 0) : Type 0 where
  call_lock : ℕ → LockAction T
  try_lock : ℕ → Bool → LockAction T
  use_guard : ℕ → (T → T) → LockAction T
  end_guard : ℕ → LockAction T

abbrev pub outsiders : ℕ → List LockPc
outsiders zero = []
outsiders (suc n) = outside ∷ outsiders n

abbrev pub holds : LockPc → ℕ
holds holding = 1
holds _ = 0

abbrev pub locked : Bool → ℕ
locked true = 1
locked false = 0

total-outsiders : (n : ℕ) → total holds (outsiders n) ≡ 0
total-outsiders zero = refl
total-outsiders (suc n) = omega (arith, total-outsiders n)

module _ {T : Type 0} where
  -- What one thread does. An action that is not possible where the thread stands changes nothing.
  unfoldable pub thread_act : LockAction T → SpinLock T → LockPc → SpinLock T × LockPc
  unfolding lock_step update drop_guard
  thread_act (call_lock _) l outside = (l, acquiring)
  thread_act (try_lock _ spurious) l acquiring = lock_step spurious l
  thread_act (use_guard _ f) l holding = (update f l, holding)
  thread_act (end_guard _) l holding = (drop_guard l, outside)
  thread_act _ l p = (l, p)

  abbrev pub thread_of : LockAction T → ℕ
  thread_of (call_lock i) = i
  thread_of (try_lock i _) = i
  thread_of (use_guard i _) = i
  thread_of (end_guard i) = i

  unfoldable pub share_act : LockAction T → Shared T → Shared T
  unfolding thread_act
  share_act a s = elim (get_elem? s.threads (thread_of a)) [
    | none ↦ s
    | some p ↦
        let moved = thread_act a s.spin p in
        record { spin = moved.0; threads = set s.threads (thread_of a) (moved.1) }
  ]

  unfoldable pub share_run : List (LockAction T) → Shared T → Shared T
  unfolding share_act
  share_run [] s = s
  share_run (a ∷ h) s = share_run h (share_act a s)

  -- A new lock, with `n` threads.
  abbrev pub start : ℕ → T → Shared T
  start n val = record { spin = new val; threads = outsiders n }

module _ {T : Type 0} where
  thread_act-locked :
      (a : LockAction T) (l : SpinLock T) (p : LockPc) (others : ℕ)
      → others + holds p ≡ locked l.lock
      → others + holds ((thread_act a l p).1) ≡ locked ((thread_act a l p).0.lock)
  unfolding thread_act
  thread_act-locked a l p others e = ground arith

  share_act-locked :
      (a : LockAction T) (s : Shared T)
      → total holds s.threads ≡ locked s.spin.lock
      → total holds (share_act a s).threads ≡ locked (share_act a s).spin.lock
  unfolding share_act
  share_act-locked a s e = elim (Option-cases (get_elem? s.threads (thread_of a))) [
    | inl f ↦ rw (f, share_act) e
    | inr (p, f) ↦
        rw (f, share_act)
          (total-set holds s.threads (thread_of a) ((thread_act a s.spin p).1) f
            ∙ thread_act-locked a s.spin p (total holds (remove_at s.threads (thread_of a)))
                (sym (total-remove_at holds s.threads (thread_of a) f) ∙ e))
  ]

  share_run-locked :
      (h : List (LockAction T)) (s : Shared T)
      → total holds s.threads ≡ locked s.spin.lock
      → total holds (share_run h s).threads ≡ locked (share_run h s).spin.lock
  unfolding share_run
  share_run-locked [] s e = e
  share_run-locked (a ∷ h) s e = share_run-locked h (share_act a s) (share_act-locked a s e)

  -- Mutual exclusion: whatever number of threads share a new lock, and in whatever order they act, at
  -- most one of them holds a guard, and one does just when the lock bit is set.
  pub mutual_exclusion :
      (n : ℕ) (val : T) (h : List (LockAction T))
      → (total holds (share_run h (start n val)).threads ≤ 1)
        × (total holds (share_run h (start n val)).threads
            ≡ locked (share_run h (start n val)).spin.lock)
  mutual_exclusion n val h =
      let e = share_run-locked h (start n val) (total-outsiders n) in (ground (arith, e), e)
