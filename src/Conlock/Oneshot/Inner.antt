-- ===== src/Conlock/Oneshot/Inner.antt =====
-- conlock/src/oneshot.rs, `Inner`: the word, the data and waker cells, and what using them wrongly
-- would be. The cells are `MaybeUninit`: `none` is uninitialised, or moved out.
use forwardr.Base.{ℕ, Bool, false, true, if◌then◌else◌, Option, none, some, List, [], ◌∷◌}
use forwardr.Conlock.Status.{Cas}

-- What undefined behaviour or a leak would be here.
pub data Fault : Type 0 where
  use_after_free uninit_read overwrite leak : Fault

pub data Outcome (X : Type 0) : Type 0 where
  ok : X → Outcome X
  fault : Fault → Outcome X

infixl 5 ◌>>=◌
abbrev pub ◌>>=◌ : {X Y : Type 0} → Outcome X → (X → Outcome Y) → Outcome Y
ok x >>= f = f x
fault e >>= f = fault e

-- What has happened to the message and to wakers, newest first. The program keeps no such list.
pub data Event (A W : Type 0) : Type 0 where
  called : A → Event A W  -- `send` was called
  sent : Event A W  -- `send` returned `Ok`
  rejected : A → Event A W  -- `send` returned `Err`
  delivered : A → Event A W  -- `recv` or `poll` returned the message
  discarded : A → Event A W  -- `drop_receiver` dropped the message
  woke : W → Event A W  -- a waker was consumed by `wake`
  dropped : W → Event A W  -- a stored waker was dropped

pub record Inner (A W : Type 0) : Type 0 where
  pub state : ℕ
  pub slot : Option A
  pub waker : Option W
  pub freed : Bool
  pub log : List (Event A W)

module _ {A W : Type 0} where
  -- `Inner::new`
  abbrev pub new : Inner A W
  new = record { state = 0; slot = none; waker = none; freed = false; log = [] }

  -- Every access goes through the shared pointer.
  abbrev pub access : {X : Type 0} → Inner A W → Outcome X → Outcome X
  access m next = if m.freed then fault use_after_free else next

  -- An initialising write drops nothing: over a value it would leak that value.
  abbrev pub write : A → Inner A W → Outcome (Inner A W)
  write v m = elim m.slot [ none ↦ ok (record m { slot = some v }) | some _ ↦ fault overwrite ]

  abbrev pub read : Inner A W → Outcome (A × Inner A W)
  read m = elim m.slot [ none ↦ fault uninit_read | some v ↦ ok (v, record m { slot = none }) ]

  -- `waker_mut().write(…)`, `assume_init_read()`, and `assume_init_mut()` as a replacement.
  abbrev pub write_waker : W → Inner A W → Outcome (Inner A W)
  write_waker w m = elim m.waker [
    | none ↦ ok (record m { waker = some w })
    | some _ ↦ fault overwrite
  ]

  abbrev pub read_waker : Inner A W → Outcome (W × Inner A W)
  read_waker m = elim m.waker [
    | none ↦ fault uninit_read
    | some w ↦ ok (w, record m { waker = none })
  ]

  abbrev pub record_event : Event A W → Inner A W → Inner A W
  record_event e m = record m { log = e ∷ m.log }

  abbrev pub drop_waker : Inner A W → Outcome (Inner A W)
  drop_waker m = read_waker m >>= λ (w, m'). ok (record_event (Event.dropped w) m')

  abbrev pub wake_waker : Inner A W → Outcome (Inner A W)
  wake_waker m = read_waker m >>= λ (w, m'). ok (record_event (Event.woke w) m')

  -- `dealloc` frees the box; its cells have no destructor of their own.
  abbrev pub dealloc : Inner A W → Outcome (Inner A W)
  dealloc m = elim m.slot [
    | some _ ↦ fault leak
    | none ↦ elim m.waker [ some _ ↦ fault leak | none ↦ ok (record m { freed = true }) ]
  ]

  -- Where an exchange leads: `won` and `lost` are given the copy that it leaves.
  abbrev pub after_cas :
      {X : Type 0} → Inner A W → Cas → (won lost : ℕ → X) → Outcome (Inner A W × X)
  after_cas m r won lost =
      ok (record m { state = r.state }, if r.done then won r.current else lost r.current)
