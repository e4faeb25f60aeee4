-- ===== src/Forward/Calls.antt =====
-- forward/src/lib.rs: `ForwardSyncMethod` and the traits that route it. `Args` and `R` are the types
-- of one method; a `String` name is left abstract, as `Name`.
use forwardr.Base.{ℕ, zero, suc, Bool, if◌then◌else◌, Option, none, some}

-- `ForwardMetadata`
pub record ForwardMetadata (Name : Type 0) : Type 0 where
  pub name : Name
  pub method : Name

-- A `oneshot::Receiver` is what its `recv` returns: `none` if the sender was dropped.
pub data ForwardReturn (R : Type 0) : Type 0 where
  raw : R → ForwardReturn R
  forward : Option R → ForwardReturn R

-- `into_sync`; `none` is the panic of its `expect`.
unfoldable pub into_sync : {R : Type 0} → ForwardReturn R → Option R
into_sync (ForwardReturn.raw value) = some value
into_sync (ForwardReturn.forward received) = received

module _ (Name Args R : Type 0) where
  -- What an implementation of `Forward` can do with the method that it is handed. A call that never
  -- returns has no result.
  pub record MethodCalls : Type 0 where
    pub metadata : ForwardMetadata Name
    pub call_rpc : Args → Option (ForwardReturn R)
    pub call_local : Args → Option (ForwardReturn R)
    pub call_raw : Args → ForwardReturn R

  -- The trait `Forward`.
  pub record Handle : Type 0 where
    pub is_own_side : Bool
    pub forward_sync : MethodCalls → Args → Option (ForwardReturn R)

  -- `ForwardSelector`: a `ForwardKind` of this index type, and a `Selector` that computes the index.
  pub record ForwardSelector (Index : Type 0) : Type 0 where
    pub kind : Index → Handle
    pub selector : Args → Index

  pub record ForwardSyncMethod (Server Thread : Type 0) : Type 0 where
    pub server : ForwardSelector Server
    pub thread : ForwardSelector Thread
    pub meta : ForwardMetadata Name
    pub function : Args → R

module _ {Name Args R Index : Type 0} where
  unfoldable pub select : ForwardSelector Name Args R Index → Args → Handle Name Args R
  select s args = s.kind (s.selector args)

module _ {Name Args R Server Thread : Type 0} where
  unfoldable pub call_raw : ForwardSyncMethod Name Args R Server Thread → Args → ForwardReturn R
  call_raw m args = ForwardReturn.raw (m.function args)

  -- The two calls, to a bounded depth: an implementation of `Forward` may call back.
  unfoldable mutual
    unfolding select call_raw

    pub call_rpc : ℕ → ForwardSyncMethod Name Args R Server Thread → Args → Option (ForwardReturn R)
    call_rpc zero m args = none
    call_rpc (suc depth) m args =
        let calls : MethodCalls Name Args R = record {
          metadata = m.meta;
          call_rpc = call_rpc depth m;
          call_local = call_local depth m;
          call_raw = call_raw m;
        } in
        let here = call_local depth m args in
        let handle = select m.server args in
        if handle.is_own_side then here else handle.forward_sync calls args

    pub call_local :
        ℕ → ForwardSyncMethod Name Args R Server Thread → Args → Option (ForwardReturn R)
    call_local zero m args = none
    call_local (suc depth) m args =
        let calls : MethodCalls Name Args R = record {
          metadata = m.meta;
          call_rpc = call_rpc depth m;
          call_local = call_local depth m;
          call_raw = call_raw m;
        } in
        let handle = select m.thread args in
        if handle.is_own_side then some (call_raw m args) else handle.forward_sync calls args
