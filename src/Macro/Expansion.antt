-- ===== src/Macro/Expansion.antt =====
-- forward_macro/src/lib.rs with forward/src/lib.rs: what the body does that the macro makes for a method.
use forwardr.Base.{
  ℕ, suc, ◌≡◌, ◌≢◌, refl, ap, ◌∙◌, Bool, true, false, Option, none, some, List, [], ◌∷◌,
  if◌then◌else◌, Bool-cases, inl, inr,
}
use forwardr.Base.Dict.{lookup}
use forwardr.Forward.Calls.{ForwardSyncMethod, call_rpc, select}
use forwardr.Forward.Hops.{Hop, own, rpc, handle_of}
use forwardr.Forward.Async.{
  Async, ◌>>=◌, into_async, ForwardAsyncMethod, async_call_rpc, async_handle_of,
}
use forwardr.Forward.Transparency.{call_rpc-transparent}
use forwardr.Forward.Polls.{async_call_rpc-transparent}
use forwardr.Forward.Proxy.{ForwardProxy, as_raw_ref, sync_value}
use forwardr.Macro.Syntax.{Syn}
use forwardr.Macro.Config.{Parsed, ok, Config}
use forwardr.Macro.Attrs.{thread_key}
use forwardr.Macro.Proxy.{
  Body, GenSelector, Signature, receiver, ArgPat, MethodStruct, MethodCall, forward_sync_method,
  forward_async_method, call_into_sync, call_await_into_async, gen_selector, quote_body, gen_body,
}

-- What a call of the method that was made comes to. A macro that panics, and a body that
-- does not compile, give no code.
pub data Meaning (R : Type 0) : Type 0 where
  value : Option R → Meaning R
  future : Async R → Meaning R
  no_code : Meaning R

-- What the names in the body stand for. An index is a number, and that of `()` is 0. Of the type of `self`,
-- `is_shared` says whether it is `&Self`.
pub record Scope (Path' Expr Ty T R : Type 0) : Type 0 where
  pub is_shared : Ty → Bool
  pub kind : Path' → ℕ → Hop
  pub selector : Expr → ForwardProxy T → ℕ
  pub value_of : ℕ → T → R
  pub future_of : ℕ → T → Async R

module _ {Path' Expr Ty T R : Type 0} (scope : Scope Path' Expr Ty T R) where
  -- `ForwardSelector { kind: …, selector: … }`
  unfoldable pub kind_of : GenSelector Path' Expr → ℕ → Hop
  kind_of g i = elim g.kind [ none ↦ own | some path ↦ scope.kind path i ]

  unfoldable pub index_of : GenSelector Path' Expr → ForwardProxy T → ℕ
  index_of g args = elim g.selector [ none ↦ 0 | some e ↦ scope.selector e args ]

  unfoldable pub hop_of : GenSelector Path' Expr → ForwardProxy T → Hop
  unfolding kind_of index_of
  hop_of g args = kind_of g (index_of g args)

module _ {Path' Expr Ty Pat T R : Type 0} (scope : Scope Path' Expr Ty T R) where
  unfoldable pub sync_method : Body Path' Expr Ty Pat → ForwardSyncMethod ℕ (ForwardProxy T) R ℕ ℕ
  unfolding kind_of index_of as_raw_ref handle_of
  sync_method b = record {
    server = record {
      kind = λ i. handle_of (kind_of scope b.server i);
      selector = index_of scope b.server;
    };
    thread = record {
      kind = λ i. handle_of (kind_of scope b.thread i);
      selector = index_of scope b.thread;
    };
    meta = record { name = b.proxy_name; method = b.forward_name };
    function = λ target. scope.value_of b.method_name (as_raw_ref target);
  }

  unfoldable pub async_method : Body Path' Expr Ty Pat → ForwardAsyncMethod ℕ (ForwardProxy T) R ℕ ℕ
  unfolding kind_of index_of as_raw_ref async_handle_of
  async_method b = record {
    server_kind = λ i. async_handle_of (kind_of scope b.server i);
    server_index = index_of scope b.server;
    thread_kind = λ i. async_handle_of (kind_of scope b.thread i);
    thread_index = index_of scope b.thread;
    meta = record { name = b.proxy_name; method = b.forward_name };
    function = λ target. scope.future_of b.method_name (as_raw_ref target);
  }

  -- The last line of the body, on the method that stands above it.
  unfoldable pub run_call :
      ℕ → Body Path' Expr Ty Pat → ForwardProxy T → MethodStruct → MethodCall → Meaning R
  unfolding sync_method async_method call_rpc async_call_rpc sync_value ◌>>=◌ into_async
  run_call depth b self forward_sync_method call_into_sync =
      value (sync_value (call_rpc depth (sync_method b) self))
  run_call depth b self forward_async_method call_await_into_async =
      future (async_call_rpc depth (async_method b) self >>= into_async)
  run_call depth b self _ _ = no_code

  -- The call in the closure is by `&Self` and passes no arguments: it wants a method that takes just that.
  abbrev takes_shared_self : List Ty → List (ArgPat Pat) → Bool
  takes_shared_self (ty ∷ []) (ArgPat.target _ ∷ []) = scope.is_shared ty
  takes_shared_self _ _ = false

  unfoldable pub run_body : ℕ → Body Path' Expr Ty Pat → ForwardProxy T → Meaning R
  unfolding run_call
  run_body depth b self =
      if takes_shared_self b.closure_args b.destruct_args
      then run_call depth b self b.method_struct b.method_call
      else no_code

  -- What the macro gives, run.
  unfoldable pub run_made : ℕ → Parsed (Body Path' Expr Ty Pat) → ForwardProxy T → Meaning R
  unfolding run_body
  run_made depth (ok b) self = run_body depth b self
  run_made depth _ self = no_code

  run_sync-value :
      (depth : ℕ) (b : Body Path' Expr Ty Pat) (self : ForwardProxy T)
      → hop_of scope b.thread self ≢ rpc
      → run_call (suc (suc depth)) b self forward_sync_method call_into_sync
        ≡ value (some (scope.value_of b.method_name self.target))
  unfolding run_call sync_method hop_of sync_value as_raw_ref select
  run_sync-value depth b self n =
      let (r, returned, given) =
        call_rpc-transparent (sync_method b) self depth (hop_of scope b.server self)
          (hop_of scope b.thread self) refl refl n in
      ap (λ c. value (sync_value c)) returned ∙ ap value given

  run_async-future :
      (depth : ℕ) (b : Body Path' Expr Ty Pat) (self : ForwardProxy T)
      → hop_of scope b.thread self ≢ rpc
      → run_call (suc (suc depth)) b self forward_async_method call_await_into_async
        ≡ future (scope.future_of b.method_name self.target)
  unfolding run_call async_method hop_of as_raw_ref
  run_async-future depth b self n = ap future (
      async_call_rpc-transparent (async_method b) self depth (hop_of scope b.server self)
        (hop_of scope b.thread self) refl refl n)

-- What the method of the target gives, in the way that the signature asks for.
abbrev pub direct :
    {Path' Expr Ty T R : Type 0} → Scope Path' Expr Ty T R → Bool → ℕ → T → Meaning R
direct scope true name t = future (scope.future_of name t)
direct scope false name t = value (some (scope.value_of name t))

module _ {Path' Group Expr Ty Pat T R : Type 0} (syn : Syn Path' Group Expr)
    (scope : Scope Path' Expr Ty T R) (is_expr : Pat → Bool) where
  -- A method that takes `&self` only, whatever the settings of its attribute: the macro makes a body for it,
  -- and unless the handle picked for its thread is `RpcForward`, a call of it gives what the target's own
  -- method gives, an async one with the same polls; and calls two deep are enough.
  pub generated_transparent :
      (depth name : ℕ) (config : Config syn) (sig : Signature Ty Pat) (ty : Ty)
      (self : ForwardProxy T)
      → sig.inputs ≡ receiver false ty ∷ []
      → scope.is_shared ty ≡ true
      → hop_of scope (gen_selector (lookup thread_key config)) self ≢ rpc
      → run_made scope (suc (suc depth)) (gen_body syn is_expr name config sig) self
        ≡ direct scope sig.is_async sig.ident self.target
  unfolding run_made run_body gen_body quote_body
  generated_transparent depth name config sig ty self e by_ref n =
      let taking_self : Bool → Body Path' Expr Ty Pat = λ is_async.
        quote_body syn name config
          (record { ident = sig.ident; is_async = is_async; inputs = receiver false ty ∷ [] }) in
      elim (Bool-cases sig.is_async) [
        | inl a ↦ rw (e, a, by_ref) (run_async-future scope depth (taking_self true) self n)
        | inr s ↦ rw (e, s, by_ref) (run_sync-value scope depth (taking_self false) self n)
      ]
