-- ===== src/Macro/Example.antt =====
-- examples/test.rs: the proxy of the example, which is written out there as the attribute macro makes it.
use forwardr.Base.{ℕ, zero, suc, Bool, ◌≡◌, refl, false, true, some, [], ◌∷◌, List}
use forwardr.Forward.Hops.{own}
use forwardr.Forward.Proxy.{
  ForwardProxy, Target, something1234, get_remote_something_name, async_get_remote_name,
  target_get_remote_something, target_async_get_remote, get_remote_something, async_get_remote,
  raw_get_remote_something, raw_async_get_remote,
}
use forwardr.Macro.Syntax.{Syn}
use forwardr.Macro.Proxy.{Signature, receiver, gen_body}
use forwardr.Macro.Expansion.{Scope, value, future, run_made}

-- The two methods of the trait, by their signatures.
module _ {Ty Pat : Type 0} (self_type : Ty) where
  abbrev pub sync_sig : Signature Ty Pat
  sync_sig = record {
    ident = get_remote_something_name;
    is_async = false;
    inputs = receiver false self_type ∷ [];
  }

  abbrev pub async_sig : Signature Ty Pat
  async_sig = record {
    ident = async_get_remote_name;
    is_async = true;
    inputs = receiver false self_type ∷ [];
  }

module _ {Path' Expr Ty : Type 0} where
  -- Both methods take `&self`. No attribute of the example names a kind or a selector.
  abbrev pub example_scope : Scope Path' Expr Ty Target (List ℕ)
  example_scope = record {
    is_shared = λ ty. true;
    kind = λ path i. own;
    selector = λ e args. 0;
    value_of = λ name. target_get_remote_something;
    future_of = λ name. target_async_get_remote;
  }

module _ {Path' Group Expr Ty : Type 0} (Pat : Type 0) (syn : Syn Path' Group Expr)
    (is_expr : Pat → Bool) (self_type : Ty) where
  -- At every depth of calls, the two methods of the example's proxy do what the macro's bodies do for a
  -- trait whose proxy is called `something1234`, and whose methods have no settings.
  pub example_expanded :
      (depth : ℕ) (self : ForwardProxy Target)
      → (run_made example_scope depth
            (gen_body syn is_expr something1234 [] (sync_sig {Pat = Pat} self_type))
            self
          ≡ value (get_remote_something depth self))
        × (run_made example_scope depth
              (gen_body syn is_expr something1234 [] (async_sig {Pat = Pat} self_type))
              self
            ≡ future (async_get_remote depth self))
  unfolding run_made gen_body get_remote_something async_get_remote
  example_expanded zero self = (refl, refl)
  example_expanded (suc zero) self = (refl, refl)
  example_expanded (suc (suc depth)) self = (refl, refl)

-- The proxy of the example gives what the raw methods of its target give, whatever the target holds.
pub proxy_gives_raw :
    (depth : ℕ) (self : ForwardProxy Target)
    → (get_remote_something (suc (suc depth)) self ≡ some (raw_get_remote_something self.target))
      × (async_get_remote (suc (suc depth)) self ≡ raw_async_get_remote self.target)
unfolding get_remote_something async_get_remote
proxy_gives_raw depth self = (refl, refl)
