-- ===== src/Macro/Runs/Expanded.antt =====
-- Bodies that the macro makes, run on concrete targets, and the theorems there.
use forwardr.Base.{ℕ, ◌+◌, ◌≡◌, refl, true, false, ◌==◌, none, some, [], ◌∷◌}
use forwardr.Forward.Hops.{rpc, local}
use forwardr.Forward.Async.{ready, pending}
use forwardr.Macro.Config.{Config, selector_attr}
use forwardr.Macro.Attrs.{server_key, thread_key}
use forwardr.Macro.Proxy.{Signature, receiver, gen_selector, gen_body}
use forwardr.Macro.Expansion.{Scope, hop_of, future, run_made, generated_transparent}
use forwardr.Macro.Runs.{small_syn, is_small_expr}

-- Type 60 is `&Self`. Kind 20 is `RpcForward`, all others `LocalForward`; a selector gives the number that it is.
abbrev counters : Scope ℕ ℕ ℕ ℕ ℕ
counters = record {
  is_shared = λ ty. ty == 60;
  kind = λ path i. elim (path == 20) [ true ↦ rpc | false ↦ local ];
  selector = λ e args. e;
  value_of = λ name n. name + n;
  future_of = λ name n. pending (ready (name + n));
}

-- `#[forward(server = 20, thread = 21(2))] async fn 50(&self)`
abbrev hop_config : Config small_syn
hop_config =
    (server_key, selector_attr (record { path = 20; selector = none }))
    ∷ (thread_key, selector_attr (record { path = 21; selector = some 2 }))
    ∷ []

abbrev hop_sig : Signature ℕ ℕ
hop_sig = record { ident = 50; is_async = true; inputs = receiver false 60 ∷ [] }

generated_transparent_example :
    run_made counters 2
      (gen_body small_syn is_small_expr 40 hop_config hop_sig)
      (record { target = 7 })
    ≡ future (pending (ready 57))
unfolding hop_of gen_selector
generated_transparent_example =
    generated_transparent small_syn counters is_small_expr 0 40 hop_config hop_sig 60
      (record { target = 7 }) refl refl (λ e. cc)
