-- ===== src/Macro/Runs.antt =====
-- The macro on concrete tokens, and the theorems there.
use forwardr.Base.{
  ℕ, Bool, ◌<◌, ◌≡◌, refl, true, false, ◌==◌, Option, none, some, List, [], ◌∷◌, length, ap, arith,
}
use mathlib.Core.Option.{some-injective}
use forwardr.Macro.Syntax.{Token, ident, lit_str, lit_int, eq_sign, comma, group, Syn}
use forwardr.Macro.Config.{
  ok, err, duplicated, refused, str_kind, int_kind, selector_attr, str_attr, int_attr, parse_attr,
  parse_config,
}
use forwardr.Macro.Leftover.{Ensures}
use forwardr.Macro.Total.{parse_config-Ensures}
use forwardr.Macro.Named.{Setting, Fits, print_settings, parse_config-print_settings}
use forwardr.Macro.Attrs.{
  Attribute, meta_path, meta_list, name_key, timeout_key, forward_ident, forward_config,
  parse_proxy_config, elided_name-refused,
}
use forwardr.Macro.Proxy.{
  receiver, typed, Item, Method, ItemImpl, parse_proxy, Body, ArgPat, forward_async_method,
  call_await_into_async,
}
use forwardr.Macro.Shape.{Zip, Kept, Proxied, parse_proxy-Shape}
mod Expanded

-- Paths of one identifier, groups of at most one number.
abbrev get_path : List (Token (Option ℕ)) → Option (ℕ × List (Token (Option ℕ)))
get_path (ident x ∷ rest) = some (x, rest)
get_path _ = none

get_path_shrinks :
    (ts rest : List (Token (Option ℕ))) (p : ℕ)
    → get_path ts ≡ some (p, rest)
    → length rest < length ts
get_path_shrinks (ident x ∷ ts) rest p e =
    let same = ap (λ q. length q.1) (some-injective _ _ e) in omega arith
get_path_shrinks ts rest p e = ground arith

abbrev small_syn : Syn ℕ (Option ℕ) ℕ
small_syn = record {
  parse_path = get_path;
  is_ident = λ p x. p == x;
  is_empty = elim [ none ↦ true | some _ ↦ false ];
  parse_expr = λ g. g;
  path_shrinks = get_path_shrinks;
  path-lit_str = λ s rest. refl;
  path-ident = λ x rest ends. (x, refl, λ y. refl);
}

-- `Game, UserThread(2), name = "brief"`, with a last comma.
abbrev forwarded : List (Token (Option ℕ))
forwarded =
    ident 20
    ∷ comma
    ∷ ident 21
    ∷ group (some 2)
    ∷ comma
    ∷ ident name_key
    ∷ eq_sign
    ∷ lit_str 30
    ∷ comma
    ∷ []

forwarded-config :
    parse_config small_syn forward_config forwarded
    ≡ ok (
        (1, selector_attr (record { path = 20; selector = none }))
        ∷ (2, selector_attr (record { path = 21; selector = some 2 }))
        ∷ (0, str_attr 30)
        ∷ [])
unfolding parse_config
forwarded-config = refl

parse_config-Ensures_example : Ensures (λ _. Unit) (parse_config small_syn forward_config forwarded)
parse_config-Ensures_example = parse_config-Ensures small_syn forward_config forwarded (omega arith)

-- `name = "brief", timeout = 5, name = "other"`.
abbrev brief : Setting ℕ (Option ℕ) ℕ
brief = record { name = name_key; kind = str_kind; attr = str_attr 30; value = lit_str 30 ∷ [] }

abbrev five : Setting ℕ (Option ℕ) ℕ
five = record { name = timeout_key; kind = int_kind; attr = int_attr 5; value = lit_int 5 ∷ [] }

brief-Fits : Fits small_syn forward_config brief
unfolding parse_attr
brief-Fits = record { is_field = refl; reads = λ rest ends. refl }

five-Fits : Fits small_syn forward_config five
unfolding parse_attr
five-Fits = record { is_field = refl; reads = λ rest ends. refl }

parse_config-print_settings_example :
    parse_config small_syn forward_config (print_settings (brief ∷ five ∷ brief ∷ []))
    ≡ err duplicated
parse_config-print_settings_example =
    parse_config-print_settings small_syn forward_config (brief ∷ five ∷ brief ∷ [])
      (brief-Fits, (five-Fits, (brief-Fits, tt)))

-- `impl Greeter for …` with one async method, `#[forward(Game)] #[doc] async fn greet(&self, n: …)`.
abbrev greet : Method ℕ (Option ℕ) ℕ ℕ ℕ
greet = record {
  attrs =
      record { path = forward_ident; meta = meta_list (ident 20 ∷ []) }
      ∷ record { path = 9; meta = meta_path }
      ∷ [];
  sig = record { ident = 50; is_async = true; inputs = receiver false 60 ∷ typed 70 61 ∷ [] };
  block = 80;
}

abbrev greeter : ItemImpl ℕ (Option ℕ) ℕ ℕ ℕ ℕ
greeter = record { trait_ = some (40 ∷ []); items = Item.fn greet ∷ [] }

abbrev doc_only : List (Attribute ℕ (Option ℕ))
doc_only = record { path = 9; meta = meta_path } ∷ []

abbrev kept_greeter : ItemImpl ℕ (Option ℕ) ℕ ℕ ℕ ℕ
kept_greeter = record {
  trait_ = some (40 ∷ []);
  items = Item.fn (record greet { attrs = doc_only }) ∷ [];
}

abbrev made_greeter : ItemImpl ℕ (Option ℕ) ℕ ℕ (Body ℕ ℕ ℕ ℕ) ℕ
made_greeter = record {
  trait_ = some (40 ∷ []);
  items =
      Item.fn (record {
        attrs = doc_only;
        sig = greet.sig;
        block = record {
          server = record { kind = some 20; selector = none };
          thread = record { kind = none; selector = none };
          proxy_name = 40;
          forward_name = 50;
          method_struct = forward_async_method;
          closure_args = 60 ∷ 61 ∷ [];
          destruct_args = ArgPat.target false ∷ ArgPat.pat 70 ∷ [];
          method_name = 50;
          struct_args = ArgPat.self false ∷ ArgPat.pat 70 ∷ [];
          method_call = call_await_into_async;
        };
      })
      ∷ [];
}

-- Pattern 70 is a name.
abbrev pub is_small_expr : ℕ → Bool
is_small_expr p = p == 70

greeter-made : parse_proxy small_syn is_small_expr [] greeter ≡ ok (kept_greeter, made_greeter)
unfolding parse_proxy
greeter-made = refl

parse_proxy-Shape_example :
    (name : ℕ) × Zip (Kept small_syn) greeter.items kept_greeter.items
    × Zip (Proxied small_syn name) greeter.items made_greeter.items
parse_proxy-Shape_example =
    parse_proxy-Shape small_syn is_small_expr [] greeter kept_greeter made_greeter greeter-made
