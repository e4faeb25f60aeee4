-- ===== src/Macro/Proxy.antt =====
-- forward_macro/src/lib.rs, `parse`: the `impl` block of the proxy that is made from one. Types, patterns
-- and items that are not methods are carried over as they are.
use forwardr.Base.{ℕ, Bool, true, not, ◌&&◌, if◌then◌else◌, Option, none, some, List, [], ◌∷◌, map}
use forwardr.Base.Dict.{lookup}
use forwardr.Macro.Syntax.{Token, Syn}
use forwardr.Macro.Config.{
  Parsed, ok, err, panicked, refused, ◌>>=◌, Attr, selector_attr, str_attr, Config,
}
use forwardr.Macro.Attrs.{
  name_key, server_key, thread_key, Attribute, parse_proxy_config, parse_forward_config,
}

-- `syn::FnArg` (`self` by its mutability, which `&mut self` has too, and its type), a method's signature, a method, and an item of the block.
pub data FnArg (Ty Pat : Type 0) : Type 0 where
  receiver : Bool → Ty → FnArg Ty Pat
  typed : Pat → Ty → FnArg Ty Pat

pub record Signature (Ty Pat : Type 0) : Type 0 where
  pub ident : ℕ
  pub is_async : Bool
  pub inputs : List (FnArg Ty Pat)

-- What stands in a tuple of arguments: `target` or `self`, perhaps `mut`, or a pattern.
pub data ArgPat (Pat : Type 0) : Type 0 where
  target self : Bool → ArgPat Pat
  pat : Pat → ArgPat Pat

-- The expression that makes a `ForwardSelector`; `none` is `()`.
pub record GenSelector (Path' Expr : Type 0) : Type 0 where
  pub kind : Option Path'
  pub selector : Option Expr

pub data MethodStruct : Type 0 where
  forward_sync_method forward_async_method : MethodStruct

-- `method.call_rpc(args)` with `into_sync()`, or awaited with `into_async().await`.
pub data MethodCall : Type 0 where
  call_into_sync call_await_into_async : MethodCall

-- The body that is made for a method: the parts that depend on it.
pub record Body (Path' Expr Ty Pat : Type 0) : Type 0 where
  pub server : GenSelector Path' Expr
  pub thread : GenSelector Path' Expr
  pub proxy_name : ℕ
  pub forward_name : ℕ
  pub method_struct : MethodStruct
  pub closure_args : List Ty
  pub destruct_args : List (ArgPat Pat)
  pub method_name : ℕ
  pub struct_args : List (ArgPat Pat)
  pub method_call : MethodCall

module _ (Path' Group Ty Pat : Type 0) where
  -- A method whose body is a `B`, and an item; an item of another kind is an `X`.
  pub record Method (B : Type 0) : Type 0 where
    pub attrs : List (Attribute Path' Group)
    pub sig : Signature Ty Pat
    pub block : B

  pub data Item (B X : Type 0) : Type 0 where
    fn : Method B → Item B X
    other_item : X → Item B X

  -- The trait's path, by its segments, if there is one; and the items.
  pub record ItemImpl (B X : Type 0) : Type 0 where
    pub trait_ : Option (List ℕ)
    pub items : List (Item B X)

module _ {Path' Expr : Type 0} where
  -- The match on `config.server`, and that on `config.thread`; these two fields hold a selector.
  unfoldable pub gen_selector : Option (Attr Path' Expr) → GenSelector Path' Expr
  gen_selector (some (selector_attr s)) = record { kind = some s.path; selector = s.selector }
  gen_selector _ = record { kind = none; selector = none }

  unfoldable pub name_or : ℕ → Option (Attr Path' Expr) → ℕ
  name_or default (some (str_attr s)) = s
  name_or default _ = default

module _ {Ty Pat : Type 0} where
  abbrev pub arg_type : FnArg Ty Pat → Ty
  arg_type (receiver _ ty) = ty
  arg_type (typed _ ty) = ty

  abbrev pub destruct_arg : FnArg Ty Pat → ArgPat Pat
  destruct_arg (receiver mutable _) = target mutable
  destruct_arg (typed p _) = pat p

  abbrev pub struct_arg : FnArg Ty Pat → ArgPat Pat
  struct_arg (receiver mutable _) = self mutable
  struct_arg (typed p _) = pat p

module _ {Pat : Type 0} where
  -- Whether an argument of the tuple reads as an expression; of a pattern the parameter says so.
  abbrev pub reads_as_expr : (Pat → Bool) → ArgPat Pat → Bool
  reads_as_expr is_expr (target mutable) = not mutable
  reads_as_expr is_expr (self mutable) = not mutable
  reads_as_expr is_expr (pat p) = is_expr p

  abbrev pub read_as_exprs : (Pat → Bool) → List (ArgPat Pat) → Bool
  read_as_exprs is_expr [] = true
  read_as_exprs is_expr (a ∷ args) = reads_as_expr is_expr a && read_as_exprs is_expr args

-- `get_default_name`
unfoldable pub last_segment : List ℕ → Parsed ℕ
last_segment [] = err refused
last_segment (x ∷ []) = ok x
last_segment (x ∷ y ∷ xs) = last_segment (y ∷ xs)

unfoldable pub get_default_name : Option (List ℕ) → Parsed ℕ
unfolding last_segment
get_default_name none = err refused
get_default_name (some path) = last_segment path

module _ {Path' Group Expr : Type 0} (syn : Syn Path' Group Expr) where
  -- The name of the proxy: the setting, or the trait's last segment.
  unfoldable pub proxy_name_of : Config syn → Option (List ℕ) → Parsed ℕ
  unfolding get_default_name
  proxy_name_of config trait_ = elim (lookup name_key config) [
    | some (str_attr s) ↦ ok s
    | _ ↦ get_default_name trait_
  ]

module _ {Path' Group Expr Ty Pat : Type 0} (syn : Syn Path' Group Expr) where
  -- The tokens that `parse_quote!` is given.
  unfoldable pub quote_body : ℕ → Config syn → Signature Ty Pat → Body Path' Expr Ty Pat
  unfolding gen_selector name_or
  quote_body proxy_name config sig = record {
    server = gen_selector (lookup server_key config);
    thread = gen_selector (lookup thread_key config);
    proxy_name = proxy_name;
    forward_name = name_or sig.ident (lookup name_key config);
    method_struct = if sig.is_async then forward_async_method else forward_sync_method;
    closure_args = map arg_type sig.inputs;
    destruct_args = map destruct_arg sig.inputs;
    method_name = sig.ident;
    struct_args = map struct_arg sig.inputs;
    method_call = if sig.is_async then call_await_into_async else call_into_sync;
  }

  -- `parse_quote!` panics on tokens that do not parse: `let args = (…)` wants expressions.
  unfoldable pub gen_body :
      (Pat → Bool) → ℕ → Config syn → Signature Ty Pat → Parsed (Body Path' Expr Ty Pat)
  unfolding quote_body
  gen_body is_expr proxy_name config sig =
      let body = quote_body proxy_name config sig in
      if read_as_exprs is_expr body.struct_args then ok body else panicked

module _ {Path' Group Expr Ty Pat B X : Type 0} (syn : Syn Path' Group Expr)
    (is_expr : Pat → Bool) where
  -- One turn of the loop over the items: the item as the block keeps it, and as the proxy has it.
  unfoldable pub parse_item :
      ℕ
      → Item Path' Group Ty Pat B X
      → Parsed (Item Path' Group Ty Pat B X × Item Path' Group Ty Pat (Body Path' Expr Ty Pat) X)
  unfolding parse_forward_config gen_body
  parse_item proxy_name (Item.fn m) = parse_forward_config syn m.attrs >>= λ (config, attrs).
      gen_body syn is_expr proxy_name config m.sig >>= λ body. ok (
        Item.fn (record m { attrs = attrs }),
        Item.fn (record { attrs = attrs; sig = m.sig; block = body }),
      )
  parse_item proxy_name (Item.other_item x) = ok (Item.other_item x, Item.other_item x)

  unfoldable pub parse_items :
      ℕ
      → List (Item Path' Group Ty Pat B X)
      → Parsed (
          List (Item Path' Group Ty Pat B X)
          × List (Item Path' Group Ty Pat (Body Path' Expr Ty Pat) X))
  unfolding parse_item
  parse_items proxy_name [] = ok ([], [])
  parse_items proxy_name (item ∷ items) = parse_item proxy_name item >>= λ (kept, made).
      parse_items proxy_name items >>= λ (kepts, mades). ok (kept ∷ kepts, made ∷ mades)

  -- `parse`: the block and its proxy.
  unfoldable pub parse_proxy :
      List (Token Group)
      → ItemImpl Path' Group Ty Pat B X
      → Parsed
          (ItemImpl Path' Group Ty Pat B X × ItemImpl Path' Group Ty Pat (Body Path' Expr Ty Pat) X)
  unfolding parse_proxy_config proxy_name_of parse_items
  parse_proxy attrs implfor = parse_proxy_config syn attrs >>= λ config.
      proxy_name_of syn config implfor.trait_ >>= λ name.
      parse_items name implfor.items >>= λ (kepts, mades).
      ok (record implfor { items = kepts }, record { trait_ = implfor.trait_; items = mades })
