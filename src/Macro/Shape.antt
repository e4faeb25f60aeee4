-- ===== src/Macro/Shape.antt =====
-- The proxy's items beside those of the block.
use forwardr.Base.{
  ℕ, ◌≡◌, refl, sym, ap, subst, ◌∙◌, Bool, true, false, if◌then◌else◌, Option, none, some, List, [],
  ◌∷◌, map, length, arith,
}
use forwardr.Macro.Syntax.{Token, Syn}
use forwardr.Macro.Config.{Parsed, ok, err, panicked, out_of_fuel, ◌>>=◌, Config}
use forwardr.Macro.Attrs.{
  Attribute, forward_ident, take_forward, parse_meta, config_of, parse_forward_config,
  parse_proxy_config,
}
use forwardr.Macro.Proxy.{
  Body, Method, Item, ItemImpl, forward_sync_method, forward_async_method, call_into_sync,
  call_await_into_async, Signature, quote_body, gen_body, parse_item, parse_items, proxy_name_of,
  parse_proxy,
}

-- Two lists related item by item.
abbrev pub Zip : {A B : Type 0} → (A → B → Type 0) → List A → List B → Type 0
Zip R [] [] = Unit
Zip R (x ∷ xs) (y ∷ ys) = R x y × Zip R xs ys
Zip R _ _ = ⊥

>>=-eq-ok :
    {X Y : Type 0} (first : Parsed X) (next : X → Parsed Y) {y : Y}
    → (first >>= next) ≡ ok y
    → (x : X) × (first ≡ ok x) × (next x ≡ ok y)
>>=-eq-ok panicked next e = cc
>>=-eq-ok out_of_fuel next e = cc
>>=-eq-ok (err _) next e = cc
>>=-eq-ok (ok x) next e = (x, refl, e)

ok-injective : {A : Type 0} {a b : A} → ok a ≡ ok b → a ≡ b
ok-injective e = cc

module _ {Path' Group Expr : Type 0} (syn : Syn Path' Group Expr) where
  -- The attributes without the first that is `forward`.
  abbrev pub without_forward : List (Attribute Path' Group) → List (Attribute Path' Group)
  without_forward [] = []
  without_forward (a ∷ attrs) =
      if syn.is_ident a.path forward_ident then attrs else a ∷ without_forward attrs

  abbrev rest_of :
      List (Attribute Path' Group)
      → Option (Attribute Path' Group × List (Attribute Path' Group))
      → List (Attribute Path' Group)
  rest_of attrs none = attrs
  rest_of attrs (some (found, rest)) = rest

  rest_of-take_forward :
      (attrs : List (Attribute Path' Group))
      → rest_of attrs (take_forward syn attrs) ≡ without_forward attrs
  unfolding take_forward
  rest_of-take_forward [] = refl
  rest_of-take_forward (a ∷ attrs) = ground (arith, rest_of-take_forward attrs)

  config_of-rest :
      (attrs : List (Attribute Path' Group))
      (o : Option (Attribute Path' Group × List (Attribute Path' Group))) (config : Config syn)
      (rest : List (Attribute Path' Group))
      → config_of syn attrs o ≡ ok (config, rest)
      → rest ≡ rest_of attrs o
  unfolding config_of
  config_of-rest attrs none config rest e = ap (λ q. q.1) (sym (ok-injective e))
  config_of-rest attrs (some (found, others)) config rest e =
      let (c, _, made) = >>=-eq-ok (parse_meta syn found.meta) _ e in
      ap (λ q. q.1) (sym (ok-injective made))

  parse_forward_config-rest :
      (attrs : List (Attribute Path' Group)) (config : Config syn)
      (rest : List (Attribute Path' Group))
      → parse_forward_config syn attrs ≡ ok (config, rest)
      → rest ≡ without_forward attrs
  unfolding parse_forward_config
  parse_forward_config-rest attrs config rest e =
      config_of-rest attrs (take_forward syn attrs) config rest e ∙ rest_of-take_forward attrs

length-map : {A B : Type 0} (f : A → B) (xs : List A) → length (map f xs) ≡ length xs
length-map f [] = refl
length-map f (x ∷ xs) = omega (arith, length-map f xs)

module _ {Path' Group Expr Ty Pat B : Type 0} (syn : Syn Path' Group Expr) where
  -- A method of the block after the macro: the same, without its `forward` attribute.
  pub record KeptMethod (m k : Method Path' Group Ty Pat B) : Type 0 where
    pub same_sig : k.sig ≡ m.sig
    pub same_block : k.block ≡ m.block
    pub attrs_left : k.attrs ≡ without_forward syn m.attrs

  -- The proxy's method for it: the same signature; a body that calls by the method's own name, is
  -- awaited just if the method is async, and packs as many arguments as the method has.
  pub record ProxyMethod (proxy_name : ℕ) (m : Method Path' Group Ty Pat B)
      (p : Method Path' Group Ty Pat (Body Path' Expr Ty Pat)) : Type 0 where
    pub same_sig : p.sig ≡ m.sig
    pub attrs_left : p.attrs ≡ without_forward syn m.attrs
    pub under_name : p.block.proxy_name ≡ proxy_name
    pub calls : p.block.method_name ≡ m.sig.ident
    pub is_typed : length p.block.closure_args ≡ length m.sig.inputs
    pub is_split : length p.block.destruct_args ≡ length m.sig.inputs
    pub is_packed : length p.block.struct_args ≡ length m.sig.inputs
    pub is_awaited :
        p.block.method_call ≡ (if m.sig.is_async then call_await_into_async else call_into_sync)
    pub is_made :
        p.block.method_struct
        ≡ (if m.sig.is_async then forward_async_method else forward_sync_method)

module _ {Path' Group Expr Ty Pat B X : Type 0} (syn : Syn Path' Group Expr) where
  abbrev pub Kept : Item Path' Group Ty Pat B X → Item Path' Group Ty Pat B X → Type 0
  Kept (Item.fn m) (Item.fn k) = KeptMethod syn m k
  Kept (Item.other_item x) (Item.other_item y) = x ≡ y
  Kept _ _ = ⊥

  abbrev pub Proxied :
      ℕ → Item Path' Group Ty Pat B X → Item Path' Group Ty Pat (Body Path' Expr Ty Pat) X → Type 0
  Proxied name (Item.fn m) (Item.fn p) = ProxyMethod syn name m p
  Proxied name (Item.other_item x) (Item.other_item y) = x ≡ y
  Proxied name _ _ = ⊥

-- Where the macro gives a body, it is the one that was quoted.
if_ok : {X : Type 0} (b : Bool) (x y : X) → (if b then ok x else panicked) ≡ ok y → x ≡ y
if_ok true x y e = ok-injective e
if_ok false x y e = cc

gen_body-eq :
    {Path' Group Expr Ty Pat : Type 0} (syn : Syn Path' Group Expr) (is_expr : Pat → Bool)
    (name : ℕ) (config : Config syn) (sig : Signature Ty Pat) (b : Body Path' Expr Ty Pat)
    → gen_body syn is_expr name config sig ≡ ok b
    → quote_body syn name config sig ≡ b
unfolding gen_body
gen_body-eq syn is_expr name config sig b e = if_ok _ _ b e

module _ {Path' Group Expr Ty Pat B X : Type 0} (syn : Syn Path' Group Expr)
    (is_expr : Pat → Bool) where
  parse_item-Shape :
      (name : ℕ) (item kept : Item Path' Group Ty Pat B X)
      (made : Item Path' Group Ty Pat (Body Path' Expr Ty Pat) X)
      → parse_item syn is_expr name item ≡ ok (kept, made)
      → Kept syn item kept × Proxied syn name item made
  unfolding parse_item quote_body
  parse_item-Shape name (Item.fn m) kept made e =
      let ((config, attrs), found, with_body) = >>=-eq-ok (parse_forward_config syn m.attrs) _ e in
      let (b, quoted, built) = >>=-eq-ok (gen_body syn is_expr name config m.sig) _ with_body in
      let rest = parse_forward_config-rest syn m.attrs config attrs found in
      subst (λ q. Kept syn (Item.fn m) q.0 × Proxied syn name (Item.fn m) q.1)
        (ap
            (λ b'. (
              Item.fn (record m { attrs = attrs }),
              Item.fn (record { attrs = attrs; sig = m.sig; block = b' }),
            ))
            (gen_body-eq syn is_expr name config m.sig b quoted)
          ∙ ok-injective built)
        (
          record { same_sig = refl; same_block = refl; attrs_left = rest },
          record {
            same_sig = refl;
            attrs_left = rest;
            under_name = refl;
            calls = refl;
            is_typed = length-map _ m.sig.inputs;
            is_split = length-map _ m.sig.inputs;
            is_packed = length-map _ m.sig.inputs;
            is_awaited = refl;
            is_made = refl;
          },
        )
  parse_item-Shape name (Item.other_item x) kept made e =
      subst
        (λ q.
          Kept {B = B} syn (Item.other_item x) q.0
          × Proxied {B = B} syn name (Item.other_item x) q.1)
        (ok-injective e) (refl, refl)

  parse_items-Shape :
      (name : ℕ) (items kept : List (Item Path' Group Ty Pat B X))
      (made : List (Item Path' Group Ty Pat (Body Path' Expr Ty Pat) X))
      → parse_items syn is_expr name items ≡ ok (kept, made)
      → Zip (Kept syn) items kept × Zip (Proxied syn name) items made
  unfolding parse_items
  parse_items-Shape name [] kept made e =
      subst (λ q. Zip (Kept {B = B} syn) [] q.0 × Zip (Proxied {B = B} syn name) [] q.1)
        (ok-injective e) (tt, tt)
  parse_items-Shape name (item ∷ items) kept made e =
      let ((k, p), one, others) = >>=-eq-ok (parse_item syn is_expr name item) _ e in
      let ((ks, ps), rest, built) = >>=-eq-ok (parse_items syn is_expr name items) _ others in
      let (kept_one, made_one) = parse_item-Shape name item k p one in
      let (kept_rest, made_rest) = parse_items-Shape name items ks ps rest in
      subst (λ q. Zip (Kept syn) (item ∷ items) q.0 × Zip (Proxied syn name) (item ∷ items) q.1)
        (ok-injective built) ((kept_one, kept_rest), (made_one, made_rest))

  -- Where the macro succeeds, there is one proxy name, and item by item: the block keeps each method but for
  -- its `forward` attribute, the proxy has a method for it under that name, and all other items are in
  -- both as they were.
  pub parse_proxy-Shape :
      (attrs : List (Token Group)) (implfor kept : ItemImpl Path' Group Ty Pat B X)
      (made : ItemImpl Path' Group Ty Pat (Body Path' Expr Ty Pat) X)
      → parse_proxy syn is_expr attrs implfor ≡ ok (kept, made)
      → (name : ℕ) × Zip (Kept syn) implfor.items kept.items
        × Zip (Proxied syn name) implfor.items made.items
  unfolding parse_proxy
  parse_proxy-Shape attrs implfor kept made e =
      let (config, _, named) = >>=-eq-ok (parse_proxy_config syn attrs) _ e in
      let (name, _, gone_through) = >>=-eq-ok (proxy_name_of syn config implfor.trait_) _ named in
      let ((ks, ps), items, built) =
        >>=-eq-ok (parse_items syn is_expr name implfor.items) _ gone_through in
      let (keeps, makes) = parse_items-Shape name implfor.items ks ps items in
      subst
        (λ q.
          (n : ℕ) × Zip (Kept syn) implfor.items q.0.items
          × Zip (Proxied syn n) implfor.items q.1.items)
        (ok-injective built) (name, keeps, makes)
