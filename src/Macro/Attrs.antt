-- ===== src/Macro/Attrs.antt =====
-- forward_macro/src/config/mod.rs: the two configurations; and forward_macro/src/parser.rs, which reads
-- them off the attributes of the macro and of a method.
use forwardr.Base.{ℕ, ◌≡◌, refl, if◌then◌else◌, Option, none, some, List, [], ◌∷◌}
use forwardr.Macro.Syntax.{Token, lit_str, Syn}
use forwardr.Macro.Config.{
  Parsed, ok, err, refused, ◌>>=◌, selector_kind, str_kind, int_kind, Schema, Config, parse_named,
  parse_setting, parse_loop, parse_config,
}

-- The names that the code compares identifiers with, numbered.
abbrev pub name_key : ℕ
name_key = 0

abbrev pub server_key : ℕ
server_key = 1

abbrev pub thread_key : ℕ
thread_key = 2

abbrev pub timeout_key : ℕ
timeout_key = 3

abbrev pub forward_ident : ℕ
forward_ident = 4

abbrev pub proxy_config : Schema
proxy_config = record { elided = (name_key, str_kind) ∷ []; fields = (name_key, str_kind) ∷ [] }

abbrev pub forward_config : Schema
forward_config = record {
  elided = (server_key, selector_kind) ∷ (thread_key, selector_kind) ∷ [];
  fields =
      (server_key, selector_kind)
      ∷ (thread_key, selector_kind)
      ∷ (name_key, str_kind)
      ∷ (timeout_key, int_kind)
      ∷ [];
}

-- `syn`'s `Meta`, and an attribute: `#[path]`, `#[path = value]` or `#[path(tokens)]`.
pub data Meta (Group : Type 0) : Type 0 where
  meta_path meta_name_value : Meta Group
  meta_list : List (Token Group) → Meta Group

pub record Attribute (Path' Group : Type 0) : Type 0 where
  pub path : Path'
  pub meta : Meta Group

module _ {Path' Group Expr : Type 0} (syn : Syn Path' Group Expr) where
  unfoldable pub parse_proxy_config : List (Token Group) → Parsed (Config syn)
  unfolding parse_config
  parse_proxy_config attrs = parse_config syn proxy_config attrs

  -- `position` and `remove`: the first attribute that is `forward`, and the others.
  unfoldable pub take_forward :
      List (Attribute Path' Group) → Option (Attribute Path' Group × List (Attribute Path' Group))
  take_forward [] = none
  take_forward (a ∷ attrs) =
      if syn.is_ident a.path forward_ident
      then some (a, attrs)
      else elim (take_forward attrs) [ none ↦ none | some (found, rest) ↦ some (found, a ∷ rest) ]

  unfoldable pub parse_meta : Meta Group → Parsed (Config syn)
  unfolding parse_config
  parse_meta meta_path = ok []
  parse_meta meta_name_value = err refused
  parse_meta (meta_list ts) = parse_config syn forward_config ts

  unfoldable pub config_of :
      List (Attribute Path' Group)
      → Option (Attribute Path' Group × List (Attribute Path' Group))
      → Parsed (Config syn × List (Attribute Path' Group))
  unfolding parse_meta
  config_of attrs none = ok ([], attrs)
  config_of attrs (some (forward, rest)) = parse_meta forward.meta >>= λ config. ok (config, rest)

  -- The configuration of a method, and the attributes that it keeps.
  unfoldable pub parse_forward_config :
      List (Attribute Path' Group) → Parsed (Config syn × List (Attribute Path' Group))
  unfolding take_forward config_of
  parse_forward_config attrs = config_of attrs (take_forward attrs)

  -- `ProxyConfig` lets the name be elided, but no input makes use of it: a string literal at the start
  -- is refused, whatever follows, since a path is looked for first.
  pub elided_name-refused :
      (s : ℕ) (rest : List (Token Group)) → parse_proxy_config (lit_str s ∷ rest) ≡ err refused
  unfolding parse_proxy_config parse_config parse_loop parse_setting parse_named
  elided_name-refused s rest = rw (syn.path-lit_str s rest) refl
