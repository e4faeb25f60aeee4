-- ===== src/Macro/Config.antt =====
-- forward_macro/src/config: `PathSelector`, and the parser that the macro `named_attrs_config!` makes for
-- a list of settings. The two configurations are in `Macro.Attrs`.
use forwardr.Base.{
  ℕ, zero, suc, ◌+◌, Bool, true, false, if◌then◌else◌, Option, none, some, List, [], ◌∷◌, length,
  get_elem?,
}
use forwardr.Base.Dict.{Dict, lookup, insert}
use forwardr.Macro.Syntax.{Token, lit_str, lit_int, eq_sign, comma, group, Syn}

-- The errors of the source, and one for what `syn` refuses. `panicked` is the `assert!` or the `unwrap`.
pub data Error : Type 0 where
  duplicated expected_named refused : Error

pub data Parsed (A : Type 0) : Type 0 where
  ok : A → Parsed A
  err : Error → Parsed A
  panicked out_of_fuel : Parsed A

infixl 5 ◌>>=◌
abbrev pub ◌>>=◌ : {A B : Type 0} → Parsed A → (A → Parsed B) → Parsed B
ok a >>= f = f a
err e >>= f = err e
panicked >>= f = panicked
out_of_fuel >>= f = out_of_fuel

abbrev pub or_refused : {A : Type 0} → Option A → Parsed A
or_refused none = err refused
or_refused (some a) = ok a

pub record PathSelector (Path' Expr : Type 0) : Type 0 where
  pub path : Path'
  pub selector : Option Expr

-- The types of settings, and the values.
pub data Kind : Type 0 where
  selector_kind str_kind int_kind : Kind

pub data Attr (Path' Expr : Type 0) : Type 0 where
  selector_attr : PathSelector Path' Expr → Attr Path' Expr
  str_attr int_attr : ℕ → Attr Path' Expr

-- A list of settings: all by name, in the order of the fields, and those whose name may be elided.
pub record Schema : Type 0 where
  pub elided : List (ℕ × Kind)
  pub fields : List (ℕ × Kind)

module _ {Path' Group Expr : Type 0} (syn : Syn Path' Group Expr) where
  -- `PathSelector::parse`
  unfoldable pub parse_group :
      Path' → List (Token Group) → Parsed (PathSelector Path' Expr × List (Token Group))
  parse_group path (group content ∷ rest) =
      if syn.is_empty content
      then ok (record { path = path; selector = none }, rest)
      else or_refused (syn.parse_expr content) >>= λ e.
          ok (record { path = path; selector = some e }, rest)
  parse_group path rest = ok (record { path = path; selector = none }, rest)

  unfoldable pub parse_selector :
      List (Token Group) → Parsed (PathSelector Path' Expr × List (Token Group))
  unfolding parse_group
  parse_selector ts = or_refused (syn.parse_path ts) >>= λ (path, rest). parse_group path rest

  -- `input.parse()` for a setting of some type.
  unfoldable pub parse_attr :
      Kind → List (Token Group) → Parsed (Attr Path' Expr × List (Token Group))
  unfolding parse_selector
  parse_attr selector_kind ts = parse_selector ts >>= λ (s, rest). ok (Attr.selector_attr s, rest)
  parse_attr str_kind (lit_str s ∷ rest) = ok (Attr.str_attr s, rest)
  parse_attr int_kind (lit_int n ∷ rest) = ok (Attr.int_attr n, rest)
  parse_attr _ _ = err refused

  -- The first field whose name the path is.
  unfoldable pub find_field : Path' → List (ℕ × Kind) → Option (ℕ × Kind)
  find_field path [] = none
  find_field path ((name, kind) ∷ fields) =
      if syn.is_ident path name then some (name, kind) else find_field path fields

  -- `NamedAttr::parse`: `none` is `Ok(None)`.
  abbrev pub Named : Type 0
  Named = Option (ℕ × Attr Path' Expr × List (Token Group))

  unfoldable pub parse_value : Bool → Option (ℕ × Kind) → List (Token Group) → Parsed Named
  unfolding parse_attr
  parse_value force (some (name, kind)) ts =
      parse_attr kind ts >>= λ (attr, rest). ok (some (name, attr, rest))
  parse_value true none ts = err expected_named
  parse_value false none ts = ok none

  unfoldable pub parse_eq : Bool → List (ℕ × Kind) → Path' → List (Token Group) → Parsed Named
  unfolding parse_value find_field
  parse_eq force fields path (eq_sign ∷ rest) = parse_value force (find_field path fields) rest
  parse_eq force fields path rest = parse_value force none rest

  unfoldable pub parse_named : Bool → List (ℕ × Kind) → List (Token Group) → Parsed Named
  unfolding parse_eq
  parse_named force fields ts =
      or_refused (syn.parse_path ts) >>= λ (path, rest). parse_eq force fields path rest

  abbrev pub Config : Type 0
  Config = Dict (Attr Path' Expr)

  -- `set_elided` and `set_named`
  unfoldable pub set_elided : ℕ → Attr Path' Expr → Config → Parsed Config
  set_elided name attr config = elim (lookup name config) [
    | some _ ↦ panicked
    | none ↦ ok (insert name attr config)
  ]

  unfoldable pub set_named : ℕ → Attr Path' Expr → Config → Parsed Config
  set_named name attr config = elim (lookup name config) [
    | some _ ↦ err duplicated
    | none ↦ ok (insert name attr config)
  ]

  -- The loop's body up to the end of the setting: the settings, `index`, `current` and the input after it.
  abbrev pub Progress : Type 0
  Progress = Config × ℕ × Option (ℕ × Kind) × List (Token Group)

  unfoldable pub unwrap_named : ℕ → Config → Named → Parsed Progress
  unfolding set_named
  unwrap_named index config none = panicked
  unwrap_named index config (some (name, attr, rest)) =
      set_named name attr config >>= λ config'. ok (config', index, none, rest)

  unfoldable pub named_or_elided :
      Schema → ℕ → Config → ℕ × Kind → List (Token Group) → Named → Parsed Progress
  unfolding set_named set_elided parse_attr
  named_or_elided schema index config order ts (some (name, attr, rest)) =
      set_named name attr config >>= λ config'. ok (config', index, none, rest)
  named_or_elided schema index config (name, kind) ts none = parse_attr kind ts >>= λ (attr, rest).
      set_elided name attr config >>= λ config'.
      ok (config', index + 1, get_elem? schema.elided (index + 1), rest)

  unfoldable pub parse_setting :
      Schema → Config → ℕ → Option (ℕ × Kind) → List (Token Group) → Parsed Progress
  unfolding parse_named named_or_elided unwrap_named
  parse_setting schema config index (some order) ts =
      parse_named false schema.fields ts >>= named_or_elided schema index config order ts
  parse_setting schema config index none ts =
      parse_named true schema.fields ts >>= unwrap_named index config

  -- After a setting: the end, a last comma, or a comma and more.
  unfoldable pub after_setting : List (Token Group) → Parsed (Option (List (Token Group)))
  after_setting [] = ok none
  after_setting (comma ∷ []) = ok none
  after_setting (comma ∷ t ∷ rest) = ok (some (t ∷ rest))
  after_setting _ = err refused

  -- The loop, with fuel.
  unfoldable pub parse_loop :
      ℕ → Schema → Config → ℕ → Option (ℕ × Kind) → List (Token Group) → Parsed Config
  unfolding parse_setting after_setting
  parse_loop zero schema config index current ts = out_of_fuel
  parse_loop (suc fuel) schema config index current ts =
      parse_setting schema config index current ts >>= λ (config', index', current', rest).
      after_setting rest
      >>= elim [ none ↦ ok config' | some ts' ↦ parse_loop fuel schema config' index' current' ts' ]

  -- `parse`
  unfoldable pub parse_config : Schema → List (Token Group) → Parsed Config
  unfolding parse_loop
  parse_config schema [] = ok []
  parse_config schema ts = parse_loop (length ts) schema [] 0 (get_elem? schema.elided 0) ts
