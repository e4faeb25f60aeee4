-- ===== src/Macro/Named.antt =====
-- Settings that are written by name, and what the parser reads of them.
use forwardr.Base.{
  ℕ, zero, suc, ◌≤◌, ◌≡◌, refl, ap, subst, Bool, true, false, ◌==◌, if◌then◌else◌, Option, none,
  some, List, [], ◌∷◌, ◌++◌, length, length-append, get_elem?, All, Option-cases, inl, inr, arith,
}
use forwardr.Base.Dict.{Dict, lookup, insert}
use forwardr.Macro.Syntax.{Token, ident, eq_sign, comma, Syn}
use forwardr.Macro.Config.{
  Parsed, ok, err, ◌>>=◌, duplicated, Kind, Attr, Schema, Config, parse_attr, find_field,
  parse_value, parse_eq, parse_named, set_named, unwrap_named, named_or_elided, parse_setting,
  after_setting, parse_loop, parse_config,
}

-- A setting, and the tokens of its value.
pub record Setting (Path' Group Expr : Type 0) : Type 0 where
  pub name : ℕ
  pub kind : Kind
  pub attr : Attr Path' Expr
  pub value : List (Token Group)

-- Where the value of a setting ends.
abbrev pub ends_setting : {Group : Type 0} → List (Token Group) → Bool
ends_setting [] = true
ends_setting (comma ∷ _) = true
ends_setting _ = false

-- The field of a name.
abbrev pub field_of : ℕ → List (ℕ × Kind) → Option (ℕ × Kind)
field_of name [] = none
field_of name ((n, k) ∷ fields) = if name == n then some (n, k) else field_of name fields

module _ {Path' Group Expr : Type 0} where
  -- `name = value`, and a list of those.
  abbrev pub print_setting : Setting Path' Group Expr → List (Token Group) → List (Token Group)
  print_setting a rest = ident a.name ∷ eq_sign ∷ (a.value ++ rest)

  abbrev pub print_settings : List (Setting Path' Group Expr) → List (Token Group)
  print_settings [] = []
  print_settings (a ∷ []) = print_setting a []
  print_settings (a ∷ b ∷ as_) = print_setting a (comma ∷ print_settings (b ∷ as_))

  -- What they mean: each is set, in their order, and no name twice.
  abbrev pub settings :
      Dict (Attr Path' Expr) → List (Setting Path' Group Expr) → Parsed (Dict (Attr Path' Expr))
  settings config [] = ok config
  settings config (a ∷ as_) = elim (lookup a.name config) [
    | some _ ↦ err duplicated
    | none ↦ settings (insert a.name a.attr config) as_
  ]

length-print :
    {Path' Group Expr : Type 0} (a : Setting Path' Group Expr)
    (as_ : List (Setting Path' Group Expr))
    → length (a ∷ as_) ≤ length (print_settings (a ∷ as_))
length-print a [] = omega arith
length-print a (b ∷ as_) =
    omega (arith, length-append a.value (comma ∷ print_settings (b ∷ as_)), length-print b as_)

module _ {Path' Group Expr : Type 0} (syn : Syn Path' Group Expr) where
  -- The setting is one of the schema's, and its value reads as it should.
  pub record Fits (schema : Schema) (a : Setting Path' Group Expr) : Type 0 where
    pub is_field : field_of a.name schema.fields ≡ some (a.name, a.kind)
    pub reads :
        (rest : List (Token Group))
        → ends_setting rest ≡ true
        → parse_attr syn a.kind (a.value ++ rest) ≡ ok (a.attr, rest)

  find_field-field_of :
      (p : Path') (x : ℕ) (fields : List (ℕ × Kind))
      → ((y : ℕ) → syn.is_ident p y ≡ (x == y))
      → find_field syn p fields ≡ field_of x fields
  unfolding find_field
  find_field-field_of p x [] h = refl
  find_field-field_of p x ((n, k) ∷ fields) h = rw (h n, find_field-field_of p x fields h) refl

  parse_named-print :
      (force : Bool) (schema : Schema) (a : Setting Path' Group Expr) (rest : List (Token Group))
      → Fits schema a
      → ends_setting rest ≡ true
      → parse_named syn force schema.fields (print_setting a rest)
        ≡ ok (some (a.name, a.attr, rest))
  unfolding parse_named parse_eq parse_value
  parse_named-print force schema a rest fits ends =
      let (p, read, same) = syn.path-ident a.name (eq_sign ∷ (a.value ++ rest)) refl in
      rw
        (read, find_field-field_of p a.name schema.fields same, fits.is_field, fits.reads rest ends)
        refl

  parse_setting-print :
      (schema : Schema) (config : Config syn) (index : ℕ) (current : Option (ℕ × Kind))
      (a : Setting Path' Group Expr) (rest : List (Token Group))
      → Fits schema a
      → ends_setting rest ≡ true
      → parse_setting syn schema config index current (print_setting a rest)
        ≡ (set_named syn a.name a.attr config >>= λ config'. ok (config', index, none, rest))
  unfolding parse_setting unwrap_named named_or_elided
  parse_setting-print schema config index none a rest fits ends =
      rw (parse_named-print true schema a rest fits ends) refl
  parse_setting-print schema config index (some order) a rest fits ends =
      rw (parse_named-print false schema a rest fits ends) refl

  -- The tokens that follow a setting, and what the loop does at their start.
  abbrev after : List (Setting Path' Group Expr) → List (Token Group)
  after [] = []
  after (b ∷ as_) = comma ∷ print_settings (b ∷ as_)

  print-after :
      (a : Setting Path' Group Expr) (as_ : List (Setting Path' Group Expr))
      → print_settings (a ∷ as_) ≡ print_setting a (after as_)
  print-after a [] = refl
  print-after a (b ∷ as_) = refl

  after-ends : (as_ : List (Setting Path' Group Expr)) → ends_setting (after as_) ≡ true
  after-ends [] = refl
  after-ends (b ∷ as_) = refl

  abbrev left : List (Setting Path' Group Expr) → Option (List (Token Group))
  left [] = none
  left (b ∷ as_) = some (print_settings (b ∷ as_))

  after_setting-after :
      (as_ : List (Setting Path' Group Expr)) → after_setting syn (after as_) ≡ ok (left as_)
  unfolding after_setting
  after_setting-after [] = refl
  after_setting-after (b ∷ []) = refl
  after_setting-after (b ∷ c ∷ as_) = refl

  set_named-new :
      (a : Setting Path' Group Expr) (config : Config syn)
      → lookup a.name config ≡ none
      → set_named syn a.name a.attr config ≡ ok (insert a.name a.attr config)
  unfolding set_named
  set_named-new a config e = rw (e, set_named) refl

  set_named-again :
      (a : Setting Path' Group Expr) (config : Config syn) {old : Attr Path' Expr}
      → lookup a.name config ≡ some old
      → set_named syn a.name a.attr config ≡ err duplicated
  unfolding set_named
  set_named-again a config e = rw (e, set_named) refl

  settings-new :
      (a : Setting Path' Group Expr) (as_ : List (Setting Path' Group Expr)) (config : Config syn)
      → lookup a.name config ≡ none
      → settings config (a ∷ as_) ≡ settings (insert a.name a.attr config) as_
  settings-new a as_ config e = rw (e, settings) refl

  settings-again :
      (a : Setting Path' Group Expr) (as_ : List (Setting Path' Group Expr)) (config : Config syn)
      {old : Attr Path' Expr}
      → lookup a.name config ≡ some old
      → settings config (a ∷ as_) ≡ err duplicated
  settings-again a as_ config e = rw (e, settings) refl

  -- What the loop does after a setting, given what it does for the settings that are left.
  rest_settings :
      (fuel : ℕ) (schema : Schema) (config : Config syn) (index : ℕ)
      (as_ : List (Setting Path' Group Expr))
      → ((b : Setting Path' Group Expr) (bs : List (Setting Path' Group Expr))
          → as_ ≡ b ∷ bs
          → parse_loop syn fuel schema config index none (print_settings (b ∷ bs))
            ≡ settings config (b ∷ bs))
      → elim (left as_) as (λ _. Parsed (Config syn)) [
        | none ↦ ok config
        | some ts' ↦ parse_loop syn fuel schema config index none ts'
      ]
        ≡ settings config as_
  rest_settings fuel schema config index [] h = refl
  rest_settings fuel schema config index (b ∷ bs) h = h b bs refl

  loop-settings :
      (fuel : ℕ) (schema : Schema) (config : Config syn) (index : ℕ) (current : Option (ℕ × Kind))
      (a : Setting Path' Group Expr) (as_ : List (Setting Path' Group Expr))
      → All (Fits schema) (a ∷ as_)
      → length (a ∷ as_) ≤ fuel
      → parse_loop syn fuel schema config index current (print_settings (a ∷ as_))
        ≡ settings config (a ∷ as_)
  unfolding parse_loop
  loop-settings zero schema config index current a as_ fits enough = absurd (omega arith)
  loop-settings (suc fuel) schema config index current a as_ fits enough =
      let read =
        parse_setting-print schema config index current a (after as_) fits.0 (after-ends as_) in
      elim (Option-cases (lookup a.name config)) [
        | inl e ↦
            rw
              (
                print-after a as_,
                read,
                set_named-new a config e,
                after_setting-after as_,
                settings-new a as_ config e,
              )
              (rest_settings fuel schema (insert a.name a.attr config) index as_ (λ b bs same.
                loop-settings fuel schema (insert a.name a.attr config) index none b bs
                  (subst (All (Fits schema)) same fits.1) (omega (arith, ap length same))))
        | inr (old, e) ↦
            rw (print-after a as_, read, set_named-again a config e, settings-again a as_ config e)
              refl
      ]

  -- Settings of a schema that are written by name, in any order and any number, are read as they were
  -- written: each is set to its value, or a name that comes twice is an error.
  pub parse_config-print_settings :
      (schema : Schema) (as_ : List (Setting Path' Group Expr))
      → All (Fits schema) as_
      → parse_config syn schema (print_settings as_) ≡ settings [] as_
  unfolding parse_config
  parse_config-print_settings schema [] fits = refl
  parse_config-print_settings schema (a ∷ []) fits =
      loop-settings (length (print_settings (a ∷ []))) schema [] 0 (get_elem? schema.elided 0) a []
        fits (length-print a [])
  parse_config-print_settings schema (a ∷ b ∷ as_) fits =
      loop-settings (length (print_settings (a ∷ b ∷ as_))) schema [] 0 (get_elem? schema.elided 0)
        a (b ∷ as_) fits (length-print a (b ∷ as_))
