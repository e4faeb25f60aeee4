-- ===== src/Macro/Total.antt =====
-- What the parser of a configuration can return.
use forwardr.Base.{
  ℕ, zero, suc, ◌+◌, ◌≤◌, ◌<◌, ◌≡◌, ◌≢◌, ◌⊎◌, inl, inr, refl, sym, true, false, Option, none, some,
  List, [], ◌∷◌, length, get_elem?, drop, All, arith,
}
use forwardr.Base.Dict.{Dict, lookup, insert, lookup-insert}
use forwardr.Macro.Syntax.{Token, comma, Syn}
use forwardr.Macro.Config.{
  Kind, Attr, Schema, Named, Config, Progress, parse_attr, parse_named, set_elided, set_named,
  unwrap_named, named_or_elided, parse_setting, after_setting, parse_loop, parse_config,
}
use forwardr.Macro.Leftover.{
  Ensures, Ensures->>=, Left, NamedLeft, parse_attr-Left, parse_named-Left,
}

-- The names of the settings are different.
abbrev pub Distinct : List (ℕ × Kind) → Type 0
Distinct [] = Unit
Distinct (f ∷ fs) = All (λ g. g.0 ≢ f.0) fs × Distinct fs

drop-at :
    {A : Type 0} (xs : List A) (i : ℕ) {y : A}
    → get_elem? xs i ≡ some y
    → drop i xs ≡ y ∷ drop (i + 1) xs
drop-at [] i e = ground arith
drop-at (x ∷ xs) zero e = ground arith
drop-at (x ∷ xs) (suc i) e = ground (arith, drop-at xs i e)

Distinct-drop : (xs : List (ℕ × Kind)) (i : ℕ) → Distinct xs → Distinct (drop i xs)
Distinct-drop xs zero d = d
Distinct-drop [] (suc i) d = tt
Distinct-drop (x ∷ xs) (suc i) d = Distinct-drop xs i d.1

starts_unset :
    (V : Type 0) (fs : List (ℕ × Kind)) → All (λ f. lookup f.0 (let d : Dict V = [] in d) ≡ none) fs
starts_unset V [] = tt
starts_unset V (f ∷ fs) = (refl, starts_unset V fs)

module _ {Path' Group Expr : Type 0} (syn : Syn Path' Group Expr) where
  -- The settings from `index` on whose name may be elided are not set yet, while `current` is one.
  abbrev Unset : Schema → Config syn → ℕ → Type 0
  Unset schema config index = All (λ f. lookup f.0 config ≡ none) (drop index schema.elided)

  abbrev Ready : Schema → Config syn → ℕ → Option (ℕ × Kind) → Type 0
  Ready schema config index current =
      (current ≡ none) ⊎ ((current ≡ get_elem? schema.elided index) × Unset schema config index)

  abbrev Going : Schema → ℕ → Progress syn → Type 0
  Going schema n (config, index, current, rest) =
      Ready schema config index current × (length rest < n)

  set_named-Ensures :
      (name : ℕ) (attr : Attr Path' Expr) (config : Config syn)
      → Ensures (λ _. Unit) (set_named syn name attr config)
  unfolding set_named
  set_named-Ensures name attr config = ground arith

  set_elided-Ensures :
      (name : ℕ) (attr : Attr Path' Expr) (config : Config syn)
      → lookup name config ≡ none
      → Ensures (λ c. c ≡ insert name attr config) (set_elided syn name attr config)
  unfolding set_elided
  set_elided-Ensures name attr config e = ground arith

  stays_unset :
      (name : ℕ) (attr : Attr Path' Expr) (config : Config syn) (fs : List (ℕ × Kind))
      → All (λ g. g.0 ≢ name) fs
      → All (λ g. lookup g.0 config ≡ none) fs
      → All (λ g. lookup g.0 (insert name attr config) ≡ none) fs
  stays_unset name attr config [] d u = tt
  stays_unset name attr config (g ∷ fs) d u =
      (ground (arith, lookup-insert g.0 name attr config), stays_unset name attr config fs d.1 u.1)

  elided-Going :
      (schema : Schema) (config : Config syn) (index : ℕ) (name : ℕ) (kind : Kind)
      (ts : List (Token Group))
      → Distinct schema.elided
      → some (name, kind) ≡ get_elem? schema.elided index
      → Unset schema config index
      → Ensures
          (Going schema (length ts))
          (named_or_elided syn schema index config (name, kind) ts none)
  unfolding named_or_elided set_elided
  elided-Going schema config index name kind ts d here unset =
      let split = drop-at schema.elided index (sym here) in
      let heads : All (λ f. lookup f.0 config ≡ none)
          ((name, kind) ∷ drop (index + 1) schema.elided) =
        rw split at unset in
      let apart : Distinct ((name, kind) ∷ drop (index + 1) schema.elided) =
        rw split at (Distinct-drop schema.elided index d) in
      Ensures->>= (Left syn (length ts)) (Going schema (length ts)) (parse_attr syn kind ts) _
        (parse_attr-Left syn kind ts)
        (λ (attr, rest) lt.
          Ensures->>= (λ c. c ≡ insert name attr config) (Going schema (length ts))
            (set_elided syn name attr config) _ (set_elided-Ensures name attr config heads.0)
            (λ config' e. (
              inr (
                refl,
                rw e
                    (stays_unset name attr config (drop (index + 1) schema.elided) apart.0 heads.1),
              ),
              lt,
            )))

  named-Going :
      (schema : Schema) (config : Config syn) (index : ℕ) (order : ℕ × Kind)
      (ts : List (Token Group)) (n : Named syn)
      → Distinct schema.elided
      → some order ≡ get_elem? schema.elided index
      → Unset schema config index
      → NamedLeft syn false (length ts) n
      → Ensures (Going schema (length ts)) (named_or_elided syn schema index config order ts n)
  unfolding named_or_elided
  named-Going schema config index order ts (some (name, attr, rest)) d here unset lt =
      Ensures->>= (λ _. Unit) (Going schema (length ts)) (set_named syn name attr config) _
        (set_named-Ensures name attr config) (λ config' _. (inl refl, lt))
  named-Going schema config index (name, kind) ts none d here unset lt =
      elided-Going schema config index name kind ts d here unset

  parse_setting-Going :
      (schema : Schema) (config : Config syn) (index : ℕ) (current : Option (ℕ × Kind))
      (ts : List (Token Group))
      → Distinct schema.elided
      → Ready schema config index current
      → Ensures (Going schema (length ts)) (parse_setting syn schema config index current ts)
  unfolding parse_setting unwrap_named
  parse_setting-Going schema config index none ts d r =
      Ensures->>= (NamedLeft syn true (length ts)) (Going schema (length ts))
        (parse_named syn true schema.fields ts) _ (parse_named-Left syn true schema.fields ts)
        (elim [
          | none ↦ λ e. absurd (ground arith)
          | some (name, attr, rest) ↦ λ lt.
              Ensures->>= (λ _. Unit) (Going schema (length ts)) (set_named syn name attr config) _
                (set_named-Ensures name attr config) (λ config' _. (inl refl, lt))
        ])
  parse_setting-Going schema config index (some order) ts d (inl e) = absurd (ground arith)
  parse_setting-Going schema config index (some order) ts d (inr (here, unset)) =
      Ensures->>= (NamedLeft syn false (length ts)) (Going schema (length ts))
        (parse_named syn false schema.fields ts) _ (parse_named-Left syn false schema.fields ts)
        (λ n lt. named-Going schema config index order ts n d here unset lt)

  abbrev More : ℕ → Option (List (Token Group)) → Type 0
  More n none = Unit
  More n (some ts) = (length ts < n) × (1 ≤ length ts)

  after_setting-More : (ts : List (Token Group)) → Ensures (More (length ts)) (after_setting syn ts)
  unfolding after_setting
  after_setting-More [] = tt
  after_setting-More (comma ∷ []) = tt
  after_setting-More (comma ∷ t ∷ rest) = omega arith
  after_setting-More (t ∷ rest) = ground arith

  parse_loop-Ensures :
      (fuel : ℕ) (schema : Schema) (config : Config syn) (index : ℕ) (current : Option (ℕ × Kind))
      (ts : List (Token Group))
      → Distinct schema.elided
      → Ready schema config index current
      → 1 ≤ length ts
      → length ts ≤ fuel
      → Ensures (λ _. Unit) (parse_loop syn fuel schema config index current ts)
  unfolding parse_loop
  parse_loop-Ensures zero schema config index current ts d r some_left enough = absurd (omega arith)
  parse_loop-Ensures (suc fuel) schema config index current ts d r some_left enough =
      Ensures->>= (Going schema (length ts)) (λ _. Unit)
        (parse_setting syn schema config index current ts) _
        (parse_setting-Going schema config index current ts d r)
        (λ (config', index', current', rest) (r', lt).
          Ensures->>= (More (length rest)) (λ _. Unit) (after_setting syn rest) _
            (after_setting-More rest)
            (elim [
              | none ↦ λ _. tt
              | some ts' ↦ λ (shorter, left).
                  parse_loop-Ensures fuel schema config' index' current' ts' d r' left (omega arith)
            ]))

  -- Whatever the tokens, the parser of settings with different elided names returns a configuration or an
  -- error: the loop ends, and neither its `assert!` nor its `unwrap` panics.
  pub parse_config-Ensures :
      (schema : Schema) (ts : List (Token Group))
      → Distinct schema.elided
      → Ensures (λ _. Unit) (parse_config syn schema ts)
  unfolding parse_config
  parse_config-Ensures schema [] d = tt
  parse_config-Ensures schema (t ∷ ts) d =
      parse_loop-Ensures (length (t ∷ ts)) schema [] 0 (get_elem? schema.elided 0) (t ∷ ts) d
        (inr (refl, starts_unset _ schema.elided)) (omega arith) (omega arith)
