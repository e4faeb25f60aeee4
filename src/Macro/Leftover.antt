-- ===== src/Macro/Leftover.antt =====
-- The outcomes of the parsers of one setting, and how much of the input each leaves.
use forwardr.Base.{
  ℕ, ◌<◌, ◌≡◌, refl, Bool, true, false, Option, none, some, List, ◌∷◌, length, arith,
}
use forwardr.Macro.Syntax.{Token, eq_sign, Syn}
use forwardr.Macro.Config.{
  Parsed, ok, err, panicked, out_of_fuel, ◌>>=◌, or_refused, Kind, selector_kind, str_kind,
  int_kind, Named, parse_group, parse_selector, parse_attr, parse_value, parse_eq, parse_named,
}

-- The outcome is a value with `P`, or an error.
abbrev pub Ensures : {A : Type 0} → (A → Type 0) → Parsed A → Type 0
Ensures P (ok a) = P a
Ensures P (err _) = Unit
Ensures P panicked = ⊥
Ensures P out_of_fuel = ⊥

pub Ensures->>= :
    {X Y : Type 0} (Before : X → Type 0) (After : Y → Type 0) (first : Parsed X)
    (next : X → Parsed Y)
    → Ensures Before first
    → ((x : X) → Before x → Ensures After (next x))
    → Ensures After (first >>= next)
Ensures->>= Before After panicked next b step = elim b [ ]
Ensures->>= Before After out_of_fuel next b step = elim b [ ]
Ensures->>= Before After (err _) next b step = tt
Ensures->>= Before After (ok x) next b step = step x b

pub Ensures-or_refused :
    {A : Type 0} (P : A → Type 0) (o : Option A)
    → ((a : A) → o ≡ some a → P a)
    → Ensures P (or_refused o)
Ensures-or_refused P none h = tt
Ensures-or_refused P (some a) h = h a refl

module _ {Path' Group Expr : Type 0} (syn : Syn Path' Group Expr) where
  abbrev pub Left : {A : Type 0} → ℕ → A × List (Token Group) → Type 0
  Left n q = length q.1 < n

  parse_group-Left :
      (p : Path') (ts : List (Token Group)) (n : ℕ)
      → length ts < n
      → Ensures (Left n) (parse_group syn p ts)
  unfolding parse_group
  parse_group-Left p ts n h = ground (arith, syn.is_empty)

  parse_selector-Left :
      (ts : List (Token Group)) → Ensures (Left (length ts)) (parse_selector syn ts)
  unfolding parse_selector
  parse_selector-Left ts =
      Ensures->>= (Left (length ts)) (Left (length ts)) (or_refused (syn.parse_path ts)) _
        (Ensures-or_refused (Left (length ts)) (syn.parse_path ts)
          (λ (p, rest) e. syn.path_shrinks ts rest p e))
        (λ (p, rest) h. parse_group-Left p rest (length ts) h)

  pub parse_attr-Left :
      (k : Kind) (ts : List (Token Group)) → Ensures (Left (length ts)) (parse_attr syn k ts)
  unfolding parse_attr
  parse_attr-Left selector_kind ts =
      Ensures->>= (Left (length ts)) (Left (length ts)) (parse_selector syn ts) _
        (parse_selector-Left ts) (λ q h. h)
  parse_attr-Left str_kind ts = ground arith
  parse_attr-Left int_kind ts = ground arith

  -- A setting by name leaves less than it found; where none was found it need not be there.
  abbrev pub NamedLeft : Bool → ℕ → Named syn → Type 0
  NamedLeft force n none = force ≡ false
  NamedLeft force n (some (name, attr, rest)) = length rest < n

  parse_value-Left :
      (force : Bool) (f : Option (ℕ × Kind)) (ts : List (Token Group)) (n : ℕ)
      → length ts < n
      → Ensures (NamedLeft force n) (parse_value syn force f ts)
  unfolding parse_value
  parse_value-Left force (some (name, kind)) ts n h =
      Ensures->>= (Left (length ts)) (NamedLeft force n) (parse_attr syn kind ts) _
        (parse_attr-Left kind ts) (λ q lt. omega arith)
  parse_value-Left true none ts n h = tt
  parse_value-Left false none ts n h = refl

  parse_eq-Left :
      (force : Bool) (fields : List (ℕ × Kind)) (p : Path') (ts : List (Token Group)) (n : ℕ)
      → length ts < n
      → Ensures (NamedLeft force n) (parse_eq syn force fields p ts)
  unfolding parse_eq
  parse_eq-Left force fields p (eq_sign ∷ rest) n h = parse_value-Left force _ rest n (omega arith)
  parse_eq-Left force fields p ts n h = parse_value-Left force none ts n h

  pub parse_named-Left :
      (force : Bool) (fields : List (ℕ × Kind)) (ts : List (Token Group))
      → Ensures (NamedLeft force (length ts)) (parse_named syn force fields ts)
  unfolding parse_named
  parse_named-Left force fields ts =
      Ensures->>= (Left (length ts)) (NamedLeft force (length ts)) (or_refused (syn.parse_path ts))
        _
        (Ensures-or_refused (Left (length ts)) (syn.parse_path ts)
          (λ (p, rest) e. syn.path_shrinks ts rest p e))
        (λ (p, rest) h. parse_eq-Left force fields p rest (length ts) h)
