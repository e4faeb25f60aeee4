-- ===== src/Macro/Syntax.antt =====
-- What forward_macro uses of the crates `proc_macro2` and `syn`. Identifiers and string literals are
-- numbers: only whether two are equal matters.
use forwardr.Base.{ℕ, ◌<◌, ◌≡◌, Bool, true, false, ◌==◌, Option, none, some, List, [], ◌∷◌, length}

-- The kinds of token that the configurations tell apart. What stands in parentheses is one token, its
-- contents a `Group`.
pub data Token (Group : Type 0) : Type 0 where
  ident lit_str lit_int : ℕ → Token Group
  eq_sign comma : Token Group
  group : Group → Token Group
  other : ℕ → Token Group

-- Where a path of one identifier ends.
abbrev pub ends_path : {Group : Type 0} → List (Token Group) → Bool
ends_path [] = true
ends_path (eq_sign ∷ _) = true
ends_path (comma ∷ _) = true
ends_path (group _ ∷ _) = true
ends_path _ = false

-- `syn`'s parsers of a path and of an expression that is all that a group holds, and what the code
-- relies on: a path takes up tokens; a literal is none; an identifier before `=`, `,`, a group or the
-- end is one, and `is_ident` tells which.
pub record Syn (Path' Group Expr : Type 0) : Type 0 where
  pub parse_path : List (Token Group) → Option (Path' × List (Token Group))
  pub is_ident : Path' → ℕ → Bool
  pub is_empty : Group → Bool
  pub parse_expr : Group → Option Expr
  pub path_shrinks :
      (ts rest : List (Token Group)) (p : Path')
      → parse_path ts ≡ some (p, rest)
      → length rest < length ts
  pub path-lit_str : (s : ℕ) (rest : List (Token Group)) → parse_path (lit_str s ∷ rest) ≡ none
  pub path-ident :
      (x : ℕ) (rest : List (Token Group))
      → ends_path rest ≡ true
      → (p : Path') × (parse_path (ident x ∷ rest) ≡ some (p, rest))
        × ((y : ℕ) → is_ident p y ≡ (x == y))
