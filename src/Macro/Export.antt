-- ===== src/Macro/Export.antt =====
-- forward_macro/src/lib.rs: `forward_proxy` and `export_to_file`, which leaves a copy of the output in the
-- nearest directory `target`.
use forwardr.Base.{
  ℕ, ◌≡◌, refl, Bool, true, false, if◌then◌else◌, Bool-cases, inl, inr, Option, none, some, List,
  [], ◌∷◌,
}
use forwardr.Macro.Config.{Parsed, ok}

-- A name of a directory or a file.
pub data Component : Type 0 where
  target generated forward : Component
  forward_proxy_rs : ℕ → Component  -- `forward_proxy_{}.rs`
  named : ℕ → Component

-- `PathBuf`, its last name first: `parent` takes that name off, and there is none above the empty path.
abbrev pub Path' : Type 0
Path' = List Component

-- What the code uses of `std::fs`, on a state of the file system. A call that may fail says whether it
-- succeeded; what `write_all` returns is ignored.
pub record FileSystem (S Output : Type 0) : Type 0 where
  pub exists : Path' → S → Bool
  pub create_dir_all : Path' → S → Bool × S
  pub create : Path' → S → Bool × S
  pub write_all : Path' → Output → S → S

-- One turn of the loop: the function returns, or the loop goes on to the parent.
pub data Turn (S : Type 0) : Type 0 where
  returns : Bool → S → Turn S
  goes_on : S → Turn S

abbrev pub generated_dir : Path' → Path'
generated_dir path = forward ∷ generated ∷ target ∷ path

module _ {S Output : Type 0} (fs : FileSystem S Output) (postfix : ℕ) (output : Output) where
  abbrev pub generated_file : Path' → Path'
  generated_file path = forward_proxy_rs postfix ∷ generated_dir path

  unfoldable pub write_copy : Path' → Bool × S → Turn S
  write_copy path (true, s) = returns true (fs.write_all (generated_file path) output s)
  write_copy path (false, s) = goes_on s

  unfoldable pub make_file : Path' → Bool × S → Turn S
  unfolding write_copy
  make_file path (true, s) = write_copy path (fs.create (generated_file path) s)
  make_file path (false, s) = returns false s

  unfoldable pub export_turn : Path' → S → Turn S
  unfolding make_file
  export_turn path s =
      if fs.exists (target ∷ path) s
      then make_file path (fs.create_dir_all (generated_dir path) s)
      else goes_on s

  -- At the last path the loop breaks.
  unfoldable pub export_loop : Path' → S → Bool × S
  unfolding export_turn
  export_loop [] s = elim (export_turn [] s) [ returns b s' ↦ (b, s') | goes_on s' ↦ (false, s') ]
  export_loop (name ∷ path) s = elim (export_turn (name ∷ path) s) [
    | returns b s' ↦ (b, s')
    | goes_on s' ↦ export_loop path s'
  ]

  -- `CARGO_MANIFEST_DIR`, if it is set, is where the search begins.
  unfoldable pub export_to_file : Option Path' → S → Bool × S
  unfolding export_loop
  export_to_file none s = (false, s)
  export_to_file (some path) s = export_loop path s

-- The output is exported where the macro succeeds, and is what the attribute gives.
unfoldable pub forward_proxy :
    {S Output : Type 0} → FileSystem S Output → Option Path' → Parsed Output → S → Parsed Output × S
unfolding export_to_file
forward_proxy fs manifest_dir (ok output) s =
    (ok output, (export_to_file fs 0 output manifest_dir s).1)
forward_proxy fs manifest_dir e s = (e, s)

-- The nearest directory at or above `path` that has a `target`.
abbrev pub nearest : {S Output : Type 0} → FileSystem S Output → Path' → S → Option Path'
nearest fs [] s = if fs.exists (target ∷ []) s then some [] else none
nearest fs (name ∷ path) s =
    let above = nearest fs path s in
    if fs.exists (target ∷ name ∷ path) s then some (name ∷ path) else above

module _ {S Output : Type 0} (fs : FileSystem S Output) (postfix : ℕ) (output : Output) where
  -- The copy, beneath that directory.
  abbrev pub copied : Option Path' → S → Bool × S
  copied none s = (false, s)
  copied (some path) s =
      let made = (fs.create_dir_all (generated_dir path) s).1 in
      let opened = (fs.create (generated_file fs postfix output path) made).1 in
      (true, fs.write_all (generated_file fs postfix output path) output opened)

  module _ (makes : (path : Path') (s : S) → (fs.create_dir_all path s).0 ≡ true)
      (opens : (path : Path') (s : S) → (fs.create path s).0 ≡ true) where
    export_turn-found :
        (path : Path') (s : S)
        → fs.exists (target ∷ path) s ≡ true
        → export_turn fs postfix output path s ≡ returns true (copied (some path) s).1
    unfolding export_turn make_file write_copy
    export_turn-found path s e =
        rw
          (
            e,
            makes (generated_dir path) s,
            opens (generated_file fs postfix output path)
                (fs.create_dir_all (generated_dir path) s).1,
          )
          refl

    export_turn-missing :
        (path : Path') (s : S)
        → fs.exists (target ∷ path) s ≡ false
        → export_turn fs postfix output path s ≡ goes_on s
    unfolding export_turn
    export_turn-missing path s e = rw e refl

    export_loop-nearest :
        (path : Path') (s : S) → export_loop fs postfix output path s ≡ copied (nearest fs path s) s
    unfolding export_loop
    export_loop-nearest [] s = elim (Bool-cases (fs.exists (target ∷ []) s)) [
      | inl e ↦ rw (export_loop, export_turn-found [] s e, e) refl
      | inr e ↦ rw (export_loop, export_turn-missing [] s e, e) refl
    ]
    export_loop-nearest (name ∷ path) s = elim (Bool-cases (fs.exists (target ∷ name ∷ path) s)) [
      | inl e ↦ rw (export_loop, export_turn-found (name ∷ path) s e, e) refl
      | inr e ↦
          rw (export_loop, export_turn-missing (name ∷ path) s e, e) (export_loop-nearest path s)
    ]

    -- Where directories and files can be made, the output is written to
    -- `target/generated/forward/forward_proxy_….rs` in the nearest directory, from the one of the manifest
    -- up, that has a `target`; if none has, the file system is left as it was, and the result is false.
    pub export_to_file-nearest :
        (path : Path') (s : S)
        → export_to_file fs postfix output (some path) s ≡ copied (nearest fs path s) s
    unfolding export_to_file
    export_to_file-nearest path s = export_loop-nearest path s
