-- ===== src/Rpc/Practice/Players.antt =====
-- examples/rpc/practice.rs: `PlayerProfile`, and `PlayerOpsImpl` with its map behind a mutex.
use Prim.Native.String.{String}
use forwardr.Base.{ℕ, ◌^◌, ◌-◌, Bool, true, false, ◌&&◌, if◌then◌else◌, none, some, [], ◌∷◌}
use forwardr.Base.Int.{ℤ, pos, negsuc, ◌+ℤ◌, leb_ℤ}
use forwardr.Base.Dict.{Dict, lookup, insert}
use forwardr.Rpc.Practice.Executor.{Outcome, done, panicked}

pub record PlayerProfile : Type 0 where
  pub id : ℕ
  pub name : String
  pub level : ℕ
  pub score : ℤ

abbrev pub profile : ℕ → String → ℕ → ℤ → PlayerProfile
profile id name level score = record { id = id; name = name; level = level; score = score }

-- The mutex and the map that it guards. `poisoned`: a thread has panicked with the lock.
pub record PlayerOpsImpl : Type 0 where
  pub store : Dict PlayerProfile
  pub poisoned : Bool

-- `PlayerOpsImpl::new`
abbrev pub new_players : PlayerOpsImpl
new_players = record {
  store =
      (1001, profile 1001 "Alice" 7 (pos 120))
      ∷ (2002, profile 2002 "Bob" 12 (pos 980))
      ∷ (3003, profile 3003 "Carol" 3 (pos 45))
      ∷ [];
  poisoned = false;
}

-- The values of an `i32`.
abbrev pub fits_i32 : ℤ → Bool
fits_i32 z = leb_ℤ (negsuc (2 ^ 31 - 1)) z && leb_ℤ z (pos (2 ^ 31 - 1))

-- The player's entry, or the one that stands in where there is none.
abbrev pub entry_or : String → ℕ → Dict PlayerProfile → PlayerProfile
entry_or missing player_id store = elim (lookup player_id store) [
  | none ↦ profile player_id missing 1 (pos 0)
  | some found ↦ found
]

abbrev pub entry_of : ℕ → PlayerOpsImpl → PlayerProfile
entry_of player_id ops = entry_or "AutoGenerated" player_id ops.store

-- `fetch_profile`; `lock` fails on a poisoned mutex, and `expect` panics.
unfoldable pub fetch_profile : ℕ → PlayerOpsImpl → Outcome PlayerProfile × PlayerOpsImpl
fetch_profile player_id ops =
    if ops.poisoned then (panicked, ops) else (done (entry_or "Unknown" player_id ops.store), ops)

-- `update_score_async`, from the lock on: the entry is there before the score is added to, and a sum
-- that does not fit an `i32` panics, with the lock held, where overflow is checked.
unfoldable pub update_score_async : ℕ → ℤ → PlayerOpsImpl → Outcome ℤ × PlayerOpsImpl
update_score_async player_id delta ops =
    if ops.poisoned
    then (panicked, ops)
    else let entry = entry_of player_id ops in
      let score = entry.score +ℤ delta in
      if fits_i32 score
      then (
        done score,
        record ops { store = insert player_id (record entry { score = score }) ops.store },
      )
      else (panicked, record { store = insert player_id entry ops.store; poisoned = true })
