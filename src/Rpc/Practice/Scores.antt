-- ===== src/Rpc/Practice/Scores.antt =====
-- What the service and its proxy promise of the scores.
use Prim.Native.String.{String}
use mathlib.Core.List.{Perm, foldr}
use mathlib.Core.List.Perm
use forwardr.Base.{
  ℕ, ◌≡◌, refl, sym, ap, ◌∙◌, Bool, true, false, ◌==◌, if◌then◌else◌, List, [], ◌∷◌, inl, inr,
  Bool-cases, arith,
}
use forwardr.Base.Int.{ℤ, ℤ-IsSet, pos, ◌+ℤ◌, int_laws}
use forwardr.Base.Dict.{Dict, insert, lookup-insert}
use forwardr.Rpc.Practice.Players.{
  PlayerProfile, PlayerOpsImpl, entry_or, entry_of, fits_i32, update_score_async,
}

-- A player's score, 0 where there is no entry.
abbrev pub score_of : ℕ → PlayerOpsImpl → ℤ
score_of player_id ops = (entry_of player_id ops).score

-- Calls of `update_score_async`, in the order in which they take the lock.
abbrev pub apply_all : List (ℕ × ℤ) → PlayerOpsImpl → PlayerOpsImpl
apply_all [] ops = ops
apply_all ((k, d) ∷ us) ops = apply_all us (update_score_async k d ops).1

-- What the calls ask to add to a player's score.
abbrev pub asked_step : ℕ → ℕ × ℤ → ℤ → ℤ
asked_step j (k, d) total = if j == k then d +ℤ total else total

abbrev pub asked : ℕ → List (ℕ × ℤ) → ℤ
asked j us = foldr (asked_step j) (pos 0) us

update_score-poisoned :
    (k : ℕ) (d : ℤ) (ops : PlayerOpsImpl)
    → ops.poisoned ≡ true
    → (update_score_async k d ops).1.poisoned ≡ true
unfolding update_score_async
update_score-poisoned k d ops e = ground arith

apply_all-poisoned :
    (us : List (ℕ × ℤ)) (ops : PlayerOpsImpl)
    → ops.poisoned ≡ true
    → (apply_all us ops).poisoned ≡ true
apply_all-poisoned [] ops e = e
apply_all-poisoned ((k, d) ∷ us) ops e = apply_all-poisoned us _ (update_score-poisoned k d ops e)

pub entry_or-insert :
    (missing : String) (j k : ℕ) (p : PlayerProfile) (store : Dict PlayerProfile)
    → entry_or missing j (insert k p store) ≡ (if j == k then p else entry_or missing j store)
entry_or-insert missing j k p store = ground (arith, lookup-insert j k p store)

if_score :
    (b : Bool) (p q : PlayerProfile) → (if b then p else q).score ≡ (if b then p.score else q.score)
if_score true p q = refl
if_score false p q = refl

score_of-insert :
    (j k : ℕ) (p : PlayerProfile) (store : Dict PlayerProfile)
    → (entry_or "AutoGenerated" j (insert k p store)).score
      ≡ (if j == k then p.score else (entry_or "AutoGenerated" j store).score)
score_of-insert j k p store =
    ap (λ e. e.score) (entry_or-insert "AutoGenerated" j k p store) ∙ if_score (j == k) p _

update_score-score_of :
    (j k : ℕ) (d : ℤ) (ops : PlayerOpsImpl)
    → (update_score_async k d ops).1.poisoned ≡ false
    → score_of j (update_score_async k d ops).1
      ≡ (if j == k then score_of k ops +ℤ d else score_of j ops)
unfolding update_score_async
update_score-score_of j k d ops e =
    let entry = entry_of k ops in
    elim (Bool-cases ops.poisoned) [
      | inl bad ↦ absurd (ground arith)
      | inr good ↦ elim (Bool-cases (fits_i32 (entry.score +ℤ d))) [
        | inl fits ↦
            rw (good, fits)
              (score_of-insert j k (record entry { score = entry.score +ℤ d }) ops.store)
        | inr over ↦ let bad : true ≡ false = rw (good, over) at e in cc
      ]
    ]

add_if :
    (b : Bool) (x y d rest : ℤ)
    → (b ≡ true → y ≡ x)
    → (if b then y +ℤ d else x) +ℤ rest ≡ x +ℤ (if b then d +ℤ rest else rest)
add_if true x y d rest same = rw (same refl) (omega int_laws)
add_if false x y d rest same = refl

added :
    (j k : ℕ) (d : ℤ) (ops : PlayerOpsImpl) (rest : ℤ)
    → (if j == k then score_of k ops +ℤ d else score_of j ops) +ℤ rest
      ≡ score_of j ops +ℤ asked_step j (k, d) rest
added j k d ops rest =
    add_if (j == k) (score_of j ops) (score_of k ops) d rest
      (λ e. ap (λ i. score_of i ops) (ground arith))

apply_all-asked :
    (j : ℕ) (us : List (ℕ × ℤ)) (ops : PlayerOpsImpl)
    → (apply_all us ops).poisoned ≡ false
    → score_of j (apply_all us ops) ≡ score_of j ops +ℤ asked j us
apply_all-asked j [] ops e = omega int_laws
apply_all-asked j ((k, d) ∷ us) ops e =
    elim (Bool-cases ((update_score_async k d ops).1.poisoned)) [
      | inl bad ↦
          let next = (update_score_async k d ops).1 in
          let worse : (apply_all us next).poisoned ≡ true = apply_all-poisoned us next bad in
          let clash : true ≡ false = sym worse ∙ e in cc
      | inr good ↦
          apply_all-asked j us _ e
          ∙ ap (λ x. x +ℤ asked j us) (update_score-score_of j k d ops good)
          ∙ added j k d ops (asked j us)
    ]

asked_step_comm :
    (j : ℕ) (a b : ℕ × ℤ) (z : ℤ)
    → asked_step j a (asked_step j b z) ≡ asked_step j b (asked_step j a z)
asked_step_comm j a b z = grind int_laws

-- Whatever calls of `update_score_async` take the lock, and in whatever order: if none has panicked, each
-- player's score is the one before and all that was asked to be added to it.
pub updates_add :
    (us : List (ℕ × ℤ)) (ops : PlayerOpsImpl)
    → (apply_all us ops).poisoned ≡ false
    → (j : ℕ) → score_of j (apply_all us ops) ≡ score_of j ops +ℤ asked j us
updates_add us ops e j = apply_all-asked j us ops e

-- So two orders of the same calls that both go through leave the same scores.
pub updates_serialized :
    (us us' : List (ℕ × ℤ)) (ops : PlayerOpsImpl)
    → Perm us us'
    → (apply_all us ops).poisoned ≡ false
    → (apply_all us' ops).poisoned ≡ false
    → (j : ℕ) → score_of j (apply_all us ops) ≡ score_of j (apply_all us' ops)
updates_serialized us us' ops p e e' j =
    updates_add us ops e j
    ∙ ap (λ x. score_of j ops +ℤ x)
        (Perm.foldr-eq ℤ-IsSet (asked_step j) (asked_step_comm j) p (pos 0))
    ∙ sym (updates_add us' ops e' j)
