-- ===== src/Base/Rows.antt =====
-- SQL tables with a primary key as lists of rows, and the four statements that the store runs.
use mathlib.Core.Path.{◌≡◌, refl}
use mathlib.Core.Bool.{Bool}
use mathlib.Core.Option.{Option, none, some}
use mathlib.Core.List.{List, [], ◌∷◌}
use native.Mathlib.Omega.{arith}
use mediavida.Base.Tests.{if◌then◌else◌}
use mediavida.Base.Keys.{Key, same}

-- SELECT … WHERE test, in the order of the rows.
unfoldable pub where_rows {ℓ} : {R : Type ℓ} → (R → Bool) → List R → List R
where_rows p [] = []
where_rows p (r ∷ rs) = let rest = where_rows p rs in if p r then r ∷ rest else rest

module _ {K R : Type 0} ⦃k : Key K⦄ (key : R → K) where
  -- SELECT … WHERE key = ?
  unfoldable pub select : K → List R → Option R
  select a [] = none
  select a (r ∷ rs) = if same (key r) a then some r else select a rs

  -- INSERT … ON CONFLICT(key) DO UPDATE: `merge old new` is the row after a conflict.
  unfoldable pub upsert : (R → R → R) → R → List R → List R
  upsert merge new [] = new ∷ []
  upsert merge new (r ∷ rs) =
      if same (key r) (key new) then merge r new ∷ rs else r ∷ upsert merge new rs

  -- INSERT OR IGNORE
  unfoldable pub insert_ignore : R → List R → List R
  insert_ignore new [] = new ∷ []
  insert_ignore new (r ∷ rs) = if same (key r) (key new) then r ∷ rs else r ∷ insert_ignore new rs

  -- DELETE … WHERE key = ?
  unfoldable pub delete : K → List R → List R
  delete a [] = []
  delete a (r ∷ rs) = let rest = delete a rs in if same (key r) a then rest else r ∷ rest

  pub select-delete :
      (a b : K) (rs : List R) → select b (delete a rs) ≡ (if same a b then none else select b rs)
  unfolding select delete
  select-delete a b [] = ground arith
  select-delete a b (r ∷ rs) = ground (arith, select-delete a b rs)

  pub select-insert_ignore :
      (a : K) (new : R) (rs : List R)
      → select a (insert_ignore new rs) ≡ elim (select a rs) [
        | some r ↦ some r
        | none ↦ if same (key new) a then some new else none
      ]
  unfolding select insert_ignore
  select-insert_ignore a new [] = refl
  select-insert_ignore a new (r ∷ rs) = ground (arith, select-insert_ignore a new rs)

  pub select-where_rows :
      (p : K → Bool) (a : K) (rs : List R)
      → select a (where_rows (λ r. p (key r)) rs) ≡ (if p a then select a rs else none)
  unfolding select where_rows
  select-where_rows p a [] = ground arith
  select-where_rows p a (r ∷ rs) = ground (arith, select-where_rows p a rs)

  pub select-upsert :
      (merge : R → R → R)
      (keeps : (old new : R) → key old ≡ key new → key (merge old new) ≡ key new)
      → (a : K) (new : R) (rs : List R)
      → select a (upsert merge new rs) ≡ (
          if same (key new) a
          then elim (select a rs) [ some old ↦ some (merge old new) | none ↦ some new ]
          else select a rs)
  unfolding select upsert
  select-upsert merge keeps a new [] = refl
  select-upsert merge keeps a new (r ∷ rs) =
      ground (arith, keeps r new, select-upsert merge keeps a new rs)

  -- What a SELECT by the primary key answers has that key.
  pub key-select : (a : K) (rs : List R) (r : R) → select a rs ≡ some r → key r ≡ a
  unfolding select
  key-select a [] r h = ground arith
  key-select a (s ∷ rs) r h = ground (arith, key-select a rs r)

  -- A primary key: no two rows share it.
  abbrev pub IsKeyed : List R → Type 0
  IsKeyed [] = Unit {0}
  IsKeyed (r ∷ rs) = (select (key r) rs ≡ none) × IsKeyed rs
