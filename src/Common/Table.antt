-- ===== src/Common/Table.antt =====
-- A database table behind `packages/obs-platform/src/obs_platform/db.py`: the two conflict clauses
-- that it builds, by what PostgreSQL and SQLite document of them. The database itself is not code
-- of this repository: a value of this record is a parameter wherever a table is used.

use mathlib.Core.Path.{◌≡◌, refl, ap, ◌∙◌}
use mathlib.Core.Logic.{inl, inr}
use mathlib.Core.Option.{Option, none, some}
use mathlib.Core.List.{List, [], ◌∷◌}
use agent_lens_platform.Common.Tests.{if◌then◌else◌, Bool-cases, Option-cases}
use agent_lens_platform.Common.Keys.{Eq}

-- What `ON CONFLICT DO NOTHING` leaves for the key of the row that is inserted.
abbrev pub kept {ℓ} : {R : Type ℓ} → R → Option R → Option R
kept r none = some r
kept r (some old) = some old

-- What `ON CONFLICT DO UPDATE` leaves: `set old new` is the old row with the named columns new.
abbrev pub updated {ℓ} : {R : Type ℓ} → (R → R → R) → R → Option R → Option R
updated set r none = some r
updated set r (some old) = some (set old r)

pub record Table {K : Type 0} ⦃e : Eq K⦄ (R : Type 0) (key : R → K) : Type 1 where
  pub Rows : Type 0
  pub find : K → Rows → Option R
  pub insert_row : R → Rows → Rows
  pub upsert_row : (R → R → R) → R → Rows → Rows
  pub find-insert_row :
      (k : K) (r : R) (t : Rows)
      → find k (insert_row r t) ≡ (if e.beq (key r) k then kept r (find k t) else find k t)
  pub find-upsert_row :
      (k : K) (set : R → R → R) (r : R) (t : Rows)
      → find k (upsert_row set r t)
        ≡ (if e.beq (key r) k then updated set r (find k t) else find k t)

-- db.py: one statement for all the rows of a batch.
module _ {K : Type 0} ⦃e : Eq K⦄ {R : Type 0} {key : R → K} (table : Table R key) where
  unfoldable pub insert_ignore : List R → table.Rows → table.Rows
  insert_ignore [] t = t
  insert_ignore (r ∷ rows) t = insert_ignore rows (table.insert_row r t)

  unfoldable pub upsert : (R → R → R) → R → table.Rows → table.Rows
  upsert set row t = table.upsert_row set row t

  unfoldable pub upsert_many : (R → R → R) → List R → table.Rows → table.Rows
  upsert_many set [] t = t
  upsert_many set (r ∷ rows) t = upsert_many set rows (table.upsert_row set r t)

module _ {R : Type 0} where
  abbrev pub stored : (R → R) → R → Option R → R
  stored g r none = r
  stored g r (some old) = g old

  some-stored :
      (g : R → R) (r : R) (o : Option R) → some (stored g r o) ≡ updated (λ old _. g old) r o
  some-stored g r none = refl
  some-stored g r (some old) = refl

-- Rows beside their keys, which meet the laws.
module _ {K : Type 0} ⦃e : Eq K⦄ {R : Type 0} where
  abbrev pub list_find : K → List (K × R) → Option R
  list_find k [] = none
  list_find k ((j, r) ∷ t) = if e.beq j k then some r else list_find k t

  -- The newest row of a key stands first.
  abbrev pub list_put : (R → R) → R → K → List (K × R) → List (K × R)
  list_put g r j t = (j, stored g r (list_find j t)) ∷ t

  pub find-put :
      (g : R → R) (r : R) (j k : K) (t : List (K × R))
      → list_find k (list_put g r j t)
        ≡ (if e.beq j k then updated (λ old _. g old) r (list_find k t) else list_find k t)
  find-put g r j k t = elim (Bool-cases (e.beq j k)) [
    | inl same ↦ rw same (
        some-stored g r (list_find j t)
        ∙ ap (λ i. updated (λ old _. g old) r (list_find i t)) ((e.beq_iff j k).0 same))
    | inr other ↦ rw other
  ]

module _ {K : Type 0} ⦃e : Eq K⦄ {R : Type 0} (key : R → K) where
  pub find-insert :
      (k : K) (r : R) (t : List (K × R))
      → list_find k (list_put (λ old. old) r (key r) t)
        ≡ (if e.beq (key r) k then kept r (list_find k t) else list_find k t)
  find-insert k r t = elim (Option-cases (list_find k t)) [
    | inl h ↦ find-put (λ old. old) r (key r) k t ∙ rw h
    | inr (o, h) ↦ find-put (λ old. old) r (key r) k t ∙ rw h
  ]

  pub find-upsert :
      (k : K) (set : R → R → R) (r : R) (t : List (K × R))
      → list_find k (list_put (λ old. set old r) r (key r) t)
        ≡ (if e.beq (key r) k then updated set r (list_find k t) else list_find k t)
  find-upsert k set r t = elim (Option-cases (list_find k t)) [
    | inl h ↦ find-put (λ old. set old r) r (key r) k t ∙ rw h
    | inr (o, h) ↦ find-put (λ old. set old r) r (key r) k t ∙ rw h
  ]

  abbrev pub list_table : Table R key
  list_table = record {
    Rows = List (K × R);
    find = list_find;
    insert_row = λ r t. list_put (λ old. old) r (key r) t;
    upsert_row = λ set r t. list_put (λ old. set old r) r (key r) t;
    find-insert_row = find-insert;
    find-upsert_row = find-upsert;
  }
