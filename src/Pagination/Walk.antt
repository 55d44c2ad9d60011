-- ===== src/Pagination/Walk.antt =====
-- A client that follows the cursors of packages/obs-platform/src/obs_platform/api/routers/traces.py. The
-- query is what SQL documents: of the rows in their order, those whose key is below the cursor's, and
-- of these the first `limit + 1`.
use agent_lens_platform.Common.{
  ℕ, zero, suc, ◌-◌, ◌≤◌, ◌<◌, ◌≡◌, refl, sym, ap, ◌∙◌, Bool, true, false, Option, none, some, List,
  [], ◌∷◌, ◌++◌, length, length-take, take, drop, ltb, arith, filter, All, inl, inr, Bool-cases,
}
use mathlib.Core.List.{append_assoc}
use mathlib.Core.Path.{subst}
use agent_lens_platform.Pagination.{last, cursor_at, build_page}

too_long : (n : ℕ) → suc n ≤ 0 → ⊥
too_long n h = omega arith

module _ {A K : Type 0} (key : A → K) (below : K → K → Bool) (limit : ℕ) (rows : List A) where
  -- `where(key < cursor)`, on a cursor that is given
  abbrev pub rows_below : Option K → List A
  rows_below none = rows
  rows_below (some c) = filter (λ r. below (key r) c) rows

  -- `list_traces`: a page of the rows of a request, and its cursor
  unfoldable pub list_page : Option K → List A × (Option K × Bool)
  list_page cursor = build_page (take (suc limit) (rows_below cursor)) limit key

  abbrev pub follow : List A → Option K → (K → List A) → List A
  follow page none next = page
  follow page (some c) next = page ++ next c

  -- The pages of a client that asks on while there is a cursor.
  unfoldable pub walk : ℕ → Option K → List A
  walk zero cursor = []
  walk (suc fuel) cursor =
      let page = list_page cursor in follow page.0 page.1.0 (λ c. walk fuel (some c))

module _ {A K : Type 0} (key : A → K) (below : K → K → Bool) where
  -- The rows stand in descending order of their keys, which differ.
  abbrev pub IsDescending : List A → Type 0
  IsDescending [] = Unit
  IsDescending (r ∷ rows) =
      All (λ s. (below (key s) (key r) ≡ true) × (below (key r) (key s) ≡ false)) rows
      × ((below (key r) (key r) ≡ false) × IsDescending rows)

  filter-all :
      (c : K) (rows : List A)
      → All (λ s. (below (key s) c ≡ true) × (below c (key s) ≡ false)) rows
      → filter (λ r. below (key r) c) rows ≡ rows
  filter-all c [] h = refl
  filter-all c (r ∷ rows) h = rw (h.0.0, filter-all c rows h.1) refl

  -- The rows below the key of one of the rows are those that follow it.
  filter-after :
      (xs : List A) (r : A) (ys : List A)
      → IsDescending (xs ++ r ∷ ys)
      → filter (λ s. below (key s) (key r)) (xs ++ r ∷ ys) ≡ ys
  filter-after [] r ys h = rw (h.1.0) (filter-all (key r) ys h.0)
  filter-after (x ∷ xs) r ys h = rw (above xs h.0) (filter-after xs r ys h.1.1)
    where
      above :
          (zs : List A)
          → All
              (λ s. (below (key s) (key x) ≡ true) × (below (key x) (key s) ≡ false))
              (zs ++ r ∷ ys)
          → below (key x) (key r) ≡ false
      above [] all = all.0.1
      above (z ∷ zs) all = above zs all.1

module _ {A : Type 0} where
  take-take : (n : ℕ) (xs : List A) → take n (take (suc n) xs) ≡ take n xs
  take-take zero xs = refl
  take-take (suc n) [] = refl
  take-take (suc n) (x ∷ xs) = ap (λ l. x ∷ l) (take-take n xs)

  take-all : (n : ℕ) (xs : List A) → length xs ≤ n → take n xs ≡ xs
  take-all zero [] h = refl
  take-all zero (x ∷ xs) h = absurd (too_long (length xs) h)
  take-all (suc n) [] h = refl
  take-all (suc n) (x ∷ xs) h = ap (λ l. x ∷ l) (take-all n xs (omega arith))

  length-drop : (n : ℕ) (xs : List A) → length (drop n xs) ≡ length xs - n
  length-drop zero xs = omega arith
  length-drop (suc n) [] = omega arith
  length-drop (suc n) (x ∷ xs) = omega (arith, length-drop n xs)

  -- The last row of a full page.
  record Cut (n : ℕ) (xs : List A) : Type 0 where
    before : List A
    row : A
    is_page : take n xs ≡ before ++ row ∷ []
    is_last : last (take n xs) ≡ some row
    is_rest : xs ≡ before ++ row ∷ drop n xs

  cut : (n : ℕ) (xs : List A) → 1 ≤ n → n < length xs → Cut n xs
  cut zero xs pos long = absurd (too_long 0 pos)
  cut (suc n) [] pos long = absurd (too_long (suc n) long)
  cut (suc zero) (x ∷ xs) pos long = record {
    before = [];
    row = x;
    is_page = refl;
    is_last = refl;
    is_rest = refl;
  }
  cut (suc (suc n)) (x ∷ []) pos long = absurd (too_long n (omega arith))
  cut (suc (suc n)) (x ∷ y ∷ xs) pos long =
      let c = cut (suc n) (y ∷ xs) (omega arith) (omega arith) in
      record {
        before = x ∷ c.before;
        row = c.row;
        is_page = ap (λ l. x ∷ l) c.is_page;
        is_last = c.is_last;
        is_rest = ap (λ l. x ∷ l) c.is_rest;
      }

module _ {A K : Type 0} (key : A → K) where
  page-short :
      (limit : ℕ) (ys : List A)
      → length ys ≤ limit
      → ((build_page (take (suc limit) ys) limit key).0 ≡ ys)
        × ((build_page (take (suc limit) ys) limit key).1.0 ≡ none)
  unfolding build_page
  page-short limit ys short =
      let ended : ltb limit (length (take (suc limit) ys)) ≡ false =
        ground (arith, length-take (suc limit) ys) in
      (take-take limit ys ∙ take-all limit ys short, rw ended refl)

  page-long :
      (limit : ℕ) (ys : List A) (c : Cut limit ys)
      → limit < length ys
      → ((build_page (take (suc limit) ys) limit key).0 ≡ c.before ++ c.row ∷ [])
        × ((build_page (take (suc limit) ys) limit key).1.0 ≡ some (key c.row))
  unfolding build_page
  page-long limit ys c long =
      let more : ltb limit (length (take (suc limit) ys)) ≡ true =
        ground (arith, length-take (suc limit) ys) in
      (
        take-take limit ys ∙ c.is_page,
        rw more (ap (cursor_at key) (ap last (take-take limit ys) ∙ c.is_last)),
      )

module _ {A K : Type 0} (key : A → K) (below : K → K → Bool) (limit : ℕ) (rows : List A) where
  rows_after :
      (xs : List A) (r : A) (ys : List A)
      → IsDescending key below rows
      → rows ≡ xs ++ r ∷ ys
      → filter (λ s. below (key s) (key r)) rows ≡ ys
  rows_after xs r ys d e =
      ap (filter (λ s. below (key s) (key r))) e
      ∙ filter-after key below xs r ys (subst (IsDescending key below) e d)

  follow-long :
      (ys : List A) (c : Cut limit ys) (next : K → List A)
      → limit < length ys
      → next (key c.row) ≡ drop limit ys
      → let page = build_page (take (suc limit) ys) limit key in
        follow key below limit rows page.0 page.1.0 next ≡ ys
  follow-long ys c next long rest =
      let (page, cursor) = page-long key limit ys c long in
      rw (page, cursor, rest) (append_assoc c.before (c.row ∷ []) (drop limit ys) ∙ sym c.is_rest)

  walk-rest :
      (fuel : ℕ) (xs ys : List A) (cursor : Option K)
      → 1 ≤ limit
      → IsDescending key below rows
      → rows ≡ xs ++ ys
      → rows_below key below limit rows cursor ≡ ys
      → length ys ≤ fuel
      → walk key below limit rows fuel cursor ≡ ys
  unfolding walk list_page
  walk-rest zero xs [] cursor pos d e found enough = refl
  walk-rest zero xs (y ∷ ys) cursor pos d e found enough = absurd (too_long (length ys) enough)
  walk-rest (suc fuel) xs ys cursor pos d e found enough =
      elim (Bool-cases (ltb limit (length ys))) [
        | inr short ↦
            let (page, ended) = page-short key limit ys (ground arith) in
            rw (found, page, ended) refl
        | inl long ↦
            let more : limit < length ys = ground arith in
            let c = cut limit ys pos more in
            let split : rows ≡ (xs ++ c.before) ++ c.row ∷ drop limit ys =
              e
              ∙ ap (λ l. xs ++ l) c.is_rest
              ∙ sym (append_assoc xs c.before (c.row ∷ drop limit ys)) in
            let ih =
              walk-rest fuel ((xs ++ c.before) ++ c.row ∷ []) (drop limit ys) (some (key c.row)) pos
                d (split ∙ sym (append_assoc (xs ++ c.before) (c.row ∷ []) (drop limit ys)))
                (rows_after (xs ++ c.before) c.row (drop limit ys) d split)
                (omega (arith, length-drop limit ys)) in
            rw found (follow-long ys c (λ k. walk key below limit rows fuel (some k)) more ih)
      ]

  -- A client that follows the cursors gets every row, each once and in order, and comes to an end:
  -- with pages of one row or more, as many requests as there are rows are enough.
  pub walk_complete :
      (fuel : ℕ)
      → 1 ≤ limit
      → IsDescending key below rows
      → length rows ≤ fuel
      → walk key below limit rows fuel none ≡ rows
  walk_complete fuel pos d enough = walk-rest fuel [] rows none pos d refl refl enough
