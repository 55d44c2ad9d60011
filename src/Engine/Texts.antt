-- ===== src/Engine/Texts.antt =====
-- `iter_text_fields` of packages/obs-platform/src/obs_platform/guardrails/engine.py. `is_blank` is
-- whether `strip` leaves nothing, `index_text` writes a number.
use agent_lens_platform.Common.{
  ℕ, zero, suc, ◌+◌, ◌≤◌, ◌≡◌, String, Bool, true, false, ◌||◌, List, [], ◌∷◌, ◌++◌, length, leb,
  ltb, if◌then◌else◌, All, All-append, arith, inl, inr, Bool-cases, length-append,
}
use agent_lens_platform.Common.Text.{
  Json, null, bool, int, float, text, arr, obj, Items, nil, cons, Fields, end, field, prefix, join,
  chars, chars-prefix-le,
}

abbrev pub max_fields_per_event : ℕ
max_fields_per_event = 40

abbrev pub max_field_chars : ℕ
max_field_chars = 20_000

abbrev pub Out : Type 0
Out = List (String × String)

-- The guard at the head of `walk`.
abbrev pub stops : ℕ → Out → Bool
stops depth out = leb max_fields_per_event (length out) || ltb 6 depth

below-limit :
    {m : ℕ} (n : ℕ) (b : Bool)
    → m ≡ n + 1
    → (leb max_fields_per_event n || b) ≡ false
    → m ≤ max_fields_per_event
below-limit n b e h = ground arith

module _ (is_blank : String → Bool) (index_text : ℕ → String) where
  abbrev pub add_text : String → String → Out → Out
  add_text path s out = if is_blank s then out else out ++ (path, prefix max_field_chars s) ∷ []

  -- `walk`; of a list it takes the `left` first items.
  unfoldable mutual
    unfolding prefix join

    pub walk : Json → String → ℕ → Out → Out
    walk null path depth out = out
    walk (bool b) path depth out = out
    walk (int _ _) path depth out = out
    walk (float _ _) path depth out = out
    walk (text s) path depth out = if stops depth out then out else add_text path s out
    walk (arr items) path depth out =
        let walked = walk_items items path 0 20 (depth + 1) out in
        if stops depth out then out else walked
    walk (obj fields) path depth out =
        let walked = walk_fields fields path (depth + 1) out in
        if stops depth out then out else walked

    pub walk_items : Items → String → ℕ → ℕ → ℕ → Out → Out
    walk_items nil path index left depth out = out
    walk_items (cons v items) path index zero depth out = out
    walk_items (cons v items) path index (suc left) depth out =
        walk_items items path (index + 1) left depth
          (walk v (join path (join "[" (join (index_text index) "]"))) depth out)

    pub walk_fields : Fields → String → ℕ → Out → Out
    walk_fields end path depth out = out
    walk_fields (field key v fields) path depth out =
        walk_fields fields path depth (walk v (join path (join "." key)) depth out)

  -- `iter_text_fields`
  unfoldable pub iter_text_fields : Fields → String → Out
  unfolding walk walk_items walk_fields
  iter_text_fields payload path = walk (obj payload) path 0 []

  abbrev pub Fits : Out → Type 0
  Fits out = (length out ≤ max_fields_per_event) × All (λ p. chars p.1 ≤ max_field_chars) out

  add_text-Fits :
      (path s : String) (depth : ℕ) (out : Out)
      → Fits out
      → Fits (if stops depth out then out else add_text path s out)
  add_text-Fits path s depth out h = elim (Bool-cases (stops depth out)) [
    | inl full ↦ rw full h
    | inr room ↦ elim (Bool-cases (is_blank s)) [
      | inl blank ↦ rw (room, blank) h
      | inr shown ↦
          rw (room, shown)
            (
              below-limit (length out) (ltb 6 depth)
                  (length-append out ((path, prefix max_field_chars s) ∷ [])) room,
              All-append (λ (p : String × String). chars p.1 ≤ max_field_chars) out _ h.1
                  (chars-prefix-le max_field_chars s, tt),
            )
    ]
  ]

  if-Fits : (b : Bool) (out out' : Out) → Fits out → Fits out' → Fits (if b then out else out')
  if-Fits true out out' h h' = h
  if-Fits false out out' h h' = h'

  mutual
    unfolding walk walk_items walk_fields

    walk-Fits :
        (v : Json) (path : String) (depth : ℕ) (out : Out) → Fits out → Fits (walk v path depth out)
    walk-Fits null path depth out h = h
    walk-Fits (bool b) path depth out h = h
    walk-Fits (int _ _) path depth out h = h
    walk-Fits (float _ _) path depth out h = h
    walk-Fits (text s) path depth out h = add_text-Fits path s depth out h
    walk-Fits (arr items) path depth out h =
        if-Fits (stops depth out) out _ h (walk_items-Fits items path 0 20 (depth + 1) out h)
    walk-Fits (obj fields) path depth out h =
        if-Fits (stops depth out) out _ h (walk_fields-Fits fields path (depth + 1) out h)

    walk_items-Fits :
        (items : Items) (path : String) (index left depth : ℕ) (out : Out)
        → Fits out
        → Fits (walk_items items path index left depth out)
    walk_items-Fits nil path index left depth out h = h
    walk_items-Fits (cons v items) path index zero depth out h = h
    walk_items-Fits (cons v items) path index (suc left) depth out h =
        walk_items-Fits items path (index + 1) left depth _ (walk-Fits v _ depth out h)

    walk_fields-Fits :
        (fields : Fields) (path : String) (depth : ℕ) (out : Out)
        → Fits out
        → Fits (walk_fields fields path depth out)
    walk_fields-Fits end path depth out h = h
    walk_fields-Fits (field key v fields) path depth out h =
        walk_fields-Fits fields path depth _ (walk-Fits v _ depth out h)

  -- However large or deep a payload is, at most 40 texts of it are scanned, and of each at most the
  -- first 20,000 characters.
  pub iter_text_fields-Fits :
      (payload : Fields) (path : String)
      → (length (iter_text_fields payload path) ≤ max_fields_per_event)
        × All (λ p. chars p.1 ≤ max_field_chars) (iter_text_fields payload path)
  unfolding iter_text_fields
  iter_text_fields-Fits payload path = walk-Fits (obj payload) path 0 [] (omega arith, tt)
