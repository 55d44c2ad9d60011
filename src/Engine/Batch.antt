-- ===== src/Engine/Batch.antt =====
-- The flags of a trace and the batches in which its scans arrive.
use agent_lens_platform.Common.{
  ℕ, ◌+◌, ◌≡◌, refl, sym, ap, ◌∙◌, String, Bool, true, false, leb, inl, inr, Bool-cases, ◌||◌,
  Option, none, some, List, [], ◌∷◌, map, max, get_or, contains, string_eq, arith,
}
use agent_lens_platform.Severity.{Severity, info}
use agent_lens_platform.Engine.Scan.{PiiFlags, InjectionFlags, Flags, no_flags}
use agent_lens_platform.Engine.Flags.{
  merge_severity, merge_pii, merge_injection, newer, merge_flags, merge_all,
}
use agent_lens_platform.Engine.Order.{
  sup, sup-info, of_rank, of_rank-rank, rank-sup, max_severity_of-two, contains-union, PiiView,
  View, view, empty_pii, join_severity, join_pii, join_score, join_view, join_all, pii_path,
  view_path, view-merge_flags, view-merge_all,
}

sup_assoc : (a b c : Severity) → sup a (sup b c) ≡ sup (sup a b) c
sup_assoc a b c =
    sym (of_rank-rank (sup a (sup b c)))
    ∙ ap of_rank
        (omega (arith, rank-sup a (sup b c), rank-sup b c, rank-sup (sup a b) c, rank-sup a b))
    ∙ of_rank-rank (sup (sup a b) c)

or_assoc : (x a b : Bool) → (x || (a || b)) ≡ ((x || a) || b)
or_assoc x a b = ground arith

plus_assoc : (x a b : ℕ) → x + (a + b) ≡ x + a + b
plus_assoc x a b = omega arith

max_assoc : (x a b : ℕ) → max x (max a b) ≡ max (max x a) b
max_assoc x a b = omega arith

plus_zero : (x : ℕ) → x + 0 ≡ x
plus_zero x = omega arith

zero_plus : (x a : ℕ) → x + (0 + a) ≡ x + a
zero_plus x a = omega arith

max_zero : (x : ℕ) → max x 0 ≡ x
max_zero x = omega arith

join_merge_severity :
    (v c n : Option Severity)
    → join_severity v (merge_severity c n) ≡ join_severity (join_severity v c) n
join_merge_severity v c none = refl
join_merge_severity v none (some s) =
    ap (λ t. some (sup (get_or v info) t)) (max_severity_of-two info s ∙ sup-info s)
join_merge_severity v (some t) (some s) =
    ap (λ u. some (sup (get_or v info) u)) (max_severity_of-two t s)
    ∙ ap some (sup_assoc (get_or v info) t s)

leb_trans : (a b c : ℕ) → leb a b ≡ true → leb b c ≡ true → leb a c ≡ true
leb_trans a b c h k = ground arith

leb_none : (a b c : ℕ) → leb a b ≡ false → leb b c ≡ false → leb a c ≡ false
leb_none a b c h k = ground arith

max_later : (x c n : ℕ) → leb c n ≡ true → max x n ≡ max (max x c) n
max_later x c n h = ground arith

max_older : (x c n : ℕ) → leb c n ≡ false → max x c ≡ max (max x c) n
max_older x c n h = ground arith

-- Three injections of which the later wins on the same score.
later_wins :
    (o c n : InjectionFlags)
    → merge_injection (some o) (merge_injection (some c) (some n))
      ≡ merge_injection (merge_injection (some o) (some c)) (some n)
later_wins o c n = elim (Bool-cases (leb c.score n.score)) [
  | inl a ↦ elim (Bool-cases (leb o.score c.score)) [
    | inl b ↦ rw (a, b, leb_trans o.score c.score n.score b a, a) refl
    | inr b ↦ rw (a, b) refl
  ]
  | inr a ↦ elim (Bool-cases (leb o.score c.score)) [
    | inl b ↦ rw (a, b, a) refl
    | inr b ↦ rw (a, b, leb_none o.score c.score n.score b a) refl
  ]
]

if_first : (i : InjectionFlags) → merge_injection none (some i) ≡ some i
if_first i = let e : leb 0 i.score ≡ true = ground arith in rw e refl

if_later :
    (c n : InjectionFlags) → leb c.score n.score ≡ true → merge_injection (some c) (some n) ≡ some n
if_later c n h = rw h refl

if_older :
    (c n : InjectionFlags)
    → leb c.score n.score ≡ false
    → merge_injection (some c) (some n) ≡ some c
if_older c n h = rw h refl

-- Merging injections among themselves first changes nothing.
merge_injection_assoc :
    (o c n : Option InjectionFlags)
    → merge_injection o (merge_injection c n) ≡ merge_injection (merge_injection o c) n
merge_injection_assoc o c none = refl
merge_injection_assoc o none (some n) = ap (merge_injection o) (if_first n)
merge_injection_assoc none (some c) (some n) =
    elim (Bool-cases (leb c.score n.score)) [
      | inl a ↦ ap (merge_injection none) (if_later c n a) ∙ if_first n ∙ sym (if_later c n a)
      | inr a ↦ ap (merge_injection none) (if_older c n a) ∙ if_first c ∙ sym (if_older c n a)
    ]
    ∙ ap (λ m. merge_injection m (some n)) (sym (if_first c))
merge_injection_assoc (some o) (some c) (some n) = later_wins o c n

-- The score of a merge is the higher one.
join_merge_score :
    (v : Option ℕ) (c n : Option InjectionFlags)
    → join_score v (merge_injection c n) ≡ join_score (join_score v c) n
join_merge_score v c none = refl
join_merge_score v none (some i) = ap (join_score v) (if_first i)
join_merge_score v (some c) (some i) = elim (Bool-cases (leb c.score i.score)) [
  | inl a ↦ ap (join_score v) (if_later c i a) ∙ ap some (max_later (get_or v 0) c.score i.score a)
  | inr a ↦ ap (join_score v) (if_older c i a) ∙ ap some (max_older (get_or v 0) c.score i.score a)
]

module _ (text_before : String → String → Bool) where
  join_merge_pii :
      (v : Option PiiView) (c n : Option PiiFlags)
      → join_pii v (merge_pii text_before c n) ≡ join_pii (join_pii v c) n
  join_merge_pii v c none = refl
  join_merge_pii v none (some p) =
      let o = get_or v empty_pii in
      rw (zero_plus o.count p.count) (
        ap some (
          pii_path _ _ _ _ _
            (λ s. ap (λ b. o.has_type s || b) (contains-union text_before [] p.types s))
            (ap (sup o.max_severity)
              (max_severity_of-two info p.max_severity ∙ sup-info p.max_severity))))
  join_merge_pii v (some q) (some p) =
      let o = get_or v empty_pii in
      rw (plus_assoc o.count q.count p.count) (
        ap some (
          pii_path _ _ _ _ _
            (λ s.
              ap (λ b. o.has_type s || b) (contains-union text_before q.types p.types s)
              ∙ or_assoc (o.has_type s) (contains ⦃e = string_eq⦄ q.types s)
                  (contains ⦃e = string_eq⦄ p.types s))
            (ap (sup o.max_severity) (max_severity_of-two q.max_severity p.max_severity)
              ∙ sup_assoc o.max_severity q.max_severity p.max_severity)))

  join_merge :
      (v : View) (c n : Flags)
      → join_view v (merge_flags text_before c n) ≡ join_view (join_view v c) n
  unfolding merge_flags
  join_merge v c n =
      rw
        (
          plus_assoc v.findings (get_or c.findings 0) (get_or n.findings 0),
          max_assoc v.risk_score (get_or c.risk_score 0) (get_or n.risk_score 0),
        )
        (view_path text_before _ _ _ _ _ _ _ _
          (join_merge_severity v.max_severity c.max_severity n.max_severity)
          (join_merge_pii v.pii c.pii n.pii)
          (join_merge_score v.injection_score c.injection n.injection))

  join_merge_all :
      (v : View) (ns : List Flags) (c : Flags)
      → join_view v (merge_all text_before c ns) ≡ join_all text_before (join_view v c) ns
  unfolding merge_all
  join_merge_all v [] c = refl
  join_merge_all v (n ∷ ns) c =
      join_merge_all v ns (merge_flags text_before c n)
      ∙ ap (λ w. join_all text_before w ns) (join_merge v c n)

  join-no_flags : (v : View) → join_view v no_flags ≡ v
  join-no_flags v = rw (plus_zero v.findings, max_zero v.risk_score) refl

  -- Merging the scans of a batch among themselves and the result into the stored flags says the same
  -- as merging each scan into the stored flags.
  pub merge_batch-view :
      (existing : Flags) (ns : List Flags)
      → view (merge_flags text_before existing (merge_all text_before no_flags ns))
        ≡ view (merge_all text_before existing ns)
  merge_batch-view existing ns =
      view-merge_flags text_before existing (merge_all text_before no_flags ns)
      ∙ join_merge_all (view existing) ns no_flags
      ∙ ap (λ v. join_all text_before v ns) (join-no_flags (view existing))
      ∙ sym (view-merge_all text_before ns existing)

  -- The values of a key in the order in which they are merged into it.
  abbrev pub merged :
      {A : Type 0} → (Option A → Option A → Option A) → Option A → List (Option A) → Option A
  merged op o [] = o
  merged op o (x ∷ xs) = merged op (op o x) xs

  merged_assoc :
      {A : Type 0} (op : Option A → Option A → Option A)
      → ((o c n : Option A) → op o (op c n) ≡ op (op o c) n)
      → (o c : Option A) (xs : List (Option A)) → op o (merged op c xs) ≡ merged op (op o c) xs
  merged_assoc op assoc o c [] = refl
  merged_assoc op assoc o c (x ∷ xs) =
      merged_assoc op assoc o (op c x) xs ∙ ap (λ v. merged op v xs) (assoc o c x)

  newer_assoc : (o c n : Option (String × String)) → newer o (newer c n) ≡ newer (newer o c) n
  newer_assoc o c none = refl
  newer_assoc o c (some n) = refl

  merge_all-injection :
      (ns : List Flags) (e : Flags)
      → (merge_all text_before e ns).injection
        ≡ merged merge_injection e.injection (map (λ n. n.injection) ns)
  unfolding merge_all merge_flags
  merge_all-injection [] e = refl
  merge_all-injection (n ∷ ns) e = merge_all-injection ns (merge_flags text_before e n)

  merge_all-engines :
      (ns : List Flags) (e : Flags)
      → (merge_all text_before e ns).engines ≡ merged newer e.engines (map (λ n. n.engines) ns)
  unfolding merge_all merge_flags
  merge_all-engines [] e = refl
  merge_all-engines (n ∷ ns) e = merge_all-engines ns (merge_flags text_before e n)

  -- Merging the scans of a batch first leaves the injection and the engines that merging each does.
  pub merge_batch-newest :
      (existing : Flags) (ns : List Flags)
      → ((merge_flags text_before existing (merge_all text_before no_flags ns)).injection
          ≡ (merge_all text_before existing ns).injection)
        × ((merge_flags text_before existing (merge_all text_before no_flags ns)).engines
            ≡ (merge_all text_before existing ns).engines)
  unfolding merge_flags
  merge_batch-newest existing ns =
      let injections = map (λ (n : Flags). n.injection) ns in
      let engines = map (λ (n : Flags). n.engines) ns in
      (
        ap (merge_injection existing.injection) (merge_all-injection ns no_flags)
            ∙ merged_assoc merge_injection merge_injection_assoc existing.injection none injections
            ∙ sym (merge_all-injection ns existing),
        ap (newer existing.engines) (merge_all-engines ns no_flags)
            ∙ merged_assoc newer newer_assoc existing.engines none engines
            ∙ sym (merge_all-engines ns existing),
      )
