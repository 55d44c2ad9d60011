-- ===== src/Engine/Order.antt =====
-- What the flags of a trace say, whatever the order of its scans.
use mathlib.Core.Path.{fun_ext, ap₂}
use mathlib.Core.List.{Perm, Permᴰ}
use mathlib.Core.Logic.{∥∥₁_elim}
use agent_lens_platform.Common.{
  ℕ, ◌+◌, ◌≡◌, refl, sym, ap, ◌∙◌, String, Bool, true, false, ◌||◌, Option, none, some, List, [],
  ◌∷◌, ◌++◌, ltb, leb, if◌then◌else◌, max, get_or, contains, string_eq, arith, Bool-cases, inl, inr,
}
use agent_lens_platform.Severity.{
  Severity, info, low, medium, high, critical, rank, text, of_text, raise_to, max_from, max_of,
}
use agent_lens_platform.Engine.Scan.{
  PiiFlags, InjectionFlags, Flags, max_severity_of, sorted_set, distinct, insert_text, sort_texts,
}
use agent_lens_platform.Engine.Flags.{
  merge_severity, merge_pii, merge_injection, merge_flags, merge_all,
}

-- The higher of two severities.
abbrev pub sup : Severity → Severity → Severity
sup a b = raise_to a (some b)

unfoldable pub of_rank : ℕ → Severity
of_rank n =
    if ltb n 1
    then info
    else if ltb n 2
    then low
    else if ltb n 3
    then medium
    else if ltb n 4
    then high
    else critical

pub of_text-text : (s : Severity) → of_text (text s) ≡ some s
unfolding of_text
of_text-text info = refl
of_text-text low = refl
of_text-text medium = refl
of_text-text high = refl
of_text-text critical = refl

pub of_rank-rank : (s : Severity) → of_rank (rank s) ≡ s
unfolding of_rank
of_rank-rank info = refl
of_rank-rank low = refl
of_rank-rank medium = refl
of_rank-rank high = refl
of_rank-rank critical = refl

pub rank-sup : (a b : Severity) → rank (sup a b) ≡ max (rank a) (rank b)
unfolding raise_to
rank-sup a b = ground arith

sup_swap : (e a b : Severity) → sup (sup e a) b ≡ sup (sup e b) a
sup_swap e a b =
    sym (of_rank-rank (sup (sup e a) b))
    ∙ ap of_rank
        (omega (arith, rank-sup (sup e a) b, rank-sup (sup e b) a, rank-sup e a, rank-sup e b))
    ∙ of_rank-rank (sup (sup e b) a)

pub sup-info : (a : Severity) → sup info a ≡ a
unfolding raise_to
sup-info info = refl
sup-info low = refl
sup-info medium = refl
sup-info high = refl
sup-info critical = refl

pub max_severity_of-two : (a b : Severity) → max_severity_of (a ∷ b ∷ []) ≡ sup a b
unfolding max_of max_from
max_severity_of-two a b = rw (of_text-text a, of_text-text b, sup-info a) refl

contains-append :
    (xs ys : List String) (s : String)
    → contains ⦃e = string_eq⦄ (xs ++ ys) s
      ≡ (contains ⦃e = string_eq⦄ xs s || contains ⦃e = string_eq⦄ ys s)
contains-append [] ys s = refl
contains-append (x ∷ xs) ys s = ground (arith, contains-append xs ys s)

contains-distinct :
    (xs : List String) (s : String)
    → contains ⦃e = string_eq⦄ (distinct string_eq xs) s ≡ contains ⦃e = string_eq⦄ xs s
contains-distinct [] s = refl
contains-distinct (x ∷ xs) s =
    elim (Bool-cases (contains ⦃e = string_eq⦄ (distinct string_eq xs) x)) [
      | inr new ↦ rw (new, contains-distinct xs s) refl
      | inl seen ↦ elim (Bool-cases (string_eq.beq x s)) [
        | inl same ↦
            rw (seen, same)
              (ap (contains ⦃e = string_eq⦄ (distinct string_eq xs))
                  (sym ((string_eq.beq_iff x s).0 same))
                ∙ seen)
        | inr different ↦ rw (seen, different) (contains-distinct xs s)
      ]
    ]

module _ (text_before : String → String → Bool) where
  contains-insert_text :
      (x : String) (xs : List String) (s : String)
      → contains ⦃e = string_eq⦄ (insert_text text_before x xs) s
        ≡ (string_eq.beq x s || contains ⦃e = string_eq⦄ xs s)
  contains-insert_text x [] s = refl
  contains-insert_text x (y ∷ ys) s = ground (arith, contains-insert_text x ys s)

  pub contains-sort_texts :
      (xs : List String) (s : String)
      → contains ⦃e = string_eq⦄ (sort_texts text_before xs) s ≡ contains ⦃e = string_eq⦄ xs s
  contains-sort_texts [] s = refl
  contains-sort_texts (x ∷ xs) s =
      contains-insert_text x (sort_texts text_before xs) s ∙ rw (contains-sort_texts xs s) refl

  pub contains-union :
      (xs ys : List String) (s : String)
      → contains ⦃e = string_eq⦄ (sorted_set text_before (xs ++ ys)) s
        ≡ (contains ⦃e = string_eq⦄ xs s || contains ⦃e = string_eq⦄ ys s)
  contains-union xs ys s =
      contains-sort_texts (distinct string_eq (xs ++ ys)) s
      ∙ contains-distinct (xs ++ ys) s
      ∙ contains-append xs ys s

-- What is counted of the PII of a trace, with the types as a set.
pub record PiiView : Type 0 where
  pub count : ℕ
  pub has_type : String → Bool
  pub max_severity : Severity

-- What the flags say, apart from the engines, the first ten fields and which of the injections with
-- the highest score is shown.
pub record View : Type 0 where
  pub findings : ℕ
  pub risk_score : ℕ
  pub max_severity : Option Severity
  pub pii : Option PiiView
  pub injection_score : Option ℕ

abbrev pub pii_view : PiiFlags → PiiView
pii_view p = record {
  count = p.count;
  has_type = contains ⦃e = string_eq⦄ p.types;
  max_severity = p.max_severity;
}

abbrev pub map_pii : Option PiiFlags → Option PiiView
map_pii none = none
map_pii (some p) = some (pii_view p)

abbrev pub map_score : Option InjectionFlags → Option ℕ
map_score none = none
map_score (some i) = some i.score

abbrev pub view : Flags → View
view f = record {
  findings = get_or f.findings 0;
  risk_score = get_or f.risk_score 0;
  max_severity = f.max_severity;
  pii = map_pii f.pii;
  injection_score = map_score f.injection;
}

-- The merge as a join: sums, maxima and unions.
abbrev pub join_severity : Option Severity → Option Severity → Option Severity
join_severity o none = o
join_severity o (some s) = some (sup (get_or o info) s)

abbrev pub empty_pii : PiiView
empty_pii = record { count = 0; has_type = λ s. false; max_severity = info }

abbrev pub join_pii : Option PiiView → Option PiiFlags → Option PiiView
join_pii o none = o
join_pii o (some p) =
    let v = get_or o empty_pii in
    some (record {
      count = v.count + p.count;
      has_type = λ s. v.has_type s || contains ⦃e = string_eq⦄ p.types s;
      max_severity = sup v.max_severity p.max_severity;
    })

abbrev pub join_score : Option ℕ → Option InjectionFlags → Option ℕ
join_score o none = o
join_score o (some i) = some (max (get_or o 0) i.score)

abbrev pub join_view : View → Flags → View
join_view v f = record {
  findings = v.findings + get_or f.findings 0;
  risk_score = max v.risk_score (get_or f.risk_score 0);
  max_severity = join_severity v.max_severity f.max_severity;
  pii = join_pii v.pii f.pii;
  injection_score = join_score v.injection_score f.injection;
}

pub pii_path :
    (c : ℕ) (f g : String → Bool) (s t : Severity)
    → ((x : String) → f x ≡ g x)
    → s ≡ t
    → ◌≡◌ {A = PiiView}
        (record { count = c; has_type = f; max_severity = s })
        (record { count = c; has_type = g; max_severity = t })
pii_path c f g s t p q = rw (fun_ext p, q) refl

module _ (text_before : String → String → Bool) where
  merge_severity-join : (o n : Option Severity) → merge_severity o n ≡ join_severity o n
  merge_severity-join o none = refl
  merge_severity-join o (some s) = ap some (max_severity_of-two (get_or o info) s)

  merge_pii-join :
      (o n : Option PiiFlags) → map_pii (merge_pii text_before o n) ≡ join_pii (map_pii o) n
  merge_pii-join o none = refl
  merge_pii-join none (some p) = ap some (
      pii_path (0 + p.count) _ _ _ _ (contains-union text_before [] p.types)
        (max_severity_of-two info p.max_severity))
  merge_pii-join (some o) (some p) = ap some (
      pii_path (o.count + p.count) _ _ _ _ (contains-union text_before o.types p.types)
        (max_severity_of-two o.max_severity p.max_severity))

  pub view_path :
      (n r : ℕ) (o o' : Option Severity) (p p' : Option PiiView) (i i' : Option ℕ)
      → o ≡ o'
      → p ≡ p'
      → i ≡ i'
      → ◌≡◌ {A = View}
          (record { findings = n; risk_score = r; max_severity = o; pii = p; injection_score = i })
          (record {
            findings = n;
            risk_score = r;
            max_severity = o';
            pii = p';
            injection_score = i';
          })
  view_path n r o o' p p' i i' e f g = rw (e, f, g) refl

  higher_score :
      (old i : InjectionFlags)
      → (if leb old.score i.score then some i.score else some old.score)
        ≡ some (max old.score i.score)
  higher_score old i = ground arith

  if_score :
      (b : Bool) (i old : InjectionFlags)
      → map_score (if b then some i else some old) ≡ (if b then some i.score else some old.score)
  if_score true i old = refl
  if_score false i old = refl

  if_first : (b : Bool) (i : InjectionFlags) → b ≡ true → (if b then some i else none) ≡ some i
  if_first b i h = rw h refl

  least : (n : ℕ) → leb 0 n ≡ true
  least n = ground arith

  zero_max : (n : ℕ) → n ≡ max 0 n
  zero_max n = omega arith

  merge_injection-join :
      (o n : Option InjectionFlags) → map_score (merge_injection o n) ≡ join_score (map_score o) n
  merge_injection-join o none = refl
  merge_injection-join none (some i) =
      ap map_score (if_first (leb 0 i.score) i (least i.score)) ∙ ap some (zero_max i.score)
  merge_injection-join (some old) (some i) =
      if_score (leb old.score i.score) i old ∙ higher_score old i

  -- A merge of flags is a join of what they say.
  pub view-merge_flags : (e n : Flags) → view (merge_flags text_before e n) ≡ join_view (view e) n
  unfolding merge_flags
  view-merge_flags e n =
      view_path _ _ _ _ _ _ _ _ (merge_severity-join e.max_severity n.max_severity)
        (merge_pii-join e.pii n.pii) (merge_injection-join e.injection n.injection)

  join_severity_swap :
      (o a b : Option Severity)
      → join_severity (join_severity o a) b ≡ join_severity (join_severity o b) a
  join_severity_swap o none none = refl
  join_severity_swap o (some a) none = refl
  join_severity_swap o none (some b) = refl
  join_severity_swap o (some a) (some b) = ap some (sup_swap (get_or o info) a b)

  or_swap : (x a b : Bool) → ((x || a) || b) ≡ ((x || b) || a)
  or_swap x a b = ground arith

  plus_swap : (x a b : ℕ) → x + a + b ≡ x + b + a
  plus_swap x a b = omega arith

  max_swap : (x a b : ℕ) → max (max x a) b ≡ max (max x b) a
  max_swap x a b = omega arith

  join_pii_swap :
      (o : Option PiiView) (a b : Option PiiFlags)
      → join_pii (join_pii o a) b ≡ join_pii (join_pii o b) a
  join_pii_swap o none none = refl
  join_pii_swap o (some a) none = refl
  join_pii_swap o none (some b) = refl
  join_pii_swap o (some a) (some b) =
      let v = get_or o empty_pii in
      rw (plus_swap v.count a.count b.count) (
        ap some (
          pii_path _ _ _ _ _
            (λ s.
              or_swap (v.has_type s) (contains ⦃e = string_eq⦄ a.types s)
                (contains ⦃e = string_eq⦄ b.types s))
            (sup_swap v.max_severity a.max_severity b.max_severity)))

  join_score_swap :
      (o : Option ℕ) (a b : Option InjectionFlags)
      → join_score (join_score o a) b ≡ join_score (join_score o b) a
  join_score_swap o none none = refl
  join_score_swap o (some a) none = refl
  join_score_swap o none (some b) = refl
  join_score_swap o (some a) (some b) = ap some (max_swap (get_or o 0) a.score b.score)

  join_view_swap :
      (v : View) (a b : Flags) → join_view (join_view v a) b ≡ join_view (join_view v b) a
  join_view_swap v a b =
      rw
        (
          plus_swap v.findings (get_or a.findings 0) (get_or b.findings 0),
          max_swap v.risk_score (get_or a.risk_score 0) (get_or b.risk_score 0),
        )
        (view_path _ _ _ _ _ _ _ _ (join_severity_swap v.max_severity a.max_severity b.max_severity)
          (join_pii_swap v.pii a.pii b.pii)
          (join_score_swap v.injection_score a.injection b.injection))

  abbrev pub join_all : View → List Flags → View
  join_all v [] = v
  join_all v (n ∷ ns) = join_all (join_view v n) ns

  pub view-merge_all :
      (ns : List Flags) (e : Flags) → view (merge_all text_before e ns) ≡ join_all (view e) ns
  unfolding merge_all
  view-merge_all [] e = refl
  view-merge_all (n ∷ ns) e =
      view-merge_all ns (merge_flags text_before e n)
      ∙ ap (λ v. join_all v ns) (view-merge_flags e n)

  join_all-permᴰ : {xs ys : List Flags} → Permᴰ xs ys → (v : View) → join_all v xs ≡ join_all v ys
  join_all-permᴰ Permᴰ.nil v = refl
  join_all-permᴰ (Permᴰ.cons {a = a} {b = b} {l₂ = ys} e p) v =
      join_all-permᴰ p (join_view v a) ∙ ap (λ n. join_all (join_view v n) ys) e
  join_all-permᴰ (Permᴰ.swap {a = a} {b = b} {l = l} p q) v =
      ap (λ w. join_all w l) (join_view_swap v a b)
      ∙ ap₂ (λ x y. join_all (join_view (join_view v x) y) l) q p
  join_all-permᴰ (Permᴰ.trans p q) v = join_all-permᴰ p v ∙ join_all-permᴰ q v

  View-set : IsSet View
  View-set = hlevel

  -- In whatever order the scans of a trace are merged, its flags end with the same number of findings,
  -- the same risk score, the same highest severity, the same count, types and severity of the personal
  -- data, and with an injection in the same cases, of the same score. The engines, the ten fields and
  -- which of the injections of that score is shown are left out.
  pub merge_all-perm :
      (existing : Flags) (xs ys : List Flags)
      → Perm xs ys
      → view (merge_all text_before existing xs) ≡ view (merge_all text_before existing ys)
  merge_all-perm existing xs ys p =
      view-merge_all xs existing
      ∙ ∥∥₁_elim p (View-set _ _) (λ q. join_all-permᴰ q (view existing))
      ∙ sym (view-merge_all ys existing)
