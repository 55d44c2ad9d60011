-- ===== src/Pagination/Cursor.antt =====
-- The round trip of the cursors of packages/obs-platform/src/obs_platform/api/pagination.py.
use Prim.Native.Char.{code}
use agent_lens_platform.Common.{
  ℕ, zero, suc, ◌+◌, ◌%◌, ◌<◌, ◌≡◌, refl, sym, ap, ◌∙◌, String, Bool, true, false, ◌||◌, some, ◌==◌,
  arith, inl, inr, Bool-cases,
}
use agent_lens_platform.Common.Text.{join, chars}
use agent_lens_platform.Pagination.{
  strip_padding, padding, missing, partition, Codec, encode_cursor, decode_cursor, read_raw,
  read_parts,
}

-- `"|" in text`
abbrev pub has_bar : String → Bool
has_bar String.[] = false
has_bar (String.◌∷◌ c s) = code c == 124 || has_bar s

-- What is documented of base64 and of timestamps: what is encoded decodes; a code is a text that does
-- not end in `=`, and then fewer than four `=` that fill it up to a multiple of four; a timestamp's text
-- reads as that timestamp and has no bar.
pub record CodecLaws (codec : Codec) : Type 0 where
  pub decode-encode : (s : String) → codec.decode (codec.encode s) ≡ some s
  pub body : String → String
  pub filled : String → ℕ
  pub encode_shape : (s : String) → codec.encode s ≡ join (body s) (padding (filled s))
  pub body_clean : (s : String) → strip_padding (body s) ≡ body s
  pub filled_lt : (s : String) → filled s < 4
  pub filled_up : (s : String) → (chars (body s) + filled s) % 4 ≡ 0
  pub read-time_text : (t : ℕ) → codec.read_time (codec.time_text t) ≡ some t
  pub time_text_free : (t : ℕ) → has_bar (codec.time_text t) ≡ false

strip-padding : (n : ℕ) → strip_padding (padding n) ≡ String.[]
unfolding strip_padding padding join
strip-padding zero = refl
strip-padding (suc n) = rw (strip-padding n) refl

pub strip-join : (s : String) (n : ℕ) → strip_padding (join s (padding n)) ≡ strip_padding s
unfolding strip_padding join
strip-join String.[] n = strip-padding n
strip-join (String.◌∷◌ c s) n = rw (strip-join s n) refl

clash : (a b : Bool) → a ≡ true → (a || b) ≡ false → ⊥
clash a b h k = ground arith

or-right : (a b : Bool) → (a || b) ≡ false → b ≡ false
or-right a b h = ground arith

partition-join : (a s : String) → has_bar a ≡ false → partition (join a (join "|" s)) ≡ (a, s)
unfolding partition join
partition-join String.[] s h = refl
partition-join (String.◌∷◌ c a) s h = elim (Bool-cases (code c == 124)) [
  | inl bar ↦ absurd (clash (code c == 124) (has_bar a) bar h)
  | inr plain ↦ rw (plain, partition-join a s (or-right (code c == 124) (has_bar a) h)) refl
]

missing-filled : (n k : ℕ) → k < 4 → (n + k) % 4 ≡ 0 → missing n ≡ k
missing-filled n k h e = omega arith

module _ (codec : Codec) (laws : CodecLaws codec) where
  -- What `encode_cursor` writes, `decode_cursor` reads: the same sort value and the same tiebreak,
  -- whatever characters the tiebreak has.
  pub decode-encode_cursor :
      (sort_value : ℕ) (tiebreak : String)
      → decode_cursor codec (encode_cursor codec sort_value tiebreak) ≡ some (sort_value, tiebreak)
  unfolding decode_cursor encode_cursor
  decode-encode_cursor sort_value tiebreak =
      let raw = join (codec.time_text sort_value) (join "|" tiebreak) in
      let stripped =
        ap strip_padding (laws.encode_shape raw)
        ∙ strip-join (laws.body raw) (laws.filled raw)
        ∙ laws.body_clean raw in
      let filled =
        missing-filled (chars (laws.body raw)) (laws.filled raw) (laws.filled_lt raw)
          (laws.filled_up raw) in
      rw (stripped, filled)
        (ap (λ c. read_raw codec (codec.decode c)) (sym (laws.encode_shape raw))
          ∙ ap (read_raw codec) (laws.decode-encode raw)
          ∙ ap (read_parts codec) (
              partition-join (codec.time_text sort_value) tiebreak (laws.time_text_free sort_value))
          ∙ rw (read_parts, laws.read-time_text sort_value) refl)
