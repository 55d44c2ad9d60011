-- ===== src/Pagination.antt =====
-- packages/obs-platform/src/obs_platform/api/pagination.py: cursors, limits and pages, and the keyset
-- query of api/routers/traces.py that they serve. A cursor's sort value is in microseconds since the
-- epoch; base64 and the text of a timestamp are arguments, with the laws that their formats document.
pub mod Cursor
pub mod Walk
use Prim.Native.Char.{code}
use agent_lens_platform.Common.{
  ℕ, zero, suc, ◌-◌, ◌%◌, String, Bool, ◌&&◌, not, Option, none, some, List, [], ◌∷◌, length, take,
  ltb, ◌==◌, if◌then◌else◌, max, min,
}
use agent_lens_platform.Common.Text.{join, chars, is_text}

-- `text.rstrip("=")`
unfoldable pub strip_padding : String → String
strip_padding String.[] = String.[]
strip_padding (String.◌∷◌ c s) =
    let rest = strip_padding s in
    if not (is_text rest) && (code c == 61) then String.[] else String.◌∷◌ c rest

-- `"=" * n`
unfoldable pub padding : ℕ → String
unfolding join
padding zero = String.[]
padding (suc n) = join "=" (padding n)

-- `-n % 4`
abbrev pub missing : ℕ → ℕ
missing n = (4 - n % 4) % 4

-- `raw.partition("|")`: the texts before and after the first bar
unfoldable pub partition : String → String × String
partition String.[] = (String.[], String.[])
partition (String.◌∷◌ c s) =
    let rest = partition s in
    if code c == 124 then (String.[], s) else (String.◌∷◌ c rest.0, rest.1)

-- `urlsafe_b64encode` and `urlsafe_b64decode`, and the text of a timestamp with `float` on it; `none` is
-- an error that `decode_cursor` catches.
pub record Codec : Type 0 where
  pub encode : String → String
  pub decode : String → Option String
  pub time_text : ℕ → String
  pub read_time : String → Option ℕ

module _ (codec : Codec) where
  unfoldable pub encode_cursor : ℕ → String → String
  unfolding strip_padding join
  encode_cursor sort_value tiebreak =
      strip_padding (codec.encode (join (codec.time_text sort_value) (join "|" tiebreak)))

  abbrev pub read_parts : String × String → Option (ℕ × String)
  read_parts (timestamp_text, tiebreak) = elim (codec.read_time timestamp_text) [
    | none ↦ none
    | some t ↦ some (t, tiebreak)
  ]

  abbrev pub read_raw : Option String → Option (ℕ × String)
  read_raw none = none
  read_raw (some raw) = read_parts (partition raw)

  -- `decode_cursor`; `none` is the 400
  unfoldable pub decode_cursor : String → Option (ℕ × String)
  unfolding padding partition join
  decode_cursor cursor = read_raw (codec.decode (join cursor (padding (missing (chars cursor)))))

-- `clamp_limit`, on a limit that is not negative
abbrev pub clamp_limit : Option ℕ → ℕ → ℕ → ℕ
clamp_limit none default maximum = default
clamp_limit (some limit) default maximum = max 1 (min limit maximum)

-- `page[-1]`, if the page has a row
abbrev pub last {ℓ} : {A : Type ℓ} → List A → Option A
last [] = none
last (x ∷ []) = some x
last (x ∷ y ∷ ys) = last (y ∷ ys)

abbrev pub cursor_at {ℓ κ} : {A : Type ℓ} {C : Type κ} → (A → C) → Option A → Option C
cursor_at cursor_of none = none
cursor_at cursor_of (some row) = some (cursor_of row)

-- `build_page`
unfoldable pub build_page {ℓ κ} :
    {A : Type ℓ} {C : Type κ} → List A → ℕ → (A → C) → List A × (Option C × Bool)
build_page rows limit cursor_of =
    let has_more = ltb limit (length rows) in
    let page = take limit rows in
    (page, (if has_more then cursor_at cursor_of (last page) else none, has_more))
