-- ===== src/Tests/Paging.antt =====
-- Runs of pages and of cursors, with a codec that stands for base64 and for the text of a timestamp: a
-- code is the text with one more letter, filled up as base64 fills, and a timestamp is as many strokes.

use agent_lens_platform.Common.{
  ℕ, zero, suc, ◌≡◌, refl, ap, ◌∙◌, String, true, false, none, some, List, [], ◌∷◌, if◌then◌else◌,
  ltb, arith,
}
use agent_lens_platform.Common.Text.{join, chars, is_text}
use agent_lens_platform.Pagination.{
  strip_padding, padding, missing, Codec, encode_cursor, decode_cursor,
}
use agent_lens_platform.Pagination.Cursor.{has_bar, CodecLaws, decode-encode_cursor, strip-join}
use agent_lens_platform.Pagination.Walk.{IsDescending, walk, walk_complete}

but_last : String → String
but_last String.[] = String.[]
but_last (String.◌∷◌ c s) = if is_text s then String.◌∷◌ c (but_last s) else String.[]

strokes : ℕ → String
strokes zero = String.[]
strokes (suc n) = join "1" (strokes n)

abbrev example_codec : Codec
example_codec = record {
  encode = λ s. join (join s "A") (padding (missing (chars (join s "A"))));
  decode = λ s. some (but_last (strip_padding s));
  time_text = strokes;
  read_time = λ s. some (chars s);
}

is_text-join : (s : String) → is_text (join s "A") ≡ true
unfolding join
is_text-join String.[] = refl
is_text-join (String.◌∷◌ c s) = refl

strip-letter : (s : String) → strip_padding (join s "A") ≡ join s "A"
unfolding strip_padding join
strip-letter String.[] = refl
strip-letter (String.◌∷◌ c s) = rw (strip-letter s, is_text-join s) refl

but_last-letter : (s : String) → but_last (join s "A") ≡ s
unfolding but_last join
but_last-letter String.[] = refl
but_last-letter (String.◌∷◌ c s) = rw (is_text-join s, but_last-letter s) refl

chars-strokes : (n : ℕ) → chars (strokes n) ≡ n
unfolding strokes join
chars-strokes zero = refl
chars-strokes (suc n) = ap suc (chars-strokes n)

strokes-free : (n : ℕ) → has_bar (strokes n) ≡ false
unfolding strokes join
strokes-free zero = refl
strokes-free (suc n) = strokes-free n

example_laws : CodecLaws example_codec
example_laws = record {
  decode-encode = λ s.
      ap (λ t. some (but_last t))
        (strip-join (join s "A") (missing (chars (join s "A"))) ∙ strip-letter s)
      ∙ ap some (but_last-letter s);
  body = λ s. join s "A";
  filled = λ s. missing (chars (join s "A"));
  encode_shape = λ s. refl;
  body_clean = strip-letter;
  filled_lt = λ s. omega arith;
  filled_up = λ s. omega arith;
  read-time_text = λ t. ap some (chars-strokes t);
  time_text_free = strokes-free;
}

decode-encode_cursor_example :
    decode_cursor example_codec (encode_cursor example_codec 3 "span|7") ≡ some (3, "span|7")
decode-encode_cursor_example = decode-encode_cursor example_codec example_laws 3 "span|7"

abbrev five_rows : List ℕ
five_rows = 50 ∷ 40 ∷ 30 ∷ 20 ∷ 10 ∷ []

five_rows-IsDescending : IsDescending (λ r. r) ltb five_rows
five_rows-IsDescending =
    let p : (true ≡ true) × (false ≡ false) = (refl, refl) in
    (
      (p, (p, (p, (p, tt)))),
      (
        refl,
        ((p, (p, (p, tt))), (refl, ((p, (p, tt)), (refl, ((p, tt), (refl, (tt, (refl, tt)))))))),
      ),
    )

walk_complete_example : walk (λ r. r) ltb 2 five_rows 5 none ≡ five_rows
walk_complete_example =
    walk_complete (λ r. r) ltb 2 five_rows 5 (omega arith) five_rows-IsDescending (omega arith)
