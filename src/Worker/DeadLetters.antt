-- ===== src/Worker/DeadLetters.antt =====
-- `_dead_letter`, `_dead_letter_ids` and `_write_dead_letters` of
-- packages/obs-platform/src/obs_platform/workers/base.py.
use agent_lens_platform.Common.{
  ℕ, ◌+◌, String, Option, none, some, List, [], ◌∷◌, ◌++◌, map, length, ◌==◌, if◌then◌else◌, get_or,
}
use agent_lens_platform.Common.Text.{Fields, field, get, truthy, text, obj, end, prefix, is_text}
use agent_lens_platform.Worker.{
  raised, redelivered, EntryFields, Result, ok, err, DeadEntry, Consumer, Settings, DeadLetter,
  Services,
}

-- `dict(pairs).get(k)`: the last pair of a key counts
unfoldable pub last_of {ℓ} : {V : Type ℓ} → ℕ → List (ℕ × V) → Option V
last_of k [] = none
last_of k ((j, v) ∷ d) = elim (last_of k d) [
  | some w ↦ some w
  | none ↦ if j == k then some v else none
]

-- `text[:64] or None`
abbrev pub clipped : String → Option String
clipped s = if is_text (prefix 64 s) then some (prefix 64 s) else none

-- `{"raw_fields": fields}`
abbrev texts : EntryFields → Fields
texts [] = end
texts ((k, v) ∷ fields) = field k (text v) (texts fields)

abbrev pub raw_fields : EntryFields → Fields
raw_fields fields = field "raw_fields" (obj (texts fields)) end

-- A write that raises is logged, and the counter stays.
unfoldable pub counted : ℕ → Consumer → Result (Unit {0}) → Consumer
counted n c (ok _) = record c {
  stats = record c.stats { dead_lettered = c.stats.dead_lettered + n };
}
counted n c (err _) = c

abbrev pub ids_of : List (ℕ × ℕ) → List ℕ
ids_of [] = []
ids_of (p ∷ ps) = p.0 ∷ ids_of ps

module _ (sv : Services) (cfg : Settings) where
  -- `message.payload()` and its handler
  abbrev payload_of : EntryFields → Fields
  payload_of fields = elim (sv.decode_event_fields fields) [
    | ok payload ↦ payload
    | err _ ↦ raw_fields fields
  ]

  -- `str(payload.get(key) or "")[:64] or None`
  abbrev column : String → Fields → Option String
  column key payload = elim (get key payload) [
    | none ↦ none
    | some v ↦ if truthy v then clipped (sv.py_str v) else none
  ]

  unfoldable pub dead_row : DeadEntry → DeadLetter
  dead_row d =
      let payload = payload_of d.message.fields in
      record {
        stream = cfg.stream;
        consumer_group = cfg.group;
        message_id = d.message.message_id;
        tenant_id = column "tenant_id" payload;
        trace_id = column "trace_id" payload;
        delivery_count = d.message.delivery_count;
        error_type = prefix 120 d.error_type;
        error_message = raised (prefix 2000 d.error_message);
        payload = payload;
      }

  unfoldable pub write_dead_letters : List DeadLetter → Consumer × sv.World → Consumer × sv.World
  unfolding counted
  write_dead_letters [] s = s
  write_dead_letters (row ∷ rows) (c, w) =
      let (r, w') = sv.write_rows (row ∷ rows) w in (counted (length (row ∷ rows)) c r, w')

  unfoldable pub dead_letter : List DeadEntry → Consumer × sv.World → Consumer × sv.World
  unfolding write_dead_letters dead_row
  dead_letter entries s = write_dead_letters (map dead_row entries) s

  abbrev found : Result (List (ℕ × EntryFields)) → List (ℕ × EntryFields)
  found (ok entries) = entries
  found (err _) = []

  -- one bounded `XRANGE` for each poison message; a failing one is skipped
  unfoldable pub fetch : List ℕ → sv.World → List (ℕ × EntryFields) × sv.World
  fetch [] w = ([], w)
  fetch (i ∷ ids) w =
      let (r, w') = sv.xrange_one i w in let (rest, w'') = fetch ids w' in (found r ++ rest, w'')

  -- `decode_event_fields(fields) if fields else {}`, and its handler
  abbrev poison_payload : EntryFields → Fields
  poison_payload [] = end
  poison_payload (f ∷ fields) = payload_of (f ∷ fields)

  unfoldable pub poison_row : List (ℕ × ℕ) → List (ℕ × EntryFields) → ℕ → DeadLetter
  unfolding last_of
  poison_row poison by_id i =
      let payload = poison_payload (get_or (last_of i by_id) []) in
      record {
        stream = cfg.stream;
        consumer_group = cfg.group;
        message_id = i;
        tenant_id = column "tenant_id" payload;
        trace_id = column "trace_id" payload;
        delivery_count = get_or (last_of i poison) 0;
        error_type = "MaxDeliveryAttemptsExceeded";
        error_message = redelivered (get_or (last_of i poison) 0) cfg.max_delivery_attempts;
        payload = payload;
      }

  -- The ack at the end is made whatever became of the write, and may fail silently.
  unfoldable pub dead_letter_ids : List (ℕ × ℕ) → Consumer × sv.World → Consumer × sv.World
  unfolding fetch poison_row write_dead_letters
  dead_letter_ids poison (c, w) =
      let (by_id, w1) = fetch (ids_of poison) w in
      let (c', w2) = write_dead_letters (map (poison_row poison by_id) (ids_of poison)) (c, w1) in
      (c', (sv.xack (ids_of poison) w2).1)
