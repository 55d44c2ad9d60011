-- ===== src/Worker/Parse.antt =====
-- `_flatten_entries`, `_flatten` and `parse` of
-- packages/obs-platform/src/obs_platform/workers/base.py. `parse_event(message.payload())` is an
-- argument: it returns an event or raises.
use agent_lens_platform.Common.{
  ◌≤◌, ◌≡◌, refl, sym, ◌∙◌, List, [], ◌∷◌, ◌++◌, map, arith, length, All, All-append,
}
use mathlib.Core.List.{map-append, append_assoc, append-nil}
use agent_lens_platform.Common.Text.{prefix}
use agent_lens_platform.Worker.{
  StreamMessage, Failure, DeadEntry, BatchOutcome, no_outcome, RawEntry, malformed, deleted, entry,
  RawStream, malformed_stream, stream_of,
}

-- an entry that is no pair, or that was deleted while pending, is skipped
unfoldable pub flatten_entries : List RawEntry → List StreamMessage
flatten_entries [] = []
flatten_entries (malformed ∷ entries) = flatten_entries entries
flatten_entries (deleted _ ∷ entries) = flatten_entries entries
flatten_entries (entry i fields ∷ entries) =
    record { message_id = i; fields = fields; delivery_count = 1 } ∷ flatten_entries entries

unfoldable pub flatten : List RawStream → List StreamMessage
unfolding flatten_entries
flatten [] = []
flatten (malformed_stream ∷ streams) = flatten streams
flatten (stream_of entries ∷ streams) = flatten_entries entries ++ flatten streams

pub length-flatten_entries : (es : List RawEntry) → length (flatten_entries es) ≤ length es
unfolding flatten_entries
length-flatten_entries [] = omega arith
length-flatten_entries (malformed ∷ es) = omega (arith, length-flatten_entries es)
length-flatten_entries (deleted _ ∷ es) = omega (arith, length-flatten_entries es)
length-flatten_entries (entry _ _ ∷ es) = omega (arith, length-flatten_entries es)

-- `ParsedMessage`
pub record ParsedMessage (E : Type 0) : Type 0 where
  pub message : StreamMessage
  pub event : E

pub data Attempt (E : Type 0) : Type 0 where
  event_of : E → Attempt E
  failed_by : Failure → Attempt E

module _ {E : Type 0} (parse_event : StreamMessage → Attempt E) where
  abbrev pub parse_step :
      StreamMessage
      → Attempt E
      → List (ParsedMessage E) × BatchOutcome
      → List (ParsedMessage E) × BatchOutcome
  parse_step m (event_of e) (parsed, outcome) =
      (parsed ++ record { message = m; event = e } ∷ [], outcome)
  parse_step m (failed_by f) (parsed, outcome) =
      let dead : DeadEntry = record {
        message = m;
        error_type = f.error_type;
        error_message = prefix 500 f.error_text;
      } in
      (parsed, record outcome { dead = outcome.dead ++ dead ∷ [] })

  unfoldable pub parse_from :
      List (ParsedMessage E) × BatchOutcome
      → List StreamMessage
      → List (ParsedMessage E) × BatchOutcome
  parse_from acc [] = acc
  parse_from acc (m ∷ ms) = parse_from (parse_step m (parse_event m) acc) ms

  -- `StreamConsumer.parse`
  unfoldable pub parse : List StreamMessage → List (ParsedMessage E) × BatchOutcome
  unfolding parse_from
  parse = parse_from ([], no_outcome)

-- The messages of a batch, those that failed to parse left out, or those alone.
module _ {E : Type 0} (parse_event : StreamMessage → Attempt E) where
  abbrev pub parsed_by : List StreamMessage → List StreamMessage
  parsed_by [] = []
  parsed_by (m ∷ ms) = elim (parse_event m) [
    | event_of _ ↦ m ∷ parsed_by ms
    | failed_by _ ↦ parsed_by ms
  ]

  abbrev pub refused_by : List StreamMessage → List StreamMessage
  refused_by [] = []
  refused_by (m ∷ ms) = elim (parse_event m) [
    | event_of _ ↦ refused_by ms
    | failed_by _ ↦ m ∷ refused_by ms
  ]

  -- `p` is what `parse` makes of the messages, after what it had.
  pub record ParsesTo (ms : List StreamMessage) (p₀ p : List (ParsedMessage E) × BatchOutcome)
      : Type 0 where
    pub parsed : map (λ x. x.message) p.0 ≡ map (λ x. x.message) p₀.0 ++ parsed_by ms
    pub dead : map (λ d. d.message) p.1.dead ≡ map (λ d. d.message) p₀.1.dead ++ refused_by ms
    pub ack : p.1.ack ≡ p₀.1.ack
    pub retry : p.1.retry ≡ p₀.1.retry
    pub events :
        All (λ x. parse_event x.message ≡ event_of x.event) p₀.0
        → All (λ x. parse_event x.message ≡ event_of x.event) p.0

  step-ParsesTo :
      (m : StreamMessage) (ms : List StreamMessage) (r : Attempt E)
      (acc p : List (ParsedMessage E) × BatchOutcome)
      → parse_event m ≡ r
      → ParsesTo ms (parse_step parse_event m r acc) p
      → ParsesTo (m ∷ ms) acc p
  step-ParsesTo m ms (event_of e) (parsed, outcome) p eq h = record {
    parsed = h.parsed ∙ simp (map-append, append_assoc) (rw (eq, parsed_by));
    dead = h.dead ∙ rw (eq, refused_by);
    ack = h.ack;
    retry = h.retry;
    events = λ k. h.events (
        All-append (λ (x : ParsedMessage E). parse_event x.message ≡ event_of x.event) parsed _ k
          (eq, tt));
  }
  step-ParsesTo m ms (failed_by f) (parsed, outcome) p eq h = record {
    parsed = h.parsed ∙ rw (eq, parsed_by);
    dead = h.dead ∙ simp (map-append, append_assoc) (rw (eq, refused_by));
    ack = h.ack;
    retry = h.retry;
    events = h.events;
  }

  parse_from-ParsesTo :
      (acc : List (ParsedMessage E) × BatchOutcome) (ms : List StreamMessage)
      → ParsesTo ms acc (parse_from parse_event acc ms)
  unfolding parse_from
  parse_from-ParsesTo acc [] = record {
    parsed = sym (append-nil _);
    dead = sym (append-nil _);
    ack = refl;
    retry = refl;
    events = λ k. k;
  }
  parse_from-ParsesTo acc (m ∷ ms) =
      step-ParsesTo m ms (parse_event m) acc _ refl
        (parse_from-ParsesTo (parse_step parse_event m (parse_event m) acc) ms)

  -- `parse` splits a batch in order: the parsed messages are those whose payload parses, each with
  -- its event, the dead ones are all the others, and nothing is acked or retried.
  pub parse-ParsesTo :
      (ms : List StreamMessage) → ParsesTo ms ([], no_outcome) (parse parse_event ms)
  unfolding parse
  parse-ParsesTo ms = parse_from-ParsesTo ([], no_outcome) ms
