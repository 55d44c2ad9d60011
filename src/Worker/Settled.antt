-- ===== src/Worker/Settled.antt =====
-- What a handler makes of the messages of a batch, as `process` of
-- packages/obs-platform/src/obs_platform/workers/storage_writer.py and of guardrail_scanner.py settle them:
-- the parsed messages that they ack, and the dead ones.
use agent_lens_platform.Common.{
  ℕ, ◌+◌, ◌≡◌, refl, ap, ◌∙◌, true, false, List, [], ◌∷◌, ◌++◌, arith, map, is_empty,
}
use agent_lens_platform.Event.{ObsEvent}
use agent_lens_platform.Worker.{StreamMessage, BatchOutcome, DeadEntry, dead_ids}
use agent_lens_platform.Worker.Parse.{
  ParsedMessage, Attempt, parse, parse-ParsesTo, parsed_by, refused_by,
}

abbrev pub ids_of : List (ParsedMessage ObsEvent) → List ℕ
ids_of = map (λ item. item.message.message_id)

abbrev pub acked : List (ParsedMessage ObsEvent) → BatchOutcome → BatchOutcome
acked items outcome = record outcome { ack = outcome.ack ++ ids_of items }

-- The weights of a list of ids, with repeats.
abbrev pub tally : (ℕ → ℕ) → List ℕ → ℕ
tally w [] = 0
tally w (i ∷ is) = w i + tally w is

abbrev pub message_ids : List StreamMessage → List ℕ
message_ids = map (λ m. m.message_id)

-- Every message is acked or dead, as often as it is in the batch, and none is retried.
abbrev pub AllSettled : List StreamMessage → BatchOutcome → Type 0
AllSettled ms outcome =
    (outcome.retry ≡ [])
    × ((w : ℕ → ℕ)
        → tally w outcome.ack + tally w (dead_ids outcome.dead) ≡ tally w (message_ids ms))

module _ (w : ℕ → ℕ) where
  tally-append : (xs ys : List ℕ) → tally w (xs ++ ys) ≡ tally w xs + tally w ys
  tally-append [] ys = omega arith
  tally-append (x ∷ xs) ys = omega (arith, tally-append xs ys)

  abbrev pub of_messages : List StreamMessage → ℕ
  of_messages ms = tally w (message_ids ms)

  abbrev pub of_items : List (ParsedMessage ObsEvent) → ℕ
  of_items items = tally w (ids_of items)

  abbrev pub of_dead : List DeadEntry → ℕ
  of_dead ds = tally w (dead_ids ds)

  pub of_items-append :
      (xs ys : List (ParsedMessage ObsEvent)) → of_items (xs ++ ys) ≡ of_items xs + of_items ys
  of_items-append [] ys = omega arith
  of_items-append (x ∷ xs) ys = omega (arith, of_items-append xs ys)

  pub of_dead-append : (xs ys : List DeadEntry) → of_dead (xs ++ ys) ≡ of_dead xs + of_dead ys
  of_dead-append [] ys = omega arith
  of_dead-append (x ∷ xs) ys = omega (arith, of_dead-append xs ys)

  pub of_items-messages :
      (items : List (ParsedMessage ObsEvent))
      → of_items items ≡ of_messages (map (λ x. x.message) items)
  of_items-messages [] = refl
  of_items-messages (x ∷ xs) = ap (λ n. w x.message.message_id + n) (of_items-messages xs)

  pub of_dead-messages : (ds : List DeadEntry) → of_dead ds ≡ of_messages (map (λ d. d.message) ds)
  of_dead-messages [] = refl
  of_dead-messages (d ∷ ds) = ap (λ n. w d.message.message_id + n) (of_dead-messages ds)

  pub split-messages :
      (parse_event : StreamMessage → Attempt ObsEvent) (ms : List StreamMessage)
      → of_messages (parsed_by parse_event ms) + of_messages (refused_by parse_event ms)
        ≡ of_messages ms
  split-messages parse_event [] = omega arith
  split-messages parse_event (m ∷ ms) = ground (arith, split-messages parse_event ms)

-- What `parse` and then the scans account for.
pub parsed-AllSettled :
    (parse_event : StreamMessage → Attempt ObsEvent) (ms : List StreamMessage) (w : ℕ → ℕ)
    → let (parsed, outcome) = parse parse_event ms in
      of_items w parsed + of_dead w outcome.dead ≡ of_messages w ms
parsed-AllSettled parse_event ms w =
    let h = parse-ParsesTo parse_event ms in
    let (parsed, outcome) = parse parse_event ms in
    omega (
      arith,
      of_items-messages w parsed ∙ ap (of_messages w) h.parsed,
      of_dead-messages w outcome.dead ∙ ap (of_messages w) h.dead,
      split-messages w parse_event ms,
    )

false-true : false ≡ true → ⊥
false-true h = cc

abbrev pub Accounts : List StreamMessage → List (ParsedMessage ObsEvent) → BatchOutcome → Type 0
Accounts ms items outcome =
    (outcome.ack ≡ [])
    × ((outcome.retry ≡ [])
        × ((w : ℕ → ℕ) → of_items w items + of_dead w outcome.dead ≡ of_messages w ms))

pub acked-AllSettled :
    (ms : List StreamMessage) (items : List (ParsedMessage ObsEvent)) (outcome : BatchOutcome)
    → Accounts ms items outcome
    → AllSettled ms (acked items outcome)
acked-AllSettled ms items outcome h = (h.1.0, λ w. rw h.0 (h.1.1 w))

pub empty-AllSettled :
    (ms : List StreamMessage) (items : List (ParsedMessage ObsEvent)) (outcome : BatchOutcome)
    → is_empty items ≡ true
    → Accounts ms items outcome
    → AllSettled ms outcome
empty-AllSettled ms [] outcome none_left h = (h.1.0, λ w. rw h.0 (h.1.1 w))
empty-AllSettled ms (item ∷ items) outcome none_left h = absurd (false-true none_left)
