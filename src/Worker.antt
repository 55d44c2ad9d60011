-- ===== src/Worker.antt =====
-- The data of packages/obs-platform/src/obs_platform/workers/base.py: messages, what a handler
-- decides, the counters, and what the consumer calls outside this repository.
-- A method is a function on the consumer's fields and the world behind those calls.
pub mod Batch
pub mod DeadLetters
pub mod Reclaim
pub mod Tick
pub mod Parse
pub mod Settled
use agent_lens_platform.Common.{ℕ, String, Bool, Option, List, [], ◌++◌, map}
use agent_lens_platform.Common.Text.{Json, Fields}

-- The fields of a stream entry.
abbrev pub EntryFields : Type 0
EntryFields = List (String × String)

pub record StreamMessage : Type 0 where
  pub message_id : ℕ
  pub fields : EntryFields
  pub delivery_count : ℕ

-- `type(exc).__name__`, `str(exc)` and `repr(exc)`
pub record Failure : Type 0 where
  pub error_type : String
  pub error_text : String
  pub error_repr : String

-- An exception, by the tests that the consumer makes on it: `PermanentError`, what
-- `is_lock_conflict` finds, a `ResponseError` with and without "NOGROUP", and any other.
pub data Raised : Type 0 where
  permanent lock_conflict no_group response other : Failure → Raised

abbrev pub failure : Raised → Failure
failure (permanent f) = f
failure (lock_conflict f) = f
failure (no_group f) = f
failure (response f) = f
failure (other f) = f

pub data Result (A : Type 0) : Type 0 where
  ok : A → Result A
  err : Raised → Result A

pub record DeadEntry : Type 0 where
  pub message : StreamMessage
  pub error_type : String
  pub error_message : String

pub record BatchOutcome : Type 0 where
  pub ack : List ℕ
  pub retry : List ℕ
  pub dead : List DeadEntry

abbrev pub no_outcome : BatchOutcome
no_outcome = record { ack = []; retry = []; dead = [] }

-- `BatchOutcome.extend`
unfoldable pub extend : BatchOutcome → BatchOutcome → BatchOutcome
extend a b = record { ack = a.ack ++ b.ack; retry = a.retry ++ b.retry; dead = a.dead ++ b.dead }

-- `[m.message_id for m, _, _ in dead]`
abbrev pub dead_ids : List DeadEntry → List ℕ
dead_ids = map (λ d. d.message.message_id)

-- `ConsumerStats`
pub record Stats : Type 0 where
  pub processed : ℕ
  pub failed : ℕ
  pub dead_lettered : ℕ
  pub batches : ℕ
  pub last_success_at : Option ℕ
  pub last_error : Option String

-- The fields of `StreamConsumer` that its methods change.
pub record Consumer : Type 0 where
  pub stats : Stats
  pub last_claim_at : ℕ
  pub claim_supported : Bool

-- `Settings`, as far as the consumer reads it; times are milliseconds.
pub record Settings : Type 0 where
  pub stream : String
  pub group : String
  pub batch_size : ℕ
  pub claim_interval : ℕ
  pub claim_min_idle : ℕ
  pub max_delivery_attempts : ℕ

-- The `error_message` of a dead letter: a text, or "redelivered n times without an ack (limit m)".
pub data DeadText : Type 0 where
  raised : String → DeadText
  redelivered : ℕ → ℕ → DeadText

-- A row of the `dead_letters` table.
pub record DeadLetter : Type 0 where
  pub stream : String
  pub consumer_group : String
  pub message_id : ℕ
  pub tenant_id : Option String
  pub trace_id : Option String
  pub delivery_count : ℕ
  pub error_type : String
  pub error_message : DeadText
  pub payload : Fields

-- One entry of an `XPENDING` reply.
pub record Pending : Type 0 where
  pub message_id : ℕ
  pub times_delivered : ℕ
  pub idle_ms : ℕ

-- One entry of a reply that carries messages: no pair, a deleted message, or a message.
pub data RawEntry : Type 0 where
  malformed : RawEntry
  deleted : ℕ → RawEntry
  entry : ℕ → EntryFields → RawEntry

-- One stream of an `XREADGROUP` reply.
pub data RawStream : Type 0 where
  malformed_stream : RawStream
  stream_of : List RawEntry → RawStream

-- Redis, the database, the clock, the subclass's handler, `decode_event_fields` and Python's `str`.
-- A call on the world returns or raises, and leaves a new world, also when it raises. Other
-- processes may act on the world within any call.
pub record Services : Type 1 where
  pub World : Type 0
  pub monotonic : World → ℕ
  pub utc_now : World → ℕ
  pub xack : List ℕ → World → Result (Unit {0}) × World
  pub xpending_range : ℕ → World → Result (List Pending) × World
  pub xclaim : ℕ → List ℕ → World → Result (List RawEntry) × World
  pub xreadgroup : ℕ → World → Result (List RawStream) × World
  pub xrange_one : ℕ → World → Result (List (ℕ × EntryFields)) × World
  pub ensure_group : World → Result (Unit {0}) × World
  pub write_rows : List DeadLetter → World → Result (Unit {0}) × World
  pub sleep : World → World
  pub process : List StreamMessage → World → Result BatchOutcome × World
  pub decode_event_fields : EntryFields → Result Fields
  pub py_str : Json → String
