-- ===== src/Tests/Fake.antt =====
-- A world for `workers/base.py` in which Redis and the database are functions.
use agent_lens_platform.Common.{
  nat_eq, ℕ, ◌+◌, ◌≡◌, refl, Bool, true, false, List, [], ◌∷◌, map, none, contains, ◌==◌,
  if◌then◌else◌,
}
use agent_lens_platform.Common.Text.{end}
use agent_lens_platform.Worker.{
  StreamMessage, Failure, Raised, lock_conflict, other, ok, err, BatchOutcome, DeadLetter, Consumer,
  Settings, Services, entry, deleted, stream_of,
}
use agent_lens_platform.Worker.Batch.Safety.{PendingLaws, LossLaws}
use agent_lens_platform.Worker.Batch.Retries.{CountLaws}

pub record World : Type 0 where
  pub pending : ℕ → Bool
  pub recorded : ℕ → Bool
  pub calls : ℕ
  pub broken : Bool

abbrev pub boom : Failure
boom = record {
  error_type = "DeadlockDetectedError";
  error_text = "deadlock";
  error_repr = "deadlock";
}

abbrev pub message : ℕ → StreamMessage
message i = record { message_id = i; fields = ("data", "{}") ∷ []; delivery_count = 1 }

-- The handler: a deadlock on the first call, then message 1 is done and message 3 is bad.
abbrev pub outcome : BatchOutcome
outcome = record {
  ack = 1 ∷ [];
  retry = 2 ∷ [];
  dead = record { message = message 3; error_type = "SchemaError"; error_message = "bad" } ∷ [];
}

abbrev pub ids : List DeadLetter → List ℕ
ids = map (λ r. r.message_id)

abbrev pub fake : Services
fake = record {
  World = World;
  monotonic = λ w. 60_000;
  utc_now = λ w. 7;
  xack = λ is w. (ok tt, record w { pending = λ i. if contains is i then false else w.pending i });
  xpending_range = λ n w. (
    ok (
        record { message_id = 4; times_delivered = 6; idle_ms = 0 }
        ∷ record { message_id = 5; times_delivered = 2; idle_ms = 90_000 }
        ∷ record { message_id = 6; times_delivered = 1; idle_ms = 10 }
        ∷ []),
    w,
  );
  xclaim = λ idle is w.
      (ok (if contains is 5 then entry 5 (("data", "{}") ∷ []) ∷ deleted 6 ∷ [] else []), w);
  xreadgroup = λ n w. (ok (stream_of (entry 7 [] ∷ []) ∷ []), w);
  xrange_one = λ i w. (ok ((i, ("data", "{}") ∷ []) ∷ []), w);
  ensure_group = λ w. (ok tt, w);
  write_rows = λ rows w. (
    if w.broken then err (other boom) else ok tt,
    record w {
      recorded = λ i.
          if w.broken then w.recorded i else if contains (ids rows) i then true else w.recorded i;
    },
  );
  sleep = λ w. w;
  process = λ ms w. (
    if w.calls == 0 then err (lock_conflict boom) else ok outcome,
    record w { calls = w.calls + 1 },
  );
  decode_event_fields = λ fields. ok end;
  py_str = λ v. "text";
}

abbrev pub start : Bool → World
start broken = record { pending = λ i. true; recorded = λ i. false; calls = 0; broken = broken }

abbrev pub cfg : Settings
cfg = record {
  stream = "obs:events";
  group = "obs-storage";
  batch_size = 50;
  claim_interval = 15_000;
  claim_min_idle = 60_000;
  max_delivery_attempts = 5;
}

abbrev pub idle : Consumer
idle = record {
  stats = record {
    processed = 0;
    failed = 0;
    dead_lettered = 0;
    batches = 0;
    last_success_at = none;
    last_error = none;
  };
  last_claim_at = 0;
  claim_supported = true;
}

pub pending_laws : PendingLaws fake (λ w. w.pending)
pending_laws = record {
  process_keeps = λ ms w i. refl;
  sleep_keeps = λ w i. refl;
  write_keeps = λ rows w i. refl;
  xack_keeps = λ is w i h. rw h;
}

pub count_laws : CountLaws fake (λ w. w.calls)
count_laws = record { process_counts = λ ms w. refl; sleep_counts = λ w. refl }

rolled_back :
    (b c : Bool) (x y : Bool) {e : Raised}
    → (if b then err (other boom) else ok tt) ≡ err e
    → (if b then x else y) ≡ x
rolled_back true c x y h = refl
rolled_back false c x y h = cc

pub loss_laws : LossLaws fake (λ w. w.pending) (λ w. w.recorded)
loss_laws = record {
  xack_settles = λ is w i h k. rw k;
  xack_records = λ is w i. refl;
  rollback = λ rows w i h. rolled_back w.broken true (w.recorded i) _ h;
}
