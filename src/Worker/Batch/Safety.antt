-- ===== src/Worker/Batch/Safety.antt =====
-- Which messages a batch of packages/obs-platform/src/obs_platform/workers/base.py takes off the
-- pending list.
use agent_lens_platform.Common.{
  nat_eq, ℕ, zero, suc, ◌+◌, ◌≡◌, refl, ◌∙◌, Bool, true, false, List, [], ◌∷◌, ◌++◌, map, contains,
  arith, inl, inr, Bool-cases,
}
use agent_lens_platform.Worker.{
  StreamMessage, Raised, ok, err, DeadEntry, BatchOutcome, dead_ids, Consumer, Settings, DeadLetter,
  Services,
}
use agent_lens_platform.Worker.DeadLetters.{dead_row, dead_letter}
use agent_lens_platform.Worker.Batch.{
  Verdict, decided, gave_up, ack_ids, is_conflict, lock_conflict_retries, run_handler, record_dead,
  acknowledge, finish, process_batch,
}

-- What Redis documents of the pending list of a group: an entry that this consumer holds stays
-- until an `XACK` names it. `pending w i` is a view of the world.
pub record PendingLaws (sv : Services) (pending : sv.World → ℕ → Bool) : Type 0 where
  pub process_keeps :
      (ms : List StreamMessage) (w : sv.World) (i : ℕ) → pending (sv.process ms w).1 i ≡ pending w i
  pub sleep_keeps : (w : sv.World) (i : ℕ) → pending (sv.sleep w) i ≡ pending w i
  pub write_keeps :
      (rows : List DeadLetter) (w : sv.World) (i : ℕ)
      → pending (sv.write_rows rows w).1 i ≡ pending w i
  pub xack_keeps :
      (ids : List ℕ) (w : sv.World) (i : ℕ)
      → contains ids i ≡ false
      → pending (sv.xack ids w).1 i ≡ pending w i

-- The handler's verdict on a batch, its retries included.
abbrev pub verdict_of : (sv : Services) → Settings → List StreamMessage → sv.World → Verdict
verdict_of sv cfg ms w = (run_handler sv cfg lock_conflict_retries ms w).0

module _ (sv : Services) (cfg : Settings) (pending : sv.World → ℕ → Bool)
    (laws : PendingLaws sv pending) where
  run_handler-pending :
      (left : ℕ) (ms : List StreamMessage) (w : sv.World) (i : ℕ)
      → pending (run_handler sv cfg left ms w).1 i ≡ pending w i
  unfolding run_handler
  run_handler-pending zero ms w i = laws.process_keeps ms w i
  run_handler-pending (suc left) ms w i = elim (Bool-cases (is_conflict (sv.process ms w).0)) [
    | inl h ↦
        rw (h, run_handler)
          (run_handler-pending left ms (sv.sleep (sv.process ms w).1) i
            ∙ laws.sleep_keeps (sv.process ms w).1 i
            ∙ laws.process_keeps ms w i)
    | inr h ↦ rw (h, run_handler) (laws.process_keeps ms w i)
  ]

  record_dead-pending :
      (ds : List DeadEntry) (s : Consumer × sv.World) (i : ℕ)
      → pending (record_dead sv cfg ds s).1 i ≡ pending s.1 i
  unfolding dead_letter
  record_dead-pending [] s i = refl
  record_dead-pending (d ∷ ds) (c, w) i = laws.write_keeps (map (dead_row sv cfg) (d ∷ ds)) w i

  acknowledge-pending :
      (ids : List ℕ) (w : sv.World) (i : ℕ)
      → contains ids i ≡ false
      → pending (acknowledge sv cfg ids w) i ≡ pending w i
  acknowledge-pending [] w i h = refl
  acknowledge-pending (j ∷ ids) w i h = laws.xack_keeps (j ∷ ids) w i h

  finish-pending :
      (ms : List StreamMessage) (v : Verdict) (s : Consumer × sv.World) (i : ℕ)
      → contains (ack_ids v) i ≡ false
      → pending (finish sv cfg ms v s).1 i ≡ pending s.1 i
  unfolding finish
  finish-pending ms (gave_up f) (c, w) i h = laws.sleep_keeps w i
  finish-pending ms (decided o) s i h =
      acknowledge-pending (ack_ids (decided o)) (record_dead sv cfg o.dead s).1 i h
      ∙ record_dead-pending o.dead s i

  -- Where only an `XACK` takes an entry off the pending list, a batch leaves every message pending
  -- that the handler's final verdict neither acks nor dead-letters; a batch that failed for a
  -- transient reason leaves all of them.
  pub process_batch_keeps_pending :
      (ms : List StreamMessage) (c : Consumer) (w : sv.World) (i : ℕ)
      → contains (ack_ids (verdict_of sv cfg ms w)) i ≡ false
      → pending (process_batch sv cfg ms (c, w)).1 i ≡ pending w i
  unfolding process_batch
  process_batch_keeps_pending ms c w i h =
      finish-pending ms (verdict_of sv cfg ms w)
        (
          record c { stats = record c.stats { batches = c.stats.batches + 1 } },
          (run_handler sv cfg lock_conflict_retries ms w).1,
        )
        i h
      ∙ run_handler-pending lock_conflict_retries ms w i

-- What an `XACK` that returns and a rolled back transaction do, by their documentation.
-- `recorded w i`: the `dead_letters` table has a row of message `i`.
pub record LossLaws (sv : Services) (pending recorded : sv.World → ℕ → Bool) : Type 0 where
  pub xack_settles :
      (ids : List ℕ) (w : sv.World) (i : ℕ)
      → (sv.xack ids w).0 ≡ ok tt
      → contains ids i ≡ true
      → pending (sv.xack ids w).1 i ≡ false
  pub xack_records :
      (ids : List ℕ) (w : sv.World) (i : ℕ) → recorded (sv.xack ids w).1 i ≡ recorded w i
  pub rollback :
      (rows : List DeadLetter) (w : sv.World) (i : ℕ) {e : Raised}
      → (sv.write_rows rows w).0 ≡ err e
      → recorded (sv.write_rows rows w).1 i ≡ recorded w i

contains_append_right :
    (xs ys : List ℕ) (i : ℕ) → contains ys i ≡ true → contains (xs ++ ys) i ≡ true
contains_append_right [] ys i h = h
contains_append_right (x ∷ xs) ys i h = ground (arith, contains_append_right xs ys i h)

module _ (sv : Services) (cfg : Settings) (pending recorded : sv.World → ℕ → Bool)
    (laws : LossLaws sv pending recorded) where
  acknowledge-settles :
      (ids : List ℕ) (w : sv.World) (i : ℕ)
      → (sv.xack ids w).0 ≡ ok tt
      → contains ids i ≡ true
      → (pending (acknowledge sv cfg ids w) i ≡ false)
        × (recorded (acknowledge sv cfg ids w) i ≡ recorded w i)
  acknowledge-settles [] w i h k = cc
  acknowledge-settles (j ∷ ids) w i h k =
      (laws.xack_settles (j ∷ ids) w i h k, laws.xack_records (j ∷ ids) w i)

  record_dead-world :
      (ds : List DeadEntry) (c : Consumer) (w : sv.World) (i : ℕ)
      → contains (dead_ids ds) i ≡ true
      → (record_dead sv cfg ds (c, w)).1 ≡ (sv.write_rows (map (dead_row sv cfg) ds) w).1
  unfolding dead_letter
  record_dead-world [] c w i h = cc
  record_dead-world (d ∷ ds) c w i h = refl

  finish-loses :
      (ms : List StreamMessage) (o : BatchOutcome) (c : Consumer) (w : sv.World) (i : ℕ)
      {e : Raised}
      → let written = sv.write_rows (map (dead_row sv cfg) o.dead) w in
        written.0 ≡ err e
        → (sv.xack (o.ack ++ dead_ids o.dead) written.1).0 ≡ ok tt
        → contains (dead_ids o.dead) i ≡ true
        → (pending (finish sv cfg ms (decided o) (c, w)).1 i ≡ false)
          × (recorded (finish sv cfg ms (decided o) (c, w)).1 i ≡ recorded w i)
  unfolding finish
  finish-loses ms o c w i failed acked dead = rw (record_dead-world o.dead c w i dead) (
    (acknowledge-settles _ _ i acked (contains_append_right o.ack (dead_ids o.dead) i dead)).0,
    (acknowledge-settles _ _ i acked (contains_append_right o.ack (dead_ids o.dead) i dead)).1
        ∙ laws.rollback _ w i failed,
  )

  -- A message that the handler dead-letters is lost when the write of its dead letter raises and
  -- the `XACK` after it returns: it is pending no more, and the table has no new row of it.
  pub dead_letter_lost :
      (ms : List StreamMessage) (o : BatchOutcome) (c : Consumer) (w w' : sv.World) (i : ℕ)
      {e : Raised}
      → let written = sv.write_rows (map (dead_row sv cfg) o.dead) w' in
        run_handler sv cfg lock_conflict_retries ms w ≡ (decided o, w')
        → written.0 ≡ err e
        → (sv.xack (o.ack ++ dead_ids o.dead) written.1).0 ≡ ok tt
        → contains (dead_ids o.dead) i ≡ true
        → (pending (process_batch sv cfg ms (c, w)).1 i ≡ false)
          × (recorded (process_batch sv cfg ms (c, w)).1 i ≡ recorded w' i)
  unfolding process_batch
  dead_letter_lost ms o c w w' i ran failed acked dead =
      rw (ran, process_batch) (finish-loses ms o _ w' i failed acked dead)
