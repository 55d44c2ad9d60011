-- ===== src/Publisher/Steps/Interleaved.antt =====
-- The invariant of packages/obs-sdk/src/obs_sdk/publisher.py, in every interleaving.
use mathlib.Core.Path.{subst}
use mathlib.Core.List.{append_assoc}
use agent_lens_platform.Common.{
  ℕ, suc, ◌+◌, ◌<◌, ◌≡◌, refl, ap, sym, ◌∙◌, String, List, [], ◌∷◌, ◌++◌, inl, inr, arith,
  Bool-cases, length, length-append,
}
use agent_lens_platform.Publisher.{
  Config, Phase, draining, connecting, refused, unconnected, sending, delivered, stamping, failed,
  noting, clearing_sent, clearing_unsent, clearing_failed, closing, backing_off, Publisher, is_full,
  put_nowait, put_raised, count_queued, count_full, count_error, note_error, get_one, begin_send,
  reuse_client, connected, connect_failed, note_refused, executed, execute_raised, count_published,
  stamp, count_dropped, note_failed, clear_sent, clear_unsent, drop_client, back_off,
}
use agent_lens_platform.Publisher.Steps.{
  Step, put, raised_other, counted_queued, counted_full, counted_error, noted_error, got, began,
  reused_client, has_connected, is_refused, noted_refused, dropped_unsent, cleared_unsent,
  has_executed, has_raised, counted_published, stamped, cleared_sent, dropped_failed, noted_failed,
  cleared_failed, closed_client, backed_off, Reach, begun, moved, Sound, IsSound,
}

never_clean : (n : ℕ) → n + 1 ≡ 0 → ⊥
never_clean n h = omega arith

module _ {Event : Type 0} (cfg : Config) where
  put_nowait-IsSound :
      (event : Event) (s : Publisher Event) → IsSound cfg s → IsSound cfg (put_nowait cfg event s)
  unfolding put_nowait
  put_nowait-IsSound event s h = elim (Bool-cases (is_full cfg s.queue)) [
    | inl full ↦ rw full (record {
      counted = h.counted;
      batch_fits = h.batch_fits;
      queue_fits = h.queue_fits;
      flies = h.flies;
      in_order = h.in_order;
    })
    | inr free ↦ rw free (record {
      counted = omega (arith, h.counted, length-append s.queue (event ∷ []));
      batch_fits = h.batch_fits;
      queue_fits = ground (arith, length-append s.queue (event ∷ []));
      flies = h.flies;
      in_order = λ clean. rw (h.in_order clean) (simp append_assoc);
    })
  ]

  get_one-IsSound :
      (event : Event) (queue : List Event) (s : Publisher Event)
      → length s.batch < cfg.batch_size
      → s.queue ≡ event ∷ queue
      → Sound cfg draining s
      → Sound cfg draining (get_one event queue s)
  unfolding get_one
  get_one-IsSound event queue s lt q h =
      let shorter : length s.queue ≡ suc (length queue) = ap length q in
      record {
        counted = omega (arith, h.counted, length-append s.batch (event ∷ []));
        batch_fits = omega (arith, length-append s.batch (event ∷ []));
        queue_fits = ground (arith, h.queue_fits);
        flies = h.flies;
        in_order = λ clean. h.in_order clean ∙ rw q (simp append_assoc);
      }

  -- A batch that is dropped without a count is empty.
  dropped_in_order :
      (n : ℕ) (batch accepted written queue : List Event)
      → (n ≡ 0 → accepted ≡ written ++ (batch ++ queue))
      → n + length batch ≡ 0
      → accepted ≡ written ++ queue
  dropped_in_order n [] accepted written queue h clean = h (omega arith)
  dropped_in_order n (_ ∷ batch) accepted written queue h clean = absurd (omega arith)

  -- A step of a call of `publish` that leaves the queue alone.
  put_raised-IsSound : (s : Publisher Event) → IsSound cfg s → IsSound cfg (put_raised s)
  unfolding put_raised
  put_raised-IsSound s h = record {
    counted = omega (arith, h.counted);
    batch_fits = h.batch_fits;
    queue_fits = h.queue_fits;
    flies = h.flies;
    in_order = h.in_order;
  }

  count_queued-IsSound :
      (s : Publisher Event) → 0 < s.callers.taken → IsSound cfg s → IsSound cfg (count_queued s)
  unfolding count_queued
  count_queued-IsSound s some_taken h = record {
    counted = omega (arith, h.counted);
    batch_fits = h.batch_fits;
    queue_fits = h.queue_fits;
    flies = h.flies;
    in_order = h.in_order;
  }

  count_full-IsSound : (s : Publisher Event) → IsSound cfg s → IsSound cfg (count_full s)
  unfolding count_full
  count_full-IsSound s h = record {
    counted = omega (arith, h.counted);
    batch_fits = h.batch_fits;
    queue_fits = h.queue_fits;
    flies = h.flies;
    in_order = h.in_order;
  }

  count_error-IsSound : (s : Publisher Event) → IsSound cfg s → IsSound cfg (count_error s)
  unfolding count_error
  count_error-IsSound s h = record {
    counted = omega (arith, h.counted);
    batch_fits = h.batch_fits;
    queue_fits = h.queue_fits;
    flies = h.flies;
    in_order = λ clean. absurd (never_clean s.stats.dropped_error clean);
  }

  note_error-IsSound :
      (error : String) (s : Publisher Event) → IsSound cfg s → IsSound cfg (note_error error s)
  unfolding note_error
  note_error-IsSound error s h = record {
    counted = omega (arith, h.counted);
    batch_fits = h.batch_fits;
    queue_fits = h.queue_fits;
    flies = h.flies;
    in_order = h.in_order;
  }

  began-IsSound : (s : Publisher Event) → Sound cfg draining s → Sound cfg connecting (begin_send s)
  unfolding begin_send
  began-IsSound s h = record {
    counted = omega (arith, h.counted);
    batch_fits = h.batch_fits;
    queue_fits = h.queue_fits;
    flies = refl;
    in_order = h.in_order;
  }

  reused_client-IsSound :
      (s : Publisher Event) → Sound cfg connecting s → Sound cfg sending (reuse_client s)
  unfolding reuse_client
  reused_client-IsSound s h = record {
    counted = omega (arith, h.counted);
    batch_fits = h.batch_fits;
    queue_fits = h.queue_fits;
    flies = h.flies;
    in_order = h.in_order;
  }

  has_connected-IsSound :
      (s : Publisher Event) → Sound cfg connecting s → Sound cfg sending (connected s)
  unfolding connected
  has_connected-IsSound s h = record {
    counted = omega (arith, h.counted);
    batch_fits = h.batch_fits;
    queue_fits = h.queue_fits;
    flies = h.flies;
    in_order = h.in_order;
  }

  is_refused-IsSound :
      (s : Publisher Event) → Sound cfg connecting s → Sound cfg refused (connect_failed s)
  unfolding connect_failed
  is_refused-IsSound s h = record {
    counted = omega (arith, h.counted);
    batch_fits = h.batch_fits;
    queue_fits = h.queue_fits;
    flies = h.flies;
    in_order = h.in_order;
  }

  noted_refused-IsSound :
      (error : String) (s : Publisher Event)
      → Sound cfg refused s
      → Sound cfg unconnected (note_refused error s)
  unfolding note_refused
  noted_refused-IsSound error s h = record {
    counted = omega (arith, h.counted);
    batch_fits = h.batch_fits;
    queue_fits = h.queue_fits;
    flies = h.flies;
    in_order = h.in_order;
  }

  dropped_unsent-IsSound :
      (s : Publisher Event)
      → Sound cfg unconnected s
      → Sound cfg clearing_unsent (count_dropped clearing_unsent s)
  unfolding count_dropped
  dropped_unsent-IsSound s h = record {
    counted = omega (arith, h.counted);
    batch_fits = h.batch_fits;
    queue_fits = h.queue_fits;
    flies = h.flies;
    in_order =
        dropped_in_order s.stats.dropped_error s.batch s.accepted s.written s.queue h.in_order;
  }

  cleared_unsent-IsSound :
      (s : Publisher Event)
      → Sound cfg clearing_unsent s
      → Sound cfg backing_off (clear_unsent backing_off s)
  unfolding clear_unsent
  cleared_unsent-IsSound s h = record {
    counted = omega (arith, h.counted);
    batch_fits = h.batch_fits;
    queue_fits = h.queue_fits;
    flies = refl;
    in_order = h.in_order;
  }

  has_executed-IsSound :
      (s : Publisher Event) → Sound cfg sending s → Sound cfg delivered (executed s)
  unfolding executed
  has_executed-IsSound s h = record {
    counted = omega (arith, h.counted);
    batch_fits = h.batch_fits;
    queue_fits = h.queue_fits;
    flies = h.flies;
    in_order = λ clean. h.in_order clean ∙ simp append_assoc;
  }

  has_raised-IsSound :
      (s : Publisher Event) → Sound cfg sending s → Sound cfg failed (execute_raised s)
  unfolding execute_raised
  has_raised-IsSound s h = record {
    counted = omega (arith, h.counted);
    batch_fits = h.batch_fits;
    queue_fits = h.queue_fits;
    flies = h.flies;
    in_order = h.in_order;
  }

  counted_published-IsSound :
      (s : Publisher Event) → Sound cfg delivered s → Sound cfg stamping (count_published s)
  unfolding count_published
  counted_published-IsSound s h = record {
    counted = omega (arith, h.counted);
    batch_fits = h.batch_fits;
    queue_fits = h.queue_fits;
    flies = h.flies;
    in_order = h.in_order;
  }

  stamped-IsSound :
      (now : ℕ) (s : Publisher Event) → Sound cfg stamping s → Sound cfg clearing_sent (stamp now s)
  unfolding stamp
  stamped-IsSound now s h = record {
    counted = omega (arith, h.counted);
    batch_fits = h.batch_fits;
    queue_fits = h.queue_fits;
    flies = h.flies;
    in_order = h.in_order;
  }

  cleared_sent-IsSound :
      (s : Publisher Event) → Sound cfg clearing_sent s → Sound cfg draining (clear_sent s)
  unfolding clear_sent
  cleared_sent-IsSound s h = record {
    counted = omega (arith, h.counted);
    batch_fits = omega arith;
    queue_fits = h.queue_fits;
    flies = refl;
    in_order = h.in_order;
  }

  dropped_failed-IsSound :
      (s : Publisher Event) → Sound cfg failed s → Sound cfg noting (count_dropped noting s)
  unfolding count_dropped
  dropped_failed-IsSound s h = record {
    counted = omega (arith, h.counted);
    batch_fits = h.batch_fits;
    queue_fits = h.queue_fits;
    flies = h.flies;
    in_order =
        dropped_in_order s.stats.dropped_error s.batch s.accepted s.written s.queue h.in_order;
  }

  noted_failed-IsSound :
      (error : String) (s : Publisher Event)
      → Sound cfg noting s
      → Sound cfg clearing_failed (note_failed error s)
  unfolding note_failed
  noted_failed-IsSound error s h = record {
    counted = omega (arith, h.counted);
    batch_fits = h.batch_fits;
    queue_fits = h.queue_fits;
    flies = h.flies;
    in_order = h.in_order;
  }

  cleared_failed-IsSound :
      (s : Publisher Event)
      → Sound cfg clearing_failed s
      → Sound cfg closing (clear_unsent closing s)
  unfolding clear_unsent
  cleared_failed-IsSound s h = record {
    counted = omega (arith, h.counted);
    batch_fits = h.batch_fits;
    queue_fits = h.queue_fits;
    flies = refl;
    in_order = h.in_order;
  }

  closed_client-IsSound :
      (s : Publisher Event) → Sound cfg closing s → Sound cfg backing_off (drop_client s)
  unfolding drop_client
  closed_client-IsSound s h = record {
    counted = omega (arith, h.counted);
    batch_fits = h.batch_fits;
    queue_fits = h.queue_fits;
    flies = h.flies;
    in_order = h.in_order;
  }

  backed_off-IsSound :
      (s : Publisher Event) → Sound cfg backing_off s → Sound cfg draining (back_off cfg s)
  unfolding back_off
  backed_off-IsSound s h = record {
    counted = omega (arith, h.counted);
    batch_fits = omega arith;
    queue_fits = h.queue_fits;
    flies = h.flies;
    in_order = h.in_order;
  }

  -- What holds at the phase where the thread stands.
  at_phase : (ph : Phase) (s : Publisher Event) → s.phase ≡ ph → IsSound cfg s → Sound cfg ph s
  at_phase ph s p h = subst (λ q. Sound cfg q s) p h

  Step-IsSound : (s s' : Publisher Event) → Step cfg s s' → IsSound cfg s → IsSound cfg s'
  unfolding put_nowait put_raised count_queued count_full count_error note_error get_one begin_send
      reuse_client connected connect_failed note_refused executed execute_raised count_published
      stamp count_dropped note_failed clear_sent clear_unsent drop_client back_off
  Step-IsSound s _ (put event _) h = put_nowait-IsSound event s h
  Step-IsSound s _ (raised_other _) h = put_raised-IsSound s h
  Step-IsSound s _ (counted_queued _ some_taken) h = count_queued-IsSound s some_taken h
  Step-IsSound s _ (counted_full _ g) h = count_full-IsSound s h
  Step-IsSound s _ (counted_error _ g) h = count_error-IsSound s h
  Step-IsSound s _ (noted_error error _ g) h = note_error-IsSound error s h
  Step-IsSound s _ (got event queue _ p lt q) h =
      subst (λ ph. Sound cfg ph (get_one event queue s)) (sym p)
        (get_one-IsSound event queue s lt q (at_phase draining s p h))
  Step-IsSound s _ (began _ p g) h = began-IsSound s (at_phase draining s p h)
  Step-IsSound s _ (reused_client _ p g) h = reused_client-IsSound s (at_phase connecting s p h)
  Step-IsSound s _ (has_connected _ p g) h = has_connected-IsSound s (at_phase connecting s p h)
  Step-IsSound s _ (is_refused _ p g) h = is_refused-IsSound s (at_phase connecting s p h)
  Step-IsSound s _ (noted_refused error _ p) h =
      noted_refused-IsSound error s (at_phase refused s p h)
  Step-IsSound s _ (dropped_unsent _ p) h = dropped_unsent-IsSound s (at_phase unconnected s p h)
  Step-IsSound s _ (cleared_unsent _ p) h =
      cleared_unsent-IsSound s (at_phase clearing_unsent s p h)
  Step-IsSound s _ (has_executed _ p) h = has_executed-IsSound s (at_phase sending s p h)
  Step-IsSound s _ (has_raised _ p) h = has_raised-IsSound s (at_phase sending s p h)
  Step-IsSound s _ (counted_published _ p) h =
      counted_published-IsSound s (at_phase delivered s p h)
  Step-IsSound s _ (stamped now _ p) h = stamped-IsSound now s (at_phase stamping s p h)
  Step-IsSound s _ (cleared_sent _ p) h = cleared_sent-IsSound s (at_phase clearing_sent s p h)
  Step-IsSound s _ (dropped_failed _ p) h = dropped_failed-IsSound s (at_phase failed s p h)
  Step-IsSound s _ (noted_failed error _ p) h = noted_failed-IsSound error s (at_phase noting s p h)
  Step-IsSound s _ (cleared_failed _ p) h =
      cleared_failed-IsSound s (at_phase clearing_failed s p h)
  Step-IsSound s _ (closed_client _ p) h = closed_client-IsSound s (at_phase closing s p h)
  Step-IsSound s _ (backed_off _ p) h = backed_off-IsSound s (at_phase backing_off s p h)

  -- However calls of `publish` and the drain thread interleave: every event that the queue took is still
  -- queued, waits in the thread's hands to be counted, or is counted as published or dropped, where
  -- `queued` lags behind by the calls that have not counted their event yet, and `dropped_error` is ahead by
  -- the other exceptions of `publish`; the queue and the batch keep their bounds; `_in_flight` is the length
  -- of the batch from the line that sets it to the one that clears it; and as long as `dropped_error` is
  -- zero, the events that Redis confirmed, followed by the rest of the batch and the queue, are those that
  -- the queue took, in their order.
  pub Reach-IsSound : (s : Publisher Event) → Reach cfg s → IsSound cfg s
  Reach-IsSound _ (begun has_client) = record {
    counted = refl;
    batch_fits = omega arith;
    queue_fits = inr (omega arith);
    flies = refl;
    in_order = λ _. refl;
  }
  Reach-IsSound _ (moved s s' r step) = Step-IsSound s s' step (Reach-IsSound s r)
