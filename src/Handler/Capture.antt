-- ===== src/Handler/Capture.antt =====
-- What a payload leaves in the events of packages/obs-sdk/src/obs_sdk/langchain.py where
-- `capture_content` is off.
use agent_lens_platform.Common.{
  ℕ, ◌≡◌, refl, ap, ◌∙◌, String, Bool, false, Option, none, some, List, [], ◌∷◌, map, All,
  if◌then◌else◌, is_some,
}
use agent_lens_platform.Common.Text.{Json, Fields, end, field}
use agent_lens_platform.Event.{span_end}
use agent_lens_platform.Handler.{
  Config, Ambient, Handler, Start, Finish, find_run, register, Run, TraceAgg, find_trace,
}
use agent_lens_platform.Handler.Runs.{payload_of, keys_of, chars_of, new_run, event_of, no_details}
use agent_lens_platform.Handler.Bookkeeping.{
  start_run, end_run, start_keyed, end_keyed, end_found, finish_run, parent_of, announce,
  count_span, open_trace, close_found, close_trace, with_trace, ended, elapsed, publish,
  agent_action, agent_finish,
}

-- A call of `_start_run` or of `_end_run`, or a hook of an agent.
pub data Hook : Type 0 where
  starting : Ambient → Start → Hook
  ending : Ambient → Finish → Hook
  acting : Option ℕ → String → Hook
  agent_finishing : Option ℕ → Option Fields → Hook

abbrev pub payload : Hook → Fields
payload (starting amb start) = start.payload
payload (ending amb finish) = finish.payload
payload (acting i tool_name) = end
payload (agent_finishing i values) = end

abbrev pub with_payload : Fields → Hook → Hook
with_payload q (starting amb start) = starting amb (record start { payload = q })
with_payload q (ending amb finish) = ending amb (record finish { payload = q })
with_payload q (acting i tool_name) = acting i tool_name
with_payload q (agent_finishing i values) = agent_finishing i values

close_found-alike :
    (cfg : Config) (amb : Ambient) (finish : Finish) (q : Fields) (latency i : ℕ)
    (o : Option TraceAgg) (s : Handler)
    → close_found cfg amb finish latency i o s
      ≡ close_found cfg amb (record finish { payload = q }) latency i o s
close_found-alike cfg amb finish q latency i none s = refl
close_found-alike cfg amb finish q latency i (some agg) s = refl

close_trace-alike :
    (cfg : Config) (amb : Ambient) (run : Run) (finish : Finish) (q : Fields) (latency : ℕ)
    (s : Handler)
    → close_trace cfg amb run finish latency s
      ≡ close_trace cfg amb run (record finish { payload = q }) latency s
unfolding close_trace
close_trace-alike cfg amb run finish q latency s =
    close_found-alike cfg amb finish q latency run.trace_id (find_trace run.trace_id s.traces) s

module _ (sorted_keys : List String → List String) (str_chars : Json → ℕ) where
  payload_of-alike :
      (cfg : Config) (p q : Fields)
      → cfg.capture_content ≡ false
      → keys_of p ≡ keys_of q
      → chars_of str_chars p ≡ chars_of str_chars q
      → payload_of sorted_keys str_chars cfg p ≡ payload_of sorted_keys str_chars cfg q
  unfolding payload_of
  payload_of-alike cfg end end off keys chars = refl
  payload_of-alike cfg end (field k v d) off keys chars = cc
  payload_of-alike cfg (field k v d) end off keys chars = cc
  payload_of-alike cfg (field k v d) (field j w e) off keys chars = rw (off, keys, chars) refl

  -- `_end_run` before the trace closes, from the payload as it is captured.
  abbrev span_closed : Config → Ambient → Finish → Run → Handler → Fields → Handler
  span_closed cfg amb finish run s output =
      let s1 =
        with_trace run.trace_id (ended finish run.model output) (find_trace run.trace_id s.traces)
          s in
      let details = record (no_details run.span_id) {
        status = finish.status;
        payload_out = output;
        usage = finish.usage;
        error = finish.error;
        latency_ms = some (elapsed amb run);
      } in
      if is_some run.span_id then publish (event_of cfg amb run span_end details) s1 else s1

  finish_run-alike :
      (cfg : Config) (amb : Ambient) (finish : Finish) (q : Fields) (run : Run) (s : Handler)
      → payload_of sorted_keys str_chars cfg finish.payload ≡ payload_of sorted_keys str_chars cfg q
      → finish_run sorted_keys str_chars cfg amb finish run s
        ≡ finish_run sorted_keys str_chars cfg amb (record finish { payload = q }) run s
  unfolding finish_run
  finish_run-alike cfg amb finish q run s same =
      let after : Handler =
        span_closed cfg amb finish run s (payload_of sorted_keys str_chars cfg q) in
      ap
        (λ output.
          if run.is_root
          then close_trace cfg amb run finish (elapsed amb run)
              (span_closed cfg amb finish run s output)
          else span_closed cfg amb finish run s output)
        same
      ∙ ap (λ closed. if run.is_root then closed else after)
          (close_trace-alike cfg amb run finish q (elapsed amb run) after)

  end_found-alike :
      (cfg : Config) (amb : Ambient) (finish : Finish) (q : Fields) (i : ℕ) (o : Option Run)
      (s : Handler)
      → payload_of sorted_keys str_chars cfg finish.payload ≡ payload_of sorted_keys str_chars cfg q
      → end_found sorted_keys str_chars cfg amb finish i o s
        ≡ end_found sorted_keys str_chars cfg amb (record finish { payload = q }) i o s
  end_found-alike cfg amb finish q i none s same = refl
  end_found-alike cfg amb finish q i (some run) s same = finish_run-alike cfg amb finish q _ _ same

  end_keyed-alike :
      (cfg : Config) (amb : Ambient) (finish : Finish) (q : Fields) (o : Option ℕ) (s : Handler)
      → payload_of sorted_keys str_chars cfg finish.payload ≡ payload_of sorted_keys str_chars cfg q
      → end_keyed sorted_keys str_chars cfg amb finish o s
        ≡ end_keyed sorted_keys str_chars cfg amb (record finish { payload = q }) o s
  end_keyed-alike cfg amb finish q none s same = refl
  end_keyed-alike cfg amb finish q (some i) s same =
      end_found-alike cfg amb finish q i (find_run i s.runs) s same

module _ (id_of : Json → ℕ) where
  new_run-alike :
      (cfg : Config) (amb : Ambient) (rid : ℕ) (start : Start) (q : Fields) (parent : Option Run)
      → new_run id_of cfg amb rid start parent
        ≡ new_run id_of cfg amb rid (record start { payload = q }) parent
  unfolding new_run
  new_run-alike cfg amb rid start q none = refl
  new_run-alike cfg amb rid start q (some parent) = refl

  module _ (sorted_keys : List String → List String) (str_chars : Json → ℕ) where
    -- `_start_run` after the run and the payload are taken from its arguments.
    abbrev began : Config → Ambient → Bool → Handler → Run → Fields → Handler
    began cfg amb skip s run input = announce sorted_keys str_chars cfg amb run input skip (
        count_span run (
          open_trace sorted_keys str_chars cfg amb run input
            (record s { runs = register cfg.max_tracked_runs run s.runs })))

    start_keyed-alike :
        (cfg : Config) (amb : Ambient) (start : Start) (q : Fields) (o : Option ℕ) (s : Handler)
        → payload_of sorted_keys str_chars cfg start.payload
          ≡ payload_of sorted_keys str_chars cfg q
        → start_keyed sorted_keys str_chars id_of cfg amb start o s
          ≡ start_keyed sorted_keys str_chars id_of cfg amb (record start { payload = q }) o s
    start_keyed-alike cfg amb start q none s same = refl
    start_keyed-alike cfg amb start q (some rid) s same =
        let parent = parent_of sorted_keys str_chars id_of start.parent_run_id s.runs in
        ap
          (λ run.
            began cfg amb start.skip s run (payload_of sorted_keys str_chars cfg start.payload))
          (new_run-alike cfg amb rid start q parent)
        ∙ ap
            (began cfg amb start.skip s
              (new_run id_of cfg amb rid (record start { payload = q }) parent))
            same

    -- The hooks in their order.
    abbrev pub run_hook : Config → Hook → Handler → Handler
    run_hook cfg (starting amb start) s = start_run sorted_keys str_chars id_of cfg amb start s
    run_hook cfg (ending amb finish) s = end_run sorted_keys str_chars cfg amb finish s
    run_hook cfg (acting i tool_name) s = agent_action i tool_name s
    run_hook cfg (agent_finishing i values) s = agent_finish i values s

    abbrev pub run_hooks : Config → List Hook → Handler → Handler
    run_hooks cfg [] s = s
    run_hooks cfg (h ∷ hs) s = run_hooks cfg hs (run_hook cfg h s)

    -- A hook and a payload with the same keys and as many characters.
    abbrev pub Alike : Hook × Fields → Type 0
    Alike (h, q) =
        (keys_of (payload h) ≡ keys_of q) × (chars_of str_chars (payload h) ≡ chars_of str_chars q)

    abbrev pub swapped : Hook × Fields → Hook
    swapped (h, q) = with_payload q h

    run_hook-alike :
        (cfg : Config) (h : Hook) (q : Fields) (s : Handler)
        → payload_of sorted_keys str_chars cfg (payload h) ≡ payload_of sorted_keys str_chars cfg q
        → run_hook cfg h s ≡ run_hook cfg (with_payload q h) s
    unfolding start_run end_run
    run_hook-alike cfg (starting amb start) q s same =
        start_keyed-alike cfg amb start q start.run_id s same
    run_hook-alike cfg (ending amb finish) q s same =
        end_keyed-alike sorted_keys str_chars cfg amb finish q finish.run_id s same
    run_hook-alike cfg (acting i tool_name) q s same = refl
    run_hook-alike cfg (agent_finishing i values) q s same = refl

    -- With `capture_content` off, hooks whose payloads differ in their values only (the same keys in the
    -- same order, as many characters in all) leave the same handler: the same runs, totals and events. The
    -- payloads are those of the starts and the ends of runs; what the hooks of an agent store is the same
    -- on both sides.
    pub run_hooks-Alike :
        (cfg : Config) (hooks : List (Hook × Fields)) (s : Handler)
        → cfg.capture_content ≡ false
        → All Alike hooks
        → run_hooks cfg (map (λ p. p.0) hooks) s ≡ run_hooks cfg (map swapped hooks) s
    run_hooks-Alike cfg [] s off alike = refl
    run_hooks-Alike cfg ((h, q) ∷ hooks) s off alike =
        run_hooks-Alike cfg hooks (run_hook cfg h s) off alike.1
        ∙ ap (run_hooks cfg (map swapped hooks)) (
            run_hook-alike cfg h q s
              (payload_of-alike sorted_keys str_chars cfg (payload h) q off alike.0.0 alike.0.1))
