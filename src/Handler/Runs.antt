-- ===== src/Handler/Runs.antt =====
-- `_start_run`, `_end_run`, `_close_trace`, `_event` and `_payload` of
-- packages/obs-sdk/src/obs_sdk/langchain.py. `sorted_keys` sorts texts, `str_chars` is the length of
-- the text of a value.
use agent_lens_platform.Common.{
  ℕ, ◌+◌, String, Bool, true, false, Option, none, some, List, [], ◌∷◌, if◌then◌else◌, string_eq,
  get_or, is_some,
}
use agent_lens_platform.Common.Text.{
  Json, bool, int, text, arr, Items, nil, cons, Fields, end, field, get, put, update_fields, truthy,
  is_text,
}
use agent_lens_platform.Event.{
  EventType, trace_start, trace_end, span_start, span_end, SpanStatus, running, Usage, ObsEvent,
}
use agent_lens_platform.Handler.{or_else, Run, TraceContext, Ambient, Config, Start}

-- `clip`'s limit on texts is applied by the hooks, before a payload gets here.
abbrev pub keys_of : Fields → List String
keys_of end = []
keys_of (field k _ d) = k ∷ keys_of d

abbrev pub texts : List String → Items
texts [] = nil
texts (s ∷ ss) = cons (text s) (texts ss)

abbrev pub chars_of : (Json → ℕ) → Fields → ℕ
chars_of str_chars end = 0
chars_of str_chars (field _ v d) = str_chars v + chars_of str_chars d

-- `metadata.get(key)` where it is true
abbrev pub if_true : Option Json → Option Json
if_true none = none
if_true (some v) = if truthy v then some v else none

abbrev pub given : String → Fields → Option Json
given key meta = if_true (get key meta)

-- a text where it is true
abbrev pub if_text : Option String → Option String
if_text none = none
if_text (some s) = if is_text s then some s else none

abbrev pub as_is {ℓ κ} : {A : Type ℓ} {B : Type κ} → (A → B) → Option A → Option B
as_is f none = none
as_is f (some a) = some (f a)

abbrev pub domain_keys : List String
domain_keys =
    "ticket_id" ∷ "agent_run_id" ∷ "organization_id" ∷ "category" ∷ "priority" ∷ "risk_level"
    ∷ "decision" ∷ "tool_scope" ∷ "approval_state" ∷ "channel" ∷ []

abbrev pub add_present : String → Option Json → Fields → Fields
add_present key none d = d
add_present key (some Json.null) d = d
add_present key (some v) d = field key v d

-- `_domain_attributes`
unfoldable pub domain_attributes : List String → Fields → Fields
domain_attributes [] meta = end
domain_attributes (key ∷ keys) meta = add_present key (get key meta) (domain_attributes keys meta)

abbrev pub in_context {ℓ} : {A : Type ℓ} → (TraceContext → A) → A → Option TraceContext → A
in_context f other none = other
in_context f other (some ctx) = f ctx

-- Python's integers that a counter holds
abbrev pub number : ℕ → Json
number = int false

module _ (sorted_keys : List String → List String) (str_chars : Json → ℕ) where
  -- `_payload`
  unfoldable pub payload_of : Config → Fields → Fields
  payload_of cfg end = end
  payload_of cfg (field k v d) =
      if cfg.capture_content
      then field k v d
      else field "__redacted_by_producer__" (bool true) (
          field "keys" (arr (texts (sorted_keys (keys_of (field k v d)))))
            (field "approx_chars" (number (chars_of str_chars (field k v d))) end))

-- The default arguments of `_event`.
pub record Details : Type 0 where
  pub span_id : Option ℕ
  pub status : SpanStatus
  pub payload_in : Fields
  pub payload_out : Fields
  pub usage : Option Usage
  pub error : Option Fields
  pub latency_ms : Option ℕ

abbrev pub no_details : Option ℕ → Details
no_details span = record {
  span_id = span;
  status = running;
  payload_in = end;
  payload_out = end;
  usage = none;
  error = none;
  latency_ms = none;
}

abbrev pub is_end_type : EventType → Bool
is_end_type trace_end = true
is_end_type span_end = true
is_end_type trace_start = false
is_end_type span_start = false

-- `_event`
unfoldable pub event_of : Config → Ambient → Run → EventType → Details → ObsEvent
event_of cfg amb run type d = record {
  schema_version = 2;
  emitted_at = amb.now;
  tenant_id = run.tenant_id;
  trace_id = run.trace_id;
  span_id = d.span_id;
  parent_span_id = if is_some d.span_id then run.parent_span_id else none;
  type = type;
  kind = run.kind;
  name = run.name;
  status = d.status;
  started_at = some run.started_at;
  ended_at = if is_end_type type then some amb.now else none;
  latency_ms = d.latency_ms;
  input = d.payload_in;
  output = d.payload_out;
  error = d.error;
  usage = d.usage;
  model = run.model;
  attributes = run.attributes;
  session_id = run.session_id;
  user_ref = run.user_ref;
  environment = cfg.environment;
  service = cfg.service;
}

module _ (id_of : Json → ℕ) where
  abbrev pub tagged : List String → Fields → Fields
  tagged [] d = d
  tagged (t ∷ tags) d = put "tags" (arr (texts (t ∷ tags))) d

  -- The run that `_start_run` builds below an open parent, and the run of a new trace.
  unfoldable pub new_run : Config → Ambient → ℕ → Start → Option Run → Run
  unfolding domain_attributes update_fields put
  new_run cfg amb rid start (some parent) = record {
    run_id = rid;
    trace_id = parent.trace_id;
    tenant_id = parent.tenant_id;
    span_id = if start.skip then none else some amb.new_span_id;
    parent_span_id = or_else parent.span_id parent.parent_span_id;
    name = start.name;
    kind = start.kind;
    started_at = amb.now;
    started_perf = amb.perf;
    is_root = false;
    session_id = parent.session_id;
    user_ref = parent.user_ref;
    attributes =
        tagged start.tags
          (update_fields parent.attributes (domain_attributes domain_keys start.metadata));
    model = start.model;
  }
  new_run cfg amb rid start none = record {
    run_id = rid;
    trace_id =
        get_or
          (or_else (as_is id_of (given "trace_id" start.metadata)) (
            or_else (as_is id_of (given "obs_trace_id" start.metadata))
              (or_else cfg.default_trace_id (in_context (λ c. some c.trace_id) none amb.context))))
          amb.new_trace_id;
    tenant_id =
        get_or
          (or_else (as_is id_of (given "tenant_id" start.metadata)) (
            or_else (as_is id_of (given "organization_id" start.metadata))
              (in_context (λ c. some c.tenant_id) none amb.context)))
          cfg.tenant_id;
    span_id = if start.skip then none else some amb.new_span_id;
    parent_span_id = amb.current_span;
    name = start.name;
    kind = start.kind;
    started_at = amb.now;
    started_perf = amb.perf;
    is_root = true;
    session_id =
        or_else (if_text start.session_id)
          (in_context (λ c. c.session_id) cfg.session_id amb.context);
    user_ref =
        or_else (if_text start.user_ref) (in_context (λ c. c.user_ref) cfg.user_ref amb.context);
    attributes = tagged start.tags (
        update_fields
          (in_context (λ c. update_fields cfg.default_attributes c.attributes)
            cfg.default_attributes amb.context)
          (domain_attributes domain_keys start.metadata));
    model = start.model;
  }
