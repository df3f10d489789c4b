-- ===== src/Gateway/Webhook/Payload.antt =====
-- The payloads of the webhook (gateway/aperture_webhook.go): Aperture's hook format, an array of
-- simple events, or one simple event.
use remote_juggler.Prelude.{ℕ, Option, none, some, List, [], ◌∷◌, keep, not, map, if◌then◌else◌}
use remote_juggler.Prelude.Int.{ℤ, pos}
use remote_juggler.Text.{Text, lit, is_empty}

pub record ApertureEvent : Type 0 where
  pub type : Text
  pub timestamp : ℕ
  pub agent : Text
  pub campaign_id : Text
  pub model : Text
  pub provider : Text
  pub tokens : ℤ
  pub input_tokens : ℤ
  pub output_tokens : ℤ
  pub duration_ms : ℤ
  pub error : Text
  pub tool_names : List Text
  pub request_id : Text
  pub session_id : Text
  pub raw : Text

-- The fields of the hook format that are read; the tool calls by their names.
pub record HookPayload : Type 0 where
  pub login_name : Text
  pub model : Text
  pub provider : Text
  pub request_id : Text
  pub session_id : Text
  pub tool_calls : List Text
  pub response_body : Text

-- The decodings of encoding/json into each of the formats; `none` is an error. The usage of a
-- response body is its input and its output tokens.
pub record Decoders : Type 0 where
  pub hook : Text → Option HookPayload
  pub usage : Text → Option (ℤ × ℤ)
  pub array : Text → Option (List ApertureEvent)
  pub single : Text → Option ApertureEvent

abbrev with_usage : Option (ℤ × ℤ) → ApertureEvent → ApertureEvent
with_usage none e = e
with_usage (some (input, output)) e = record e { input_tokens = input; output_tokens = output }

-- The event of a hook payload whose model is not empty.
unfoldable pub hook_event : Decoders → Text → HookPayload → ApertureEvent
unfolding lit
hook_event d body p =
    let e : ApertureEvent = record {
      type = lit "llm_call";
      timestamp = 0;
      agent = p.login_name;
      campaign_id = [];
      model = p.model;
      provider = p.provider;
      tokens = pos 0;
      input_tokens = pos 0;
      output_tokens = pos 0;
      duration_ms = pos 0;
      error = [];
      tool_names = keep (λ name. not (is_empty name)) p.tool_calls;
      request_id = p.request_id;
      session_id = p.session_id;
      raw = body;
    } in
    if is_empty p.response_body then e else with_usage (d.usage p.response_body) e

-- `tryApertureHook`
unfoldable pub try_aperture_hook : Decoders → Text → Option ApertureEvent
unfolding hook_event
try_aperture_hook d body = elim (d.hook body) [
  | none ↦ none
  | some p ↦ if is_empty p.model then none else some (hook_event d body p)
]

abbrev set_raw : Text → ApertureEvent → ApertureEvent
set_raw body e = record e { raw = body }

parse_single : Decoders → Text → Option (List ApertureEvent)
parse_single d body = elim (d.single body) [ none ↦ none | some e ↦ some (set_raw body e ∷ []) ]

-- The two simple formats; an empty array is tried as a single event.
parse_simple : Decoders → Text → Option (List ApertureEvent)
unfolding parse_single
parse_simple d body = elim (d.array body) [
  | some (e ∷ es) ↦ some (map (set_raw body) (e ∷ es))
  | _ ↦ parse_single d body
]

-- `parsePayload`; `none` is an error.
unfoldable pub parse_payload : Decoders → Text → Option (List ApertureEvent)
unfolding try_aperture_hook parse_simple
parse_payload d body = elim (try_aperture_hook d body) [
  | some e ↦ some (e ∷ [])
  | none ↦ parse_simple d body
]
