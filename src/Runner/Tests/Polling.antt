-- ===== src/Runner/Tests/Polling.antt =====
-- The polling of an agent, at concrete inputs.
use remote_juggler.Prelude.{ℕ, ◌+◌, none, some, [], ◌==◌, nat_eq, if◌then◌else◌}
use remote_juggler.Text.{lit}
use remote_juggler.Result.{ok, err}
use remote_juggler.Runner.Dispatcher.Http.{Net}

-- The world counts the requests; the agent is done at the third.
abbrev third_time : Net ℕ
third_time = record {
  transport = record {
    new_request = λ q. none;
    send = λ q w. (ok (record { status_code = w; body = []; read_error = none }), w + 1);
  };
  ctx_err = λ w. (none, w);
  ticks = λ w. 5;
  marshal_call = λ q. ok [];
  marshal_campaign = λ c r. ok [];
  unmarshal_response = λ s. err [];
  decode_status = λ r. some (record {
    status = if r.status_code == 2 then lit "completed" else lit "running";
    last_result = none;
  });
}
