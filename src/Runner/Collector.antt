-- ===== src/Runner/Collector.antt =====
-- The collector of test/campaigns/runner/collector.go: campaign results and the kill switch, kept in
-- Setec by calls of the gateway's tools.
pub mod Stored
pub mod Outage
use remote_juggler.Prelude.{
  Bool, true, false, Option, none, some, List, [], ◌∷◌, ◌++◌, ◌==◌, if◌then◌else◌,
}
use remote_juggler.Text.{Text, lit, text_eq}
use remote_juggler.Dict.{Dict}
use remote_juggler.Result.{Result, ok, err}
use remote_juggler.Runner.Campaign.{Campaign, Finding, CampaignResult}
use remote_juggler.Runner.Scheduler.Interface.{CollectorOps}
use remote_juggler.Runner.Dispatcher.Http.{Net}
use remote_juggler.Runner.Dispatcher.{call_tool}

-- The uses of encoding/json: a result, and the texts of the contents of a tool's result.
pub record Codecs : Type 0 where
  pub marshal_result : CampaignResult → Result Text
  pub unmarshal_result : Text → Result CampaignResult
  pub unmarshal_content : Text → Result (List Text)

abbrev pub latest_key : Campaign → Text
latest_key c = c.outputs.setec_key ++ lit "/latest"

abbrev pub history_key : Campaign → CampaignResult → Text
history_key c r = c.outputs.setec_key ++ (lit "/runs/" ++ r.run_id)

abbrev pub kill_key : Text
kill_key = lit "campaigns/global-kill"

abbrev put_args : Text → Text → Dict Text
put_args name value = (lit "name", name) ∷ (lit "value", value) ∷ []

abbrev get_args : Text → Dict Text
get_args name = (lit "name", name) ∷ []

module _ {W : Type 0} (n : Net W) (j : Codecs) (gateway_url : Text) where
  abbrev pub setec_put : Text → Text → W → Result Text × W
  setec_put name value w = call_tool n gateway_url (lit "juggler_setec_put") (put_args name value) w

  abbrev pub setec_get : Text → W → Result Text × W
  setec_get name w = call_tool n gateway_url (lit "juggler_setec_get") (get_args name) w

  -- After the first of the two calls; an error of the second is only logged.
  abbrev after_latest : Campaign → CampaignResult → Text → Result Text × W → Option Text × W
  after_latest c r text (err e, w) =
      (some (lit "setec put " ++ (latest_key c ++ (lit ": " ++ e))), w)
  after_latest c r text (ok _, w) = (none, (setec_put (history_key c r) text w).1)

  -- `StoreResult`
  unfoldable pub store_result : Campaign → CampaignResult → W → Option Text × W
  unfolding lit call_tool
  store_result c r w = elim (j.marshal_result r) [
    | err e ↦ (some (lit "marshal result: " ++ e), w)
    | ok text ↦ after_latest c r text (setec_put (latest_key c) text w)
  ]

  -- The findings of a stored result, which is the first of the contents.
  abbrev pub findings_of : List Text → List Finding
  findings_of [] = []
  findings_of (t ∷ ts) = elim (j.unmarshal_result t) [ err e ↦ [] | ok r ↦ r.findings ]

  abbrev previous_in : Result Text × W → List Finding × W
  previous_in (err e, w) = ([], w)
  previous_in (ok resp, w) =
      (elim (j.unmarshal_content resp) [ err e ↦ [] | ok texts ↦ findings_of texts ], w)

  -- `GetPreviousFindings`
  unfoldable pub get_previous_findings : Campaign → W → List Finding × W
  unfolding lit call_tool
  get_previous_findings c w = previous_in (setec_get (latest_key c) w)

  abbrev says_true : List Text → Bool
  says_true [] = false
  says_true (t ∷ ts) = t == lit "true"

  abbrev pub switch_in : Result Text × W → Result Bool × W
  switch_in (err e, w) = (ok false, w)
  switch_in (ok resp, w) = (
    elim (j.unmarshal_content resp) [
      | err e ↦ err (lit "parse kill switch response: " ++ e)
      | ok texts ↦ ok (says_true texts)
    ],
    w,
  )

  -- `CheckKillSwitch`: a call that fails counts as a switch that is off.
  unfoldable pub check_kill_switch : W → Result Bool × W
  unfolding lit call_tool
  check_kill_switch w = switch_in (setec_get kill_key w)

  abbrev error_of : Result Text × W → Option Text × W
  error_of (err e, w) = (some e, w)
  error_of (ok resp, w) = (none, w)

  -- `ClearKillSwitch`
  unfoldable pub clear_kill_switch : W → Option Text × W
  unfolding lit call_tool
  clear_kill_switch w = error_of (setec_put kill_key (lit "false") w)

  -- The collector as the scheduler uses it.
  abbrev pub collector : CollectorOps W
  collector = record {
    check_kill_switch = check_kill_switch;
    clear_kill_switch = clear_kill_switch;
    store_result = store_result;
    get_previous_findings = get_previous_findings;
  }
