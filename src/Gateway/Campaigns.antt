-- ===== src/Gateway/Campaigns.antt =====
-- The campaign tools of the gateway: the results that gateway/campaigns.go reads from Setec, and the client of
-- the campaign runner in gateway/campaign_tools.go.
pub mod Statuses
use remote_juggler.Prelude.{
  ℕ, ◌+◌, ◌-◌, Bool, true, false, Option, none, some, List, [], ◌∷◌, ◌++◌, not, ◌&&◌, ◌||◌, ltb,
  ◌==◌, nat_eq, length, take, drop, if◌then◌else◌,
}
use mathlib.Core.Option
use remote_juggler.Prelude.Int.{ℤ, pos}
use remote_juggler.Text.{Text, lit, text_eq, is_empty, print, slice}
use remote_juggler.Dict.{Dict, insert}
use remote_juggler.Result.{Result, ok, err, ◌>>=◌}
use remote_juggler.Http.{HttpRequest, HttpResponse, Transport, exchange, read_all}
use remote_juggler.Gateway.Values.{Values, mcp_text_result}
use remote_juggler.Gateway.Setec
use remote_juggler.Gateway.Setec.{SetecClient, Codecs}

abbrev pub key_prefix : Text
key_prefix = lit "remotejuggler/campaigns/"

abbrev pub key_suffix : Text
key_suffix = lit "/latest"

-- The key of a campaign's latest result.
abbrev pub campaign_key : Text → Text
campaign_key id = key_prefix ++ (id ++ key_suffix)

-- The test and the slicing of the loop: the campaign that a key is about, if it is a result's key.
unfoldable pub campaign_of_key : Text → Option Text
unfolding lit
campaign_of_key name =
    let cut = length name - length key_suffix in
    if ltb (length key_prefix + length key_suffix) (length name)
      && (take (length key_prefix) name == key_prefix && drop cut name == key_suffix)
    then some (slice (length key_prefix) cut name)
    else none

module _ {W J : Type 0} (t : Transport W) (j : Codecs W) (v : Values J) where
  -- `entry[k] = v` for each entry of the stored result
  abbrev merge : Dict J → Dict J → Dict J
  merge [] entry = entry
  merge ((k, x) ∷ result) entry = merge result (insert k x entry)

  abbrev status_entry : Text → Result Text → Dict J
  status_entry id (err e) =
      (lit "campaign_id", v.text id)
      ∷ (lit "status", v.text (lit "error"))
      ∷ (lit "error", v.text e)
      ∷ []
  status_entry id (ok val) = elim (v.unmarshal_object val) [
    | none ↦
        (lit "campaign_id", v.text id)
        ∷ (lit "status", v.text (lit "stored"))
        ∷ (lit "raw", v.text val)
        ∷ []
    | some none ↦ (lit "campaign_id", v.text id) ∷ (lit "status", v.text (lit "stored")) ∷ []
    | some (some result) ↦
        insert (lit "status") (v.text (lit "stored"))
          (merge result ((lit "campaign_id", v.text id) ∷ []))
  ]

  abbrev with_entry : Text → Result Text → List J × (SetecClient × W) → List J × (SetecClient × W)
  with_entry id o (es, s) = (v.object (status_entry id o) ∷ es, s)

  -- The loop over the names.
  unfoldable pub status_entries : List Text → SetecClient × W → List J × (SetecClient × W)
  unfolding lit insert campaign_of_key
  status_entries [] s = ([], s)
  status_entries (name ∷ names) (c, w) = elim (campaign_of_key name) [
    | none ↦ status_entries names (c, w)
    | some id ↦ let r = Setec.get t j name c w in with_entry id r.0 (status_entries names r.1)
  ]

  abbrev with_count : List J × (SetecClient × W) → Result Text × (SetecClient × W)
  with_count (es, s) = (
    mcp_text_result v
        (v.object ((lit "campaigns", v.array es) ∷ (lit "count", v.number (pos (length es))) ∷ [])),
    s,
  )

  abbrev list_status : SetecClient → Result (List Text) × W → Result Text × (SetecClient × W)
  list_status c (err e, w) = (
    mcp_text_result v (
        v.object ((lit "error", v.text e) ∷ (lit "status", v.text (lit "setec_unavailable")) ∷ [])),
    (c, w),
  )
  list_status c (ok names, w) = with_count (status_entries names (c, w))

  -- The result to be marked: the stored one, or the raw text of what is no object. `none` is the nil map.
  abbrev pub stored_result : Text → Option (Dict J)
  stored_result val = elim (v.unmarshal_object val) [
    | none ↦ some ((lit "raw", v.text val) ∷ [])
    | some r ↦ r
  ]

  abbrev mark_found : Text → Dict J → J
  mark_found id result =
      v.object (
        insert (lit "status") (v.text (lit "found"))
          (insert (lit "campaign_id") (v.text id) result))

  -- `none` is the panic of an assignment to the nil map.
  abbrev one_status :
      Text → Result Text × (SetecClient × W) → Option (Result Text × (SetecClient × W))
  one_status id (err e, s) = some (
    mcp_text_result v (
        v.object (
          (lit "campaign_id", v.text id)
          ∷ (lit "status", v.text (lit "not_found"))
          ∷ (lit "error", v.text e)
          ∷ [])),
    s,
  )
  one_status id (ok val, s) =
      Option.map (λ r. (mcp_text_result v (mark_found id r), s)) (stored_result val)

  -- `handleCampaignStatusTool`; `none` is a panic.
  unfoldable pub handle_campaign_status_tool :
      Text → SetecClient × W → Option (Result Text × (SetecClient × W))
  unfolding lit insert status_entries mcp_text_result
  handle_campaign_status_tool params (c, w) =
      elim (v.args_error (lit "handleCampaignStatusTool") params) [
        | some e ↦ some (err (lit "parse args: " ++ e), (c, w))
        | none ↦
            let id = v.arg_text params (lit "campaign_id") in
            if is_empty id
            then some (list_status c (Setec.list t j c w))
            else one_status id (Setec.get t j (campaign_key id) c w)
      ]

module _ {W J : Type 0} (t : Transport W) (v : Values J) where
  abbrev accepted_codes : List ℕ → ℕ → Bool
  accepted_codes [] n = false
  accepted_codes (m ∷ ms) n = n == m || accepted_codes ms n

  abbrev body_of : Text → List ℕ → Result HttpResponse × W → Result Text × W
  body_of what codes (o, w) = (
    (o >>= λ r. read_all (λ e. lit "read response: " ++ e) r >>= λ body.
        if accepted_codes codes r.status_code
        then ok body
        else err (what ++ (lit " returned " ++ (print r.status_code ++ (lit ": " ++ body))))),
    w,
  )

  abbrev call_runner : Text → Text → Text → List ℕ → W → Result Text × W
  call_runner what method url codes w = body_of what codes (
      exchange t (λ e. lit "create request: " ++ e) (λ e. what ++ (lit ": " ++ e))
        (record { method = method; url = url; headers = []; body = [] }) w)

  -- `Trigger` of the client with this base URL
  unfoldable pub trigger : Text → Text → W → Result Text × W
  unfolding lit print
  trigger base_url id w =
      call_runner (lit "campaign trigger") (lit "POST")
        (base_url ++ (lit "/trigger?campaign=" ++ id)) (202 ∷ 200 ∷ []) w

  -- `List` of the client with this base URL
  unfoldable pub list : Text → W → Result Text × W
  unfolding lit print
  list base_url w =
      call_runner (lit "campaign list") (lit "GET") (base_url ++ lit "/campaigns") (200 ∷ []) w

  abbrev answered : Text → Text → Result Text × W → Result Text × W
  answered field failed (err e, w) = (mcp_text_result v (v.text (failed ++ e)), w)
  answered field failed (ok body, w) = (mcp_text_result v (v.object ((field, v.raw body) ∷ [])), w)

  abbrev not_configured : Result Text
  not_configured = mcp_text_result v (v.text (lit "campaign runner not configured"))

  abbrev triggered : Text → Text → W → Result Text × W
  triggered base_url args w = elim (v.args_error (lit "handleCampaignTriggerTool") args) [
    | some e ↦ (err (lit "parse args: " ++ e), w)
    | none ↦
        let id = v.arg_text args (lit "campaign_id") in
        if is_empty id
        then (mcp_text_result v (v.text (lit "campaign_id is required")), w)
        else answered (lit "response") (lit "trigger failed: ") (trigger base_url id w)
  ]

  -- `handleCampaignTriggerTool`; `none` is a nil client.
  unfoldable pub handle_campaign_trigger_tool : Option Text → Text → W → Result Text × W
  unfolding lit mcp_text_result trigger
  handle_campaign_trigger_tool none args w = (not_configured, w)
  handle_campaign_trigger_tool (some url) args w =
      if is_empty url then (not_configured, w) else triggered url args w

  -- `handleCampaignListTool`
  unfoldable pub handle_campaign_list_tool : Option Text → Text → W → Result Text × W
  unfolding lit mcp_text_result list
  handle_campaign_list_tool none args w = (not_configured, w)
  handle_campaign_list_tool (some url) args w =
      if is_empty url
      then (not_configured, w)
      else answered (lit "campaigns") (lit "list failed: ") (list url w)
