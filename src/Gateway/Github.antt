-- ===== src/Gateway/Github.antt =====
-- The GitHub tools of gateway/github_tools.go that read; those that write files and branches, and those that open
-- issues and pull requests, are in its children.
pub mod Request
pub mod Branches
pub mod Files
pub mod Patches
pub mod Issues
use remote_juggler.Prelude.{
  Bool, true, false, Option, none, some, List, [], ◌∷◌, ◌++◌, length, ◌==◌, nat_eq, if◌then◌else◌,
}
use remote_juggler.Prelude.Int.{ℤ, pos, negsuc}
use remote_juggler.Text.{Text, lit, text_eq, is_empty, print, print_int}
use remote_juggler.Result.{Result, ok, err}
use remote_juggler.Http.{HttpResponse, Transport}
use remote_juggler.Gateway.Values.{Values, mcp_text_result}
use remote_juggler.Gateway.Github.Request.{
  GithubCodecs, FileContent, do_request, truncate_str, on_body, with_args, refused, repo_url,
  contents_url, raw_result, arg,
}

abbrev is_zero : ℤ → Bool
is_zero (pos n) = n == 0
is_zero (negsuc n) = false

module _ {W J : Type 0} (t : Transport W) (v : Values J) (k : GithubCodecs W J) where
  -- A GET request, with what is made of a body that came with status 200.
  abbrev get_ok : Text → (Text → Result Text) → W → Result Text × W
  get_ok url shown w =
      on_body t v k (lit "read response")
        (λ r body w'. (
          if r.status_code == 200
              then shown body
              else refused t v k (lit "GitHub returned ") r body,
          w',
        ))
        (do_request t v k (lit "GET") url none w)

  -- What is not base64 is shown as it is.
  abbrev shown_content : FileContent → Text
  shown_content f =
      if f.encoding == lit "base64"
      then elim (k.decode_value f.content) [ err e ↦ f.content | ok s ↦ s ]
      else f.content

  abbrev fetched : Text → Result Text
  fetched body = elim (k.unmarshal_file body) [
    | err e ↦ raw_result t v k body
    | ok f ↦ mcp_text_result v (
        v.object (
          (lit "path", v.text f.path)
          ∷ (lit "sha", v.text f.sha)
          ∷ (lit "size", v.number f.size)
          ∷ (lit "content", v.text (shown_content f))
          ∷ []))
  ]

  abbrev ref_query : Text → Text
  ref_query args =
      if is_empty (arg t v k args (lit "ref"))
      then []
      else lit "?ref=" ++ arg t v k args (lit "ref")

  -- `Fetch`
  unfoldable pub fetch : Text → W → Result Text × W
  unfolding lit print truncate_str do_request mcp_text_result
  fetch args w =
      with_args t v k (lit "Fetch") args
        (arg t v k args (lit "owner")
          ∷ arg t v k args (lit "repo")
          ∷ arg t v k args (lit "path")
          ∷ [])
        (lit "owner, repo, and path are required")
        (get_ok (contents_url t v k args ++ ref_query args) fetched) w

  -- The filters of a list of alerts: the second one follows `&` only after a first.
  abbrev alerts_query : Text → Text → Text
  alerts_query state severity =
      (if is_empty state then [] else lit "?state=" ++ state)
      ++ (if is_empty severity
          then []
          else (if is_empty state then lit "?" else lit "&") ++ (lit "severity=" ++ severity))

  abbrev alerts_of : Text → Result Text
  alerts_of body = elim (k.unmarshal_list body) [
    | err e ↦ raw_result t v k body
    | ok xs ↦
        mcp_text_result v
          (v.object ((lit "alerts", v.array xs) ∷ (lit "count", v.number (pos (length xs))) ∷ []))
  ]

  -- `ListAlerts`
  unfoldable pub list_alerts : Text → W → Result Text × W
  unfolding lit print truncate_str do_request mcp_text_result
  list_alerts args w =
      with_args t v k (lit "ListAlerts") args
        (arg t v k args (lit "owner") ∷ arg t v k args (lit "repo") ∷ [])
        (lit "owner and repo are required")
        (get_ok
          (repo_url t v k args
            ++ (lit "/code-scanning/alerts"
                ++ alerts_query (arg t v k args (lit "state")) (arg t v k args (lit "severity"))))
          alerts_of)
        w

  abbrev alert_of : Text → Result Text
  alert_of body = elim (k.unmarshal_object body) [
    | err e ↦ raw_result t v k body
    | ok x ↦ mcp_text_result v x
  ]

  abbrev numbered_alert : Text → W → Result Text × W
  numbered_alert args w =
      let n = v.arg_number args (lit "alert_number") in
      if is_zero n
      then (err (lit "owner, repo, and alert_number are required"), w)
      else get_ok (repo_url t v k args ++ (lit "/code-scanning/alerts/" ++ print_int n)) alert_of w

  -- `GetAlert`
  unfoldable pub get_alert : Text → W → Result Text × W
  unfolding lit print print_int truncate_str do_request mcp_text_result
  get_alert args w =
      with_args t v k (lit "GetAlert") args
        (arg t v k args (lit "owner") ∷ arg t v k args (lit "repo") ∷ [])
        (lit "owner, repo, and alert_number are required") (numbered_alert args) w
