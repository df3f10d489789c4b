-- ===== src/Runner/Feedback.antt =====
-- The issues that test/campaigns/runner/feedback.go opens for findings, and closes for findings that
-- are gone. The errors that the source only logs are dropped.
pub mod Resolved
use remote_juggler.Prelude.{
  ℕ, Bool, true, false, Option, none, some, List, [], ◌∷◌, ◌++◌, not, ◌&&◌, any, map, ◌==◌, nat_eq,
  if◌then◌else◌,
}
use remote_juggler.Prelude.Int.{ℤ}
use remote_juggler.Text.{Text, lit, text_eq, is_empty, print, print_int}
use remote_juggler.Dict.{Dict}
use remote_juggler.Result.{Result, ok, err, wrap, ◌>>=◌}
use remote_juggler.Runner.Campaign.{Campaign, Finding, is_nil}
use remote_juggler.Http.{HttpRequest, HttpResponse, exchange}
use remote_juggler.Runner.Dispatcher.Http.{Net}

-- The labels by their names.
pub record GitHubIssue : Type 0 where
  pub number : ℤ
  pub title : Text
  pub state : Text
  pub labels : List Text
  pub body : Text

pub record FeedbackHandler : Type 0 where
  pub token : Text
  pub base_url : Text

-- The uses of encoding/json, for each message.
pub record GitHubCodecs : Type 0 where
  pub marshal_issue : Text → Text → List Text → Result Text
  pub marshal_comment : Text → Text
  pub marshal_state : Text → Text
  pub decode_search : HttpResponse → Result (List GitHubIssue)
  pub decode_issue : HttpResponse → Result GitHubIssue

-- The dedupe key of a finding, as searched for and compared.
unfoldable pub finding_key : Finding → Text
finding_key f = if is_empty f.fingerprint then f.title else f.fingerprint

-- `currentFingerprints[fp]`
unfoldable pub is_current : List Finding → Finding → Bool
unfolding finding_key
is_current current f = any (λ g. finding_key g == finding_key f) current

unfoldable pub issue_labels_of : Campaign → Finding → List Text
issue_labels_of c f =
    if not (is_nil c.outputs.issue_labels) then f.labels ++ c.outputs.issue_labels else f.labels

abbrev first_issue : List GitHubIssue → Option GitHubIssue
first_issue [] = none
first_issue (i ∷ is) = some i

module _ {W : Type 0} (n : Net W) (j : GitHubCodecs) (h : FeedbackHandler) where
  -- `setAuth`
  abbrev auth_headers : Dict Text
  auth_headers =
      (if is_empty h.token then [] else (lit "Authorization", lit "token " ++ h.token) ∷ [])
      ++ ((lit "Accept", lit "application/vnd.github+json")
          ∷ (lit "X-GitHub-Api-Version", lit "2022-11-28")
          ∷ [])

  abbrev json_headers : Dict Text
  json_headers = auth_headers ++ ((lit "Content-Type", lit "application/json") ∷ [])

  abbrev search_result : HttpResponse → Result (Option GitHubIssue)
  search_result r =
      if r.status_code == 200
      then (j.decode_search r >>= λ is. ok (first_issue is))
      else err (lit "search returned " ++ print r.status_code)

  abbrev searched : Result HttpResponse × W → Result (Option GitHubIssue) × W
  searched (o, w) = ((o >>= λ r. search_result r), w)

  -- `findExistingIssue`
  unfoldable pub find_existing_issue : Text → Finding → W → Result (Option GitHubIssue) × W
  unfolding lit print finding_key
  find_existing_issue repo f w = searched (
      exchange n.transport (λ e. e) (λ e. e)
        (record {
          method = lit "GET";
          url =
              h.base_url
              ++ (lit "/search/issues?q="
                  ++ (finding_key f ++ (lit "+repo:" ++ (repo ++ lit "+state:open+in:body"))));
          headers = auth_headers;
          body = [];
        })
        w)

  abbrev create_result : HttpResponse → Result GitHubIssue
  create_result r =
      if r.status_code == 201
      then j.decode_issue r
      else err (lit "create issue returned " ++ (print r.status_code ++ (lit ": " ++ r.body)))

  abbrev created : Result HttpResponse × W → Result GitHubIssue × W
  created (o, w) = ((o >>= λ r. create_result r), w)

  -- `createIssue`
  unfoldable pub create_issue : Text → Text → Text → List Text → W → Result GitHubIssue × W
  unfolding lit print
  create_issue repo title body labels w = elim (j.marshal_issue title body labels) [
    | err e ↦ (err e, w)
    | ok json ↦ created (
        exchange n.transport (λ e. e) (λ e. e)
          (record {
            method = lit "POST";
            url = h.base_url ++ (lit "/repos/" ++ (repo ++ lit "/issues"));
            headers = json_headers;
            body = json;
          })
          w)
  ]

  abbrev closed : Result HttpResponse × W → Option Text × W
  closed (err e, w) = (some e, w)
  closed (ok _, w) = (none, w)

  -- The part of `closeIssue` after the comment was sent: a status of the response is not looked at.
  abbrev after_comment : Text → ℤ → Result HttpResponse × W → Option Text × W
  after_comment repo number (err e, w) = (some e, w)
  after_comment repo number (ok _, w) = closed (
      exchange n.transport (λ e. e) (λ e. lit "close issue: " ++ e)
        (record {
          method = lit "PATCH";
          url = h.base_url ++ (lit "/repos/" ++ (repo ++ (lit "/issues/" ++ print_int number)));
          headers = json_headers;
          body = j.marshal_state (lit "closed");
        })
        w)

  -- `closeIssue`: its error.
  unfoldable pub close_issue : Text → ℤ → Text → W → Option Text × W
  unfolding lit print_int
  close_issue repo number comment w = after_comment repo number (
      exchange n.transport (λ e. e) (λ e. lit "add comment: " ++ e)
        (record {
          method = lit "POST";
          url =
              h.base_url
              ++ (lit "/repos/"
                  ++ (repo ++ (lit "/issues/" ++ (print_int number ++ lit "/comments"))));
          headers = json_headers;
          body = j.marshal_comment comment;
        })
        w)

  abbrev pub resolved_comment : Campaign → Text
  resolved_comment c =
      lit "This issue was automatically resolved. Campaign `"
      ++ (c.id ++ lit "` no longer reports this finding.")

  abbrev close_found : Campaign → Text → Result (Option GitHubIssue) × W → W
  close_found c repo (err e, w) = w
  close_found c repo (ok none, w) = w
  close_found c repo (ok (some i), w) = (close_issue repo i.number (resolved_comment c) w).1

  -- The body of the loop of `closeResolvedIssues` for a finding that is gone.
  unfoldable pub close_one : Campaign → Text → Finding → W → W
  unfolding lit find_existing_issue close_issue
  close_one c repo f w = close_found c repo (find_existing_issue repo f w)

  -- `closeResolvedIssues`
  unfoldable pub close_resolved_issues : Campaign → Text → List Finding → List Finding → W → W
  unfolding is_current close_one
  close_resolved_issues c repo current [] w = w
  close_resolved_issues c repo current (f ∷ fs) w =
      close_resolved_issues c repo current fs
        (if is_current current f then w else close_one c repo f w)

  abbrev create_if_new : Campaign → Text → Finding → Result (Option GitHubIssue) × W → W
  create_if_new c repo f (err e, w) = w
  create_if_new c repo f (ok (some i), w) = w
  create_if_new c repo f (ok none, w) = (create_issue repo f.title f.body (issue_labels_of c f) w).1

  -- The first loop of `ProcessFindings`
  unfoldable pub create_issues : Campaign → Text → List Finding → W → W
  unfolding find_existing_issue create_issue issue_labels_of
  create_issues c repo [] w = w
  create_issues c repo (f ∷ fs) w =
      create_issues c repo fs (create_if_new c repo f (find_existing_issue repo f w))

  -- `ProcessFindings`: its error.
  unfoldable pub process_findings : Campaign → List Finding → List Finding → W → Option Text × W
  unfolding lit create_issues close_resolved_issues
  process_findings c findings previous w =
      if not c.feedback.create_issues
      then (none, w)
      else if is_empty c.outputs.issue_repo
      then (some (lit "no issueRepo configured for campaign " ++ c.id), w)
      else (
        none,
        (let w1 = create_issues c c.outputs.issue_repo findings w in
            if c.feedback.close_resolved_issues && not (is_nil previous)
            then close_resolved_issues c c.outputs.issue_repo findings previous w1
            else w1),
      )
