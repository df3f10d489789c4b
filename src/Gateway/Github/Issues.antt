-- ===== src/Gateway/Github/Issues.antt =====
-- `CreatePR`, `CreateIssue` and `RequestSecret` of gateway/github_tools.go.
use remote_juggler.Prelude.{true, some, [], ◌∷◌, ◌++◌, ◌==◌, nat_eq, if◌then◌else◌}
use remote_juggler.Text.{Text, lit, is_empty, print}
use remote_juggler.Dict.{Dict}
use remote_juggler.Result.{Result, ok, err}
use remote_juggler.Http.{HttpResponse, Transport}
use remote_juggler.Gateway.Values.{Values, mcp_text_result}
use remote_juggler.Gateway.Github.Request.{
  GithubCodecs, Issue, do_request, truncate_str, on_body, with_args, refused, raw_result, repo_url,
  arg, or_main,
}

module _ {W J : Type 0} (t : Transport W) (v : Values J) (k : GithubCodecs W J) where
  abbrev issue_result : Issue → Result Text
  issue_result i = mcp_text_result v (
      v.object (
        (lit "number", v.number i.number)
        ∷ (lit "html_url", v.text i.html_url)
        ∷ (lit "title", v.text i.title)
        ∷ (lit "state", v.text i.state)
        ∷ (lit "created", v.flag true)
        ∷ []))

  abbrev created : Text → HttpResponse → Text → W → Result Text × W
  created what r body w = (
    if r.status_code == 201
        then elim (k.unmarshal_issue body) [ err e ↦ raw_result t v k body | ok i ↦ issue_result i ]
        else refused t v k what r body,
    w,
  )

  abbrev post : Text → Text → Text → Dict J → W → Result Text × W
  post args path what payload w = on_body t v k (lit "read response") (created what) (
      do_request t v k (lit "POST") (repo_url t v k args ++ path)
        (some (v.must_marshal (v.object payload))) w)

  abbrev text_arg : Text → Text → J
  text_arg args name = v.text (arg t v k args name)

  -- `CreatePR`
  unfoldable pub create_pr : Text → W → Result Text × W
  unfolding lit print truncate_str do_request mcp_text_result
  create_pr args w =
      with_args t v k (lit "CreatePR") args
        (arg t v k args (lit "owner")
          ∷ arg t v k args (lit "repo")
          ∷ arg t v k args (lit "title")
          ∷ arg t v k args (lit "head")
          ∷ [])
        (lit "owner, repo, title, and head are required")
        (post args (lit "/pulls") (lit "create PR returned ") (
          (lit "title", text_arg args (lit "title"))
          ∷ (lit "body", text_arg args (lit "body"))
          ∷ (lit "head", text_arg args (lit "head"))
          ∷ (lit "base", v.text (or_main t v k (arg t v k args (lit "base"))))
          ∷ []))
        w

  -- `CreateIssue`
  unfoldable pub create_issue : Text → W → Result Text × W
  unfolding lit print truncate_str do_request mcp_text_result
  create_issue args w =
      with_args t v k (lit "CreateIssue") args
        (arg t v k args (lit "owner")
          ∷ arg t v k args (lit "repo")
          ∷ arg t v k args (lit "title")
          ∷ [])
        (lit "owner, repo, and title are required")
        (post args (lit "/issues") (lit "create issue returned ") (
          (lit "title", text_arg args (lit "title"))
          ∷ (lit "body", text_arg args (lit "body"))
          ∷ (lit "labels", k.arg_labels args)
          ∷ []))
        w

  abbrev urgency_of : Text → Text
  urgency_of args =
      if is_empty (arg t v k args (lit "urgency"))
      then lit "medium"
      else arg t v k args (lit "urgency")

  abbrev newline : Text
  newline = 10 ∷ []

  abbrev secret_body : Text → Text
  secret_body args =
      lit "## Secret Request"
      ++ (newline
          ++ (newline
              ++ (lit "**Name:** `"
                  ++ (arg t v k args (lit "name")
                      ++ (lit "`"
                          ++ (newline
                              ++ (lit "**Reason:** "
                                  ++ (arg t v k args (lit "reason")
                                      ++ (newline
                                          ++ (lit "**Urgency:** "
                                              ++ (urgency_of args
                                                  ++ (newline
                                                      ++ (newline
                                                          ++ (lit "---"
                                                            ++ (newline
                                                            ++ lit
                                                            "*Automated request from agent via `juggler_request_secret` tool.*")))))))))))))))

  abbrev issue_args : Text → Text
  issue_args args = v.must_marshal (
      v.object (
        (lit "owner", v.text (lit "tinyland-inc"))
        ∷ (lit "repo", v.text (lit "remote-juggler"))
        ∷ (lit "title", v.text (lit "Secret Request: " ++ arg t v k args (lit "name")))
        ∷ (lit "body", v.text (secret_body args))
        ∷ (lit "labels", v.array (v.text (lit "secret-request") ∷ v.text (urgency_of args) ∷ []))
        ∷ []))

  -- `RequestSecret`
  unfoldable pub request_secret : Text → W → Result Text × W
  unfolding lit create_issue
  request_secret args w =
      with_args t v k (lit "RequestSecret") args
        (arg t v k args (lit "name") ∷ arg t v k args (lit "reason") ∷ [])
        (lit "name and reason are required") (create_issue (issue_args args)) w
