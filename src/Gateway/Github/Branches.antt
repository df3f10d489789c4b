-- ===== src/Gateway/Github/Branches.antt =====
-- `CreateBranch` of gateway/github_tools.go.
use remote_juggler.Prelude.{true, none, some, [], ◌∷◌, ◌++◌, ◌==◌, nat_eq, if◌then◌else◌}
use remote_juggler.Text.{Text, lit, print}
use remote_juggler.Result.{Result, ok, err}
use remote_juggler.Http.{HttpResponse, Transport}
use remote_juggler.Gateway.Values.{Values, mcp_text_result}
use remote_juggler.Gateway.Github.Request.{
  GithubCodecs, do_request, truncate_str, on_body, with_args, refused, repo_url, arg, or_main,
}

module _ {W J : Type 0} (t : Transport W) (v : Values J) (k : GithubCodecs W J) where
  abbrev base_of : Text → Text
  base_of args = or_main t v k (arg t v k args (lit "base"))

  abbrev ref_payload : Text → Text → Text
  ref_payload args sha = v.must_marshal (
      v.object (
        (lit "ref", v.text (lit "refs/heads/" ++ arg t v k args (lit "branch_name")))
        ∷ (lit "sha", v.text sha)
        ∷ []))

  abbrev created : Text → Text → HttpResponse → Text → W → Result Text × W
  created args sha r body w = (
    if r.status_code == 201
        then mcp_text_result v (
            v.object (
              (lit "branch", v.text (arg t v k args (lit "branch_name")))
              ∷ (lit "base", v.text (base_of args))
              ∷ (lit "base_sha", v.text sha)
              ∷ (lit "created", v.flag true)
              ∷ []))
        else refused t v k (lit "create branch returned ") r body,
    w,
  )

  abbrev create_ref : Text → Text → W → Result Text × W
  create_ref args sha w = on_body t v k (lit "read create response") (created args sha) (
      do_request t v k (lit "POST") (repo_url t v k args ++ lit "/git/refs")
        (some (ref_payload args sha)) w)

  abbrev based : Text → HttpResponse → Text → W → Result Text × W
  based args r body w =
      if r.status_code == 200
      then elim (k.unmarshal_ref body) [
        | err e ↦ (err (lit "parse base ref: " ++ e), w)
        | ok sha ↦ create_ref args sha w
      ]
      else (
        refused t v k (lit "could not find base branch " ++ (k.quote (base_of args) ++ lit ": ")) r
            body,
        w,
      )

  -- `CreateBranch`
  unfoldable pub create_branch : Text → W → Result Text × W
  unfolding lit print truncate_str do_request mcp_text_result
  create_branch args w =
      with_args t v k (lit "CreateBranch") args
        (arg t v k args (lit "owner")
          ∷ arg t v k args (lit "repo")
          ∷ arg t v k args (lit "branch_name")
          ∷ [])
        (lit "owner, repo, and branch_name are required")
        (λ w'. on_body t v k (lit "read base ref") (based args) (
          do_request t v k (lit "GET")
            (repo_url t v k args ++ (lit "/git/ref/heads/" ++ base_of args)) none w'))
        w
