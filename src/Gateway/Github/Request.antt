-- ===== src/Gateway/Github/Request.antt =====
-- The requests of gateway/github_tools.go, and what its tools share.
use remote_juggler.Prelude.{
  ℕ, ◌-◌, Option, none, some, List, [], ◌∷◌, ◌++◌, leb, any, length, take, if◌then◌else◌,
}
use remote_juggler.Prelude.Int.{ℤ}
use remote_juggler.Text.{Text, lit, text_eq, is_empty, print}
use remote_juggler.Dict.{Dict}
use remote_juggler.Result.{Result, ok, err}
use remote_juggler.Http.{HttpResponse, Transport}
use remote_juggler.Gateway.Values.{Values, mcp_text_result}

-- A file as the contents API gives it.
pub record FileContent : Type 0 where
  pub content : Text
  pub encoding : Text
  pub sha : Text
  pub size : ℤ
  pub path : Text

-- An issue or a pull request
pub record Issue : Type 0 where
  pub number : ℤ
  pub html_url : Text
  pub title : Text
  pub state : Text

-- The token, with its error, the uses of encoding/json on GitHub's answers, encoding/base64, and `%q`.
pub record GithubCodecs (W J : Type 0) : Type 0 where
  pub api_base : Text
  pub token : W → Result Text × W
  pub unmarshal_file : Text → Result FileContent
  pub unmarshal_list : Text → Result (List J)
  pub unmarshal_object : Text → Result J
  -- The commit of a ref, the digest of a file (whose error is ignored), and the digest and path of a
  -- file that was put
  pub unmarshal_ref : Text → Result Text
  pub sha_of : Text → Text
  pub put_sha : Text → Text
  pub put_path : Text → Text
  pub unmarshal_issue : Text → Result Issue
  -- The argument `labels`
  pub arg_labels : Text → J
  pub encode_value : Text → Text
  pub decode_value : Text → Result Text
  pub quote : Text → Text

-- `truncateStr`
unfoldable pub truncate_str : Text → ℕ → Text
unfolding lit
truncate_str s max = if leb (length s) max then s else take (max - 3) s ++ lit "..."

module _ {W J : Type 0} (t : Transport W) (v : Values J) (k : GithubCodecs W J) where
  abbrev github_headers : Text → Option Text → Dict Text
  github_headers token body =
      (lit "Authorization", lit "Bearer " ++ token)
      ∷ (lit "Accept", lit "application/vnd.github+json")
      ∷ (lit "X-GitHub-Api-Version", lit "2022-11-28")
      ∷ elim body as (λ x. Dict Text) [
        | none ↦ []
        | some b ↦ (lit "Content-Type", lit "application/json") ∷ []
      ]

  abbrev body_text : Option Text → Text
  body_text none = []
  body_text (some b) = b

  abbrev authorized : Text → Text → Option Text → Result Text × W → Result HttpResponse × W
  authorized method url body (err e, w) = (err (lit "resolve GitHub token: " ++ e), w)
  authorized method url body (ok token, w) =
      t.send
        (record {
          method = method;
          url = url;
          headers = github_headers token body;
          body = body_text body;
        })
        w

  -- `doRequest`
  unfoldable pub do_request : Text → Text → Option Text → W → Result HttpResponse × W
  unfolding lit
  do_request method url body w =
      elim (t.new_request
        (record { method = method; url = url; headers = []; body = body_text body })) [
          | some e ↦ (err (lit "create request: " ++ e), w)
          | none ↦ authorized method url body (k.token w)
        ]

  -- The body of an answer, read with this error, and what is done with it.
  abbrev pub on_body :
      Text → (HttpResponse → Text → W → Result Text × W) → Result HttpResponse × W → Result Text × W
  on_body what next (err e, w) = (err e, w)
  on_body what next (ok r, w) = elim r.read_error [
    | some e ↦ (err (what ++ (lit ": " ++ e)), w)
    | none ↦ next r r.body w
  ]

  -- The arguments of a tool are decoded, and those that are required are there.
  abbrev pub with_args :
      Text → Text → List Text → Text → (W → Result Text × W) → W → Result Text × W
  with_args tool args required message next w = elim (v.args_error tool args) [
    | some e ↦ (err (lit "parse args: " ++ e), w)
    | none ↦ if any is_empty required then (err message, w) else next w
  ]

  -- The result for a status that is not the one wanted.
  abbrev pub refused : Text → HttpResponse → Text → Result Text
  refused what r body = mcp_text_result v (
      v.object (
        (lit "error", v.text (what ++ print r.status_code))
        ∷ (lit "detail", v.text (truncate_str body 500))
        ∷ []))

  abbrev pub raw_result : Text → Result Text
  raw_result body = mcp_text_result v (v.object ((lit "raw", v.text body) ∷ []))

  abbrev pub arg : Text → Text → Text
  arg args name = v.arg_text args name

  abbrev pub repo_url : Text → Text
  repo_url args =
      k.api_base
      ++ (lit "/repos/" ++ (arg args (lit "owner") ++ (lit "/" ++ arg args (lit "repo"))))

  abbrev pub contents_url : Text → Text
  contents_url args = repo_url args ++ (lit "/contents/" ++ arg args (lit "path"))

  abbrev pub or_main : Text → Text
  or_main base = if is_empty base then lit "main" else base
