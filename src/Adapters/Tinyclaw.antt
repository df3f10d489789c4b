-- ===== src/Adapters/Tinyclaw.antt =====
-- The backend of deploy/adapters/tinyclaw.go: one request with a prompt, which blocks until the agent
-- is done.
pub mod Outcomes
use remote_juggler.Prelude.{
  ℕ, ◌+◌, Bool, true, false, Option, none, some, List, [], ◌∷◌, ◌++◌, not, ◌||◌, ◌==◌, nat_eq,
  if◌then◌else◌,
}
use remote_juggler.Text.{Text, lit, text_eq, is_empty, trim_space, print}
use remote_juggler.Result.{Result, ok, err, ◌>>=◌, wrap}
use remote_juggler.Http.{HttpRequest, HttpResponse, Transport, exchange, read_all, as_json}
use remote_juggler.Runner.Campaign.{is_nil}
use remote_juggler.Adapters.Protocol.{
  Finding, LastResult, AgentCampaign, AgentBackend, extract_findings,
}
use remote_juggler.Adapters.Prompt.{
  newline, heading, targets_part, process_part, tool_lines, constraints_part, criteria_part,
  findings_instruction, count_tool_references,
}

-- An entry of the skills directory: its name, and whether it is a directory.
pub record DirEntry : Type 0 where
  pub name : Text
  pub is_dir : Bool

-- What package os and path/filepath give for the skills: `none` is an error.
pub record Files : Type 0 where
  pub read_dir : Text → Option (List DirEntry)
  pub read_file : Text → Option Text
  -- `filepath.Join` of the directory, the entry and `SKILL.md`
  pub skill_path : Text → Text → Text

pub record DispatchResponse : Type 0 where
  pub content : Text
  pub finish_reason : Text
  pub error : Text

-- The uses of encoding/json, and `strings.ToLower`. The payload has the content, the session key and
-- the channel.
pub record Codecs : Type 0 where
  pub unmarshal_campaign : Text → Result AgentCampaign
  pub marshal_payload : Text → Text → Text → Result Text
  pub unmarshal_response : Text → Option DispatchResponse
  pub unmarshal_findings : Text → Option (List Finding)
  pub to_lower : Text → Text

abbrev with_skill : Option Text → List Text → List Text
with_skill none parts = parts
with_skill (some text) parts =
    let content = trim_space text in if is_empty content then parts else content ∷ parts

-- The texts of the skills, in the order of the directory.
unfoldable pub skills_of : Files → Text → List DirEntry → List Text
unfolding trim_space
skills_of fs dir [] = []
skills_of fs dir (e ∷ es) =
    let rest = skills_of fs dir es in
    if e.is_dir then with_skill (fs.read_file (fs.skill_path dir e.name)) rest else rest

abbrev rule : Text
rule = newline ++ (newline ++ (lit "---" ++ (newline ++ newline)))

-- `strings.Join` by the rule
abbrev ruled : List Text → Text
ruled [] = []
ruled (p ∷ []) = p
ruled (p ∷ q ∷ ps) = p ++ (rule ++ ruled (q ∷ ps))

abbrev skills_text : List Text → Text
skills_text parts =
    if is_nil parts
    then []
    else newline
      ++ (newline ++ (lit "## Skills Reference" ++ (newline ++ (newline ++ ruled parts))))

-- `loadSkills`
unfoldable pub load_skills : Files → Text → Text
unfolding lit skills_of
load_skills fs dir =
    if is_empty dir
    then []
    else elim (fs.read_dir dir) [ none ↦ [] | some es ↦ skills_text (skills_of fs dir es) ]

abbrev tools_part : List Text → Text
tools_part tools =
    if is_nil tools
    then []
    else lit "## Available Tools" ++ (newline ++ (tool_lines tools ++ newline))

-- The prompt that `Dispatch` builds, with the skills.
unfoldable pub prompt : AgentCampaign → Text → Text → Text
unfolding lit print findings_instruction
prompt c run_id skills =
    heading c run_id
    ++ (targets_part c.targets
        ++ (process_part c.process
            ++ (tools_part c.tools
                ++ (constraints_part c
                    ++ (criteria_part c.success_criteria ++ (skills ++ findings_instruction))))))

abbrev pub failure : Text → LastResult
failure e = record {
  status = lit "failure";
  tool_calls = 0;
  kpis = [];
  tool_trace = [];
  findings = [];
  error = e;
}

abbrev pub success : ℕ → List Finding → LastResult
success calls fs = record {
  status = lit "success";
  tool_calls = calls;
  kpis = [];
  tool_trace = [];
  findings = fs;
  error = [];
}

module _ {W : Type 0} (t : Transport W) (fs : Files) (j : Codecs)
    (agent_url skills_dir : Text) where
  -- The part of `Dispatch` after the response's decoding.
  unfoldable pub response_result : AgentCampaign → Text → Option DispatchResponse → LastResult
  unfolding lit extract_findings count_tool_references
  response_result c run_id none = success 0 []
  response_result c run_id (some r) =
      if r.finish_reason == lit "error" || not (is_empty r.error)
      then failure r.error
      else success (count_tool_references j.to_lower r.content c.tools)
          (extract_findings j.unmarshal_findings r.content c.id run_id)

  abbrev pub status_checked : AgentCampaign → Text → HttpResponse → Text → LastResult
  status_checked c run_id r body =
      if r.status_code == 200
      then response_result c run_id (j.unmarshal_response body)
      else failure (lit "tinyclaw returned " ++ (print r.status_code ++ (lit ": " ++ body)))

  abbrev pub read_response : AgentCampaign → Text → Result HttpResponse × W → Result LastResult × W
  read_response c run_id (o, w) = (
    (o >>= λ r. read_all (λ e. lit "read response: " ++ e) r >>= λ body.
        ok (status_checked c run_id r body)),
    w,
  )

  abbrev pub post_prompt : AgentCampaign → Text → W → Result LastResult × W
  post_prompt c run_id w =
      elim (j.marshal_payload (prompt c run_id (load_skills fs skills_dir)) run_id
        (lit "campaign")) [
          | err e ↦ (err (lit "marshal payload: " ++ e), w)
          | ok body ↦ read_response c run_id (
              exchange t (λ e. lit "create request: " ++ e) (λ e. lit "tinyclaw dispatch: " ++ e)
                (record {
                  method = lit "POST";
                  url = agent_url ++ lit "/api/dispatch";
                  headers = as_json;
                  body = body;
                })
                w)
        ]

  -- `Dispatch`
  unfoldable pub dispatch : Text → Text → W → Result LastResult × W
  unfolding lit print prompt load_skills response_result
  dispatch campaign run_id w = elim (j.unmarshal_campaign campaign) [
    | err e ↦ (err (lit "parse campaign: " ++ e), w)
    | ok c ↦ post_prompt c run_id w
  ]

  abbrev get : Text → W → Result HttpResponse × W
  get path w =
      exchange t (λ e. e) (λ e. e)
        (record { method = lit "GET"; url = agent_url ++ path; headers = []; body = [] }) w

  abbrev legacy_health : Result HttpResponse × W → Option Text × W
  legacy_health (err e, w) = (some e, w)
  legacy_health (ok r, w) = (
    if r.status_code == 200 then none else some (lit "tinyclaw health: " ++ print r.status_code),
    w,
  )

  abbrev status_health : Result HttpResponse × W → Option Text × W
  status_health (err e, w) = legacy_health (get (lit "/health") w)
  status_health (ok r, w) =
      if r.status_code == 200 then (none, w) else legacy_health (get (lit "/health") w)

  -- `Health`
  unfoldable pub health : W → Option Text × W
  unfolding lit print
  health w = status_health (get (lit "/api/status") w)

  abbrev pub tinyclaw_backend : AgentBackend W
  tinyclaw_backend = record { dispatch = dispatch; health = health; type_name = lit "tinyclaw" }
