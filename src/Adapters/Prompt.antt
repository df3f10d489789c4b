-- ===== src/Adapters/Prompt.antt =====
-- The parts that the prompts of deploy/adapters/tinyclaw.go and deploy/adapters/ironclaw.go share, the
-- instruction at their end, and the counting of tools in an agent's answer.
use remote_juggler.Prelude.{ℕ, suc, List, [], ◌∷◌, ◌++◌, not, ◌||◌, if◌then◌else◌}
use remote_juggler.Text.{Text, lit, is_empty, contains, print}
use remote_juggler.Runner.Campaign.{is_nil}
use remote_juggler.Adapters.Protocol.{Target, AgentCampaign}

abbrev pub newline : Text
newline = 10 ∷ []

-- `findingsInstruction`
unfoldable pub findings_instruction : Text
unfolding lit
findings_instruction =
    newline
    ++ (newline
        ++ (lit
              "When you complete your analysis, if you have actionable findings to report, output them as a JSON block delimited by markers:"
            ++ (newline
                ++ (lit
                      "__findings__[{\"title\":\"...\",\"body\":\"...\",\"severity\":\"critical|high|medium|low\",\"labels\":[\"label1\"],\"fingerprint\":\"unique-key\"}]__end_findings__"
                    ++ (newline
                        ++ lit
                            "Each finding should have a unique fingerprint for deduplication. Omit the block entirely if there are no findings.")))))

abbrev pub purpose : Text → Text
purpose description =
    if is_empty description then [] else lit "**Purpose**: " ++ (description ++ newline)

abbrev pub heading : AgentCampaign → Text → Text
heading c run_id =
    lit "# Campaign: "
    ++ (c.name
        ++ (newline
            ++ (lit "**Run ID**: " ++ (run_id ++ (newline ++ (purpose c.description ++ newline))))))

abbrev target_line : Target → Text
target_line t =
    lit "- "
    ++ (t.org
        ++ (lit "/"
            ++ (t.repo
                ++ (lit " (branch: "
                    ++ ((if is_empty t.branch then lit "main" else t.branch)
                        ++ (lit ", forge: " ++ (t.forge ++ (lit ")" ++ newline))))))))

abbrev target_lines : List Target → Text
target_lines [] = []
target_lines (t ∷ ts) = target_line t ++ target_lines ts

abbrev pub targets_part : List Target → Text
targets_part ts =
    if is_nil ts then [] else lit "## Targets" ++ (newline ++ (target_lines ts ++ newline))

-- The steps, numbered from the one given.
abbrev numbered : ℕ → List Text → Text
numbered i [] = []
numbered i (step ∷ steps) = print i ++ (lit ". " ++ (step ++ (newline ++ numbered (suc i) steps)))

abbrev pub process_part : List Text → Text
process_part steps = lit "## Process" ++ (newline ++ (numbered 1 steps ++ newline))

abbrev pub tool_lines : List Text → Text
tool_lines [] = []
tool_lines (tool ∷ tools) = lit "- `" ++ (tool ++ (lit "`" ++ (newline ++ tool_lines tools)))

abbrev pub read_only_line : Text
read_only_line =
    lit "- **Read-Only**: Do NOT create branches, PRs, or modify repositories" ++ newline

abbrev pub constraints_part : AgentCampaign → Text
constraints_part c =
    if not (is_empty c.max_duration) || c.read_only
    then lit "## Constraints"
      ++ (newline
          ++ ((if is_empty c.max_duration
                then []
                else lit "- **Max Duration**: " ++ (c.max_duration ++ newline))
              ++ ((if c.read_only then read_only_line else []) ++ newline)))
    else []

abbrev pub criteria_part : Text → Text
criteria_part s =
    if is_empty s then [] else lit "## Success Criteria" ++ (newline ++ (s ++ (newline ++ newline)))

-- `countToolReferences`, with `strings.ToLower`
unfoldable pub count_tool_references : (Text → Text) → Text → List Text → ℕ
unfolding contains
count_tool_references to_lower content [] = 0
count_tool_references to_lower content (tool ∷ tools) =
    let rest = count_tool_references to_lower content tools in
    if contains (to_lower content) (to_lower tool) then suc rest else rest
