-- ===== src/Runner/Router.antt =====
-- The finding router of test/campaigns/runner/router.go, and its metadata blocks.
pub mod Rules
pub mod Meta
use remote_juggler.Prelude.{
  ℕ, ◌+◌, ◌-◌, Bool, true, false, Option, none, some, List, [], ◌∷◌, ◌++◌, not, ◌&&◌, any, leb,
  length, drop, ◌==◌, if◌then◌else◌,
}
use remote_juggler.Text.{
  Text, lit, text_eq, same, is_empty, contains, has_prefix, index, slice, trim_space,
}
use remote_juggler.Dict.{Dict}
use remote_juggler.Runner.Campaign.{Campaign, Finding, is_nil}

pub record RoutingRule : Type 0 where
  pub source_agent : Text
  pub severity_in : List Text
  pub label_contains : Text
  pub campaign_prefix : Text
  pub target_agent : Text
  pub labels : List Text
  pub priority : ℕ

pub record RjMeta : Type 0 where
  pub version : Text
  pub from : Text
  pub to : Text
  pub message_type : Text
  pub priority : Text
  pub finding_fingerprint : Text
  pub campaign_id : Text
  pub run_id : Text
  pub timestamp : Text
  pub action_requested : Text
  pub context : Dict Text

pub record RoutedFinding : Type 0 where
  pub finding : Finding
  pub target_agent : Text
  pub labels : List Text
  pub meta : RjMeta

abbrev pub security_rule : RoutingRule
security_rule = record {
  source_agent = [];
  severity_in = lit "critical" ∷ lit "high" ∷ [];
  label_contains = lit "security";
  campaign_prefix = [];
  target_agent = lit "hexstrike-ai";
  labels = lit "handoff:hexstrike-ai" ∷ lit "severity:high" ∷ [];
  priority = 1;
}

abbrev pub credential_rule : RoutingRule
credential_rule = record {
  source_agent = [];
  severity_in = [];
  label_contains = lit "credential";
  campaign_prefix = [];
  target_agent = lit "hexstrike-ai";
  labels = lit "handoff:hexstrike-ai" ∷ [];
  priority = 2;
}

unfoldable pub default_routing_rules : List RoutingRule
unfolding lit
default_routing_rules =
    security_rule
    ∷ credential_rule
    ∷ record {
      source_agent = lit "hexstrike-ai";
      severity_in = [];
      label_contains = lit "code-quality";
      campaign_prefix = [];
      target_agent = lit "ironclaw";
      labels = lit "handoff:ironclaw" ∷ [];
      priority = 3;
    }
    ∷ record {
      source_agent = [];
      severity_in = [];
      label_contains = lit "dependency";
      campaign_prefix = [];
      target_agent = lit "ironclaw";
      labels = lit "handoff:ironclaw" ∷ [];
      priority = 4;
    }
    ∷ record {
      source_agent = [];
      severity_in = [];
      label_contains = [];
      campaign_prefix = lit "xa-upstream";
      target_agent = lit "tinyclaw";
      labels = lit "handoff:tinyclaw" ∷ [];
      priority = 5;
    }
    ∷ []

unfoldable pub string_in_slice : Text → List Text → Bool
string_in_slice s xs = any (λ v. v == s) xs

unfoldable pub label_contains : List Text → Text → Bool
unfolding contains
label_contains labels sub = any (λ l. contains l sub) labels

-- `ruleMatches`: a criterion that is empty holds.
unfoldable pub rule_matches : RoutingRule → Campaign → Finding → Bool
unfolding string_in_slice label_contains has_prefix
rule_matches r c f =
    if not (is_empty r.source_agent) && not (c.agent == r.source_agent)
    then false
    else if not (is_nil r.severity_in) && not (string_in_slice f.severity r.severity_in)
    then false
    else if not (is_empty r.label_contains) && not (label_contains f.labels r.label_contains)
    then false
    else if not (is_empty r.campaign_prefix) && not (has_prefix c.id r.campaign_prefix)
    then false
    else true

-- `matchRule`
unfoldable pub match_rule : List RoutingRule → Campaign → Finding → Option RoutingRule
match_rule [] c f = none
match_rule (r ∷ rules) c f = elim (rule_matches r c f) [
  | true ↦ some r
  | false ↦ match_rule rules c f
]

-- SHA-256 in hexadecimal (crypto/sha256), and the time as it is formatted.
module _ (sha256_hex : Text → Text) (now : Text) where
  unfoldable pub generate_fingerprint : Text → Text → Text
  generate_fingerprint campaign_id title = sha256_hex (campaign_id ++ (b':' ∷ title))

  unfoldable pub routed_by : Campaign → Finding → RoutingRule → RoutedFinding
  unfolding lit generate_fingerprint
  routed_by c f r = record {
    finding = f;
    target_agent = r.target_agent;
    labels = r.labels;
    meta = record {
      version = lit "1";
      from = c.agent;
      to = r.target_agent;
      message_type = lit "handoff";
      priority = f.severity;
      finding_fingerprint = generate_fingerprint c.id f.title;
      campaign_id = c.id;
      run_id = [];
      timestamp = now;
      action_requested = lit "review";
      context = [];
    };
  }

  -- `Route`
  unfoldable pub route : List RoutingRule → Campaign → List Finding → List RoutedFinding
  route rules c [] = []
  route rules c (f ∷ fs) =
      let rest = route rules c fs in
      elim (match_rule rules c f) [ none ↦ rest | some r ↦ routed_by c f r ∷ rest ]

-- `FormatRJMeta`, with `json.MarshalIndent`
unfoldable pub format_rj_meta : (RjMeta → Text) → RjMeta → Text
unfolding lit
format_rj_meta marshal m =
    10 ∷ (lit "<!-- rj-meta" ++ (10 ∷ (marshal m ++ (10 ∷ (lit "-->" ++ (10 ∷ []))))))

-- The part of `ParseRJMeta` after the marker was found at an index.
unfoldable pub parse_meta_at : (Text → Option RjMeta) → Text → ℕ → Option RjMeta
unfolding lit index trim_space
parse_meta_at unmarshal text start = elim (index (drop start text) (lit "-->")) [
  | none ↦ none
  | some end ↦
      if leb (start + end) (start + 13)
      then none
      else unmarshal (trim_space (slice (start + 13) (start + end) text))
]

-- `ParseRJMeta`, with `json.Unmarshal`; `none` is its false.
unfoldable pub parse_rj_meta : (Text → Option RjMeta) → Text → Option RjMeta
unfolding lit index parse_meta_at
parse_rj_meta unmarshal text = elim (index text (lit "<!-- rj-meta")) [
  | none ↦ none
  | some start ↦ parse_meta_at unmarshal text start
]
