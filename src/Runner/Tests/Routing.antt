-- ===== src/Runner/Tests/Routing.antt =====
-- The theorems on routing, at concrete inputs.
use remote_juggler.Prelude.{
  ◌≡◌, refl, true, Option, none, some, [], ◌∷◌, ◌++◌, ◌==◌, any, map, keep, if◌then◌else◌,
}
use remote_juggler.Text.{Text, lit, text_eq, same, contains, has_prefix}
use remote_juggler.Runner.Router.{
  RjMeta, format_rj_meta, parse_rj_meta, default_routing_rules, rule_matches, label_contains, route,
}
use remote_juggler.Runner.Router.Meta.{parse_rj_meta-format_rj_meta}
use remote_juggler.Runner.Router.Rules.{AllByFirst, route_lem}
use remote_juggler.Runner.Tests.{a_campaign, a_finding}

abbrev unhashed : Text → Text
unhashed s = s

route_lem_example :
    (map (λ x. x.finding) (route unhashed [] default_routing_rules a_campaign (a_finding ∷ []))
      ≡ keep (λ f. any (λ q. rule_matches q a_campaign f) default_routing_rules) (a_finding ∷ []))
    × AllByFirst unhashed [] default_routing_rules a_campaign
        (route unhashed [] default_routing_rules a_campaign (a_finding ∷ []))
route_lem_example = route_lem unhashed [] default_routing_rules a_campaign (a_finding ∷ [])

credential_label : label_contains a_finding.labels (lit "credential") ≡ true
unfolding label_contains contains has_prefix lit
credential_label = refl

abbrev a_meta : RjMeta
a_meta = record {
  version = lit "1";
  from = lit "openclaw";
  to = lit "hexstrike-ai";
  message_type = lit "handoff";
  priority = lit "high";
  finding_fingerprint = [];
  campaign_id = lit "xa-nightly";
  run_id = [];
  timestamp = [];
  action_requested = lit "review";
  context = [];
}

abbrev marshal_braces : RjMeta → Text
marshal_braces m = b'{' ∷ b'}' ∷ []

abbrev unmarshal_braces : Text → Option RjMeta
unmarshal_braces s = if s == b'{' ∷ b'}' ∷ [] then some a_meta else none

unmarshal_test : unmarshal_braces (marshal_braces a_meta) ≡ some a_meta
unfolding same
unmarshal_test = refl

parse_rj_meta-format_rj_meta_example :
    parse_rj_meta unmarshal_braces (lit "ab" ++ (format_rj_meta marshal_braces a_meta ++ lit "<b>"))
    ≡ some a_meta
unfolding lit
parse_rj_meta-format_rj_meta_example =
    parse_rj_meta-format_rj_meta marshal_braces unmarshal_braces a_meta [] (lit "ab") (lit "<b>")
      refl (refl, (refl, tt)) unmarshal_test (refl, (refl, tt))
