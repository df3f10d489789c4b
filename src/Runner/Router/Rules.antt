-- ===== src/Runner/Router/Rules.antt =====
-- Routing: each finding goes by the first rule that it matches, and the default rules.
use mathlib.Core.Option.{some-injective}
use remote_juggler.Prelude.{
  ◌≡◌, refl, ◌∙◌, ap, sym, inl, inr, true, false, some, List, [], ◌∷◌, ◌++◌, any, map, keep,
  is_some, arith, Bool-cases, Option-cases,
}
use remote_juggler.Text.{Text, lit, text_eq, same, has_prefix}
use remote_juggler.Runner.Campaign.{Campaign, Finding}
use remote_juggler.Runner.Router.{
  RoutingRule, RoutedFinding, default_routing_rules, security_rule, credential_rule, label_contains,
  rule_matches, match_rule, routed_by, generate_fingerprint, route,
}

-- The rule is the first of the list that matches.
abbrev pub IsFirst : List RoutingRule → RoutingRule → Campaign → Finding → Type 0
IsFirst rules r c f =
    (before : List RoutingRule) × (after : List RoutingRule) × (rules ≡ before ++ (r ∷ after))
    × (any (λ q. rule_matches q c f) before ≡ false)
    × (rule_matches r c f ≡ true)

match_rule-IsFirst :
    (rules : List RoutingRule) (r : RoutingRule) (c : Campaign) (f : Finding)
    → match_rule rules c f ≡ some r
    → IsFirst rules r c f
unfolding match_rule
match_rule-IsFirst [] r c f h = cc
match_rule-IsFirst (q ∷ rules) r c f h = elim (Bool-cases (rule_matches q c f)) [
  | inl hit ↦
      let e : q ≡ r = some-injective q r (rw (hit, match_rule) at h) in
      ([], rules, ap (λ x. x ∷ rules) e, refl, rw (← e) hit)
  | inr miss ↦
      let (before, after, e, none_before, hit) =
        match_rule-IsFirst rules r c f (rw (miss, match_rule) at h) in
      (q ∷ before, after, ap (λ xs. q ∷ xs) e, ground arith, hit)
]

match_rule-none :
    (rules : List RoutingRule) (c : Campaign) (f : Finding)
    → is_some (match_rule rules c f) ≡ any (λ q. rule_matches q c f) rules
unfolding match_rule
match_rule-none [] c f = refl
match_rule-none (q ∷ rules) c f = elim (Bool-cases (rule_matches q c f)) [
  | inl hit ↦ rw (hit, match_rule)
  | inr miss ↦ rw (miss, match_rule) (match_rule-none rules c f)
]

module _ (sha256_hex : Text → Text) (now : Text) (rules : List RoutingRule) (c : Campaign) where
  -- Each goes to the agent of the first rule that it matches, with that rule's labels, and the metadata
  -- names the campaign, both agents, the severity and the fingerprint.
  abbrev pub AllByFirst : List RoutedFinding → Type 0
  AllByFirst [] = Unit {0}
  AllByFirst (x ∷ xs) =
      ((r : RoutingRule) × IsFirst rules r c x.finding
        × (x.target_agent ≡ r.target_agent)
        × (x.labels ≡ r.labels)
        × (x.meta.to ≡ r.target_agent)
        × (x.meta.from ≡ c.agent)
        × (x.meta.campaign_id ≡ c.id)
        × (x.meta.priority ≡ x.finding.severity)
        × (x.meta.finding_fingerprint ≡ sha256_hex (c.id ++ (lit ":" ++ x.finding.title))))
      × AllByFirst xs

  -- Route keeps exactly the findings that some rule matches, in their order, and sends each to the agent and
  -- with the labels of the first rule that it matches; its metadata name that agent, the campaign and its
  -- agent, the severity, and the hash of the campaign and the title.
  pub route_lem :
      (fs : List Finding)
      → (map (λ x. x.finding) (route sha256_hex now rules c fs)
          ≡ keep (λ f. any (λ q. rule_matches q c f) rules) fs)
        × AllByFirst (route sha256_hex now rules c fs)
  unfolding route routed_by generate_fingerprint lit
  route_lem [] = (refl, tt)
  route_lem (f ∷ fs) =
      let (found, first) = route_lem fs in
      elim (Option-cases (match_rule rules c f)) [
        | inl lost ↦
            let miss : any (λ q. rule_matches q c f) rules ≡ false =
              sym (match_rule-none rules c f) ∙ rw lost in
            rw (lost, route, miss) (found, first)
        | inr (r, hit) ↦
            let some_rule : any (λ q. rule_matches q c f) rules ≡ true =
              sym (match_rule-none rules c f) ∙ rw hit in
            rw (hit, route, some_rule)
              (
                ap (λ xs. f ∷ xs) found,
                (
                  (r, match_rule-IsFirst rules r c f hit, refl, refl, refl, refl, refl, refl, refl),
                  first,
                ),
              )
      ]

credential_matches :
    (c : Campaign) (f : Finding)
    → label_contains f.labels (lit "credential") ≡ true
    → rule_matches credential_rule c f ≡ true
unfolding rule_matches has_prefix lit
credential_matches c f h = rw h refl

-- By the default rules, a finding with a label that contains `credential` goes to hexstrike-ai,
-- whatever its campaign, severity and other labels are.
pub default_credential :
    (c : Campaign) (f : Finding)
    → label_contains f.labels (lit "credential") ≡ true
    → (r : RoutingRule) × (match_rule default_routing_rules c f ≡ some r)
      × (r.target_agent ≡ lit "hexstrike-ai")
unfolding match_rule default_routing_rules rule_matches same
default_credential c f h = elim (Bool-cases (rule_matches security_rule c f)) [
  | inl hit ↦ (security_rule, rw hit refl, refl)
  | inr miss ↦ (credential_rule, rw (miss, credential_matches c f h) refl, refl)
]
