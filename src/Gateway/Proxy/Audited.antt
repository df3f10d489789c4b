-- ===== src/Gateway/Proxy/Audited.antt =====
-- What the gateway's tools leave in the audit log and in the other parts of the proxy's state.
use remote_juggler.Prelude.{
  not, any, ◌==◌, ℕ, ◌≡◌, refl, ◌∙◌, ap, sym, Bool, true, false, Option, none, some, List, [], ◌∷◌,
  arith, Option-cases, inl, inr, is_some,
}
use mathlib.Core.Option
use remote_juggler.Text.{Text, lit, text_eq, same}
use remote_juggler.Dict.{Every, lookup, is_some-lookup, lookup-Every}
use remote_juggler.Result.{Result}
use remote_juggler.Http.{Transport}
use remote_juggler.Gateway.Identity.{CallerIdentity}
use remote_juggler.Gateway.Audit.{AuditEntry, log_entry}
use remote_juggler.Gateway.Setec.{SetecClient, Codecs}
use remote_juggler.Gateway.Campaigns.{handle_campaign_status_tool}
use remote_juggler.Gateway.Values.{Values}
use remote_juggler.Gateway.Proxy.{
  ProxyState, GithubTools, Services, Handler, Answer, is_ok, entry, gateway_tools, github_tools,
  github_tool, resolve_composite, setec_list, setec_get, setec_put, audit_log, campaign_status,
  aperture_usage, campaign_trigger, campaign_list, on_setec, is_gateway_tool, handle_gateway_tool,
  rpc_response, respond, entries_answer, recent_entries,
}

-- The tools whose calls are not logged.
abbrev pub unlogged : List Text
unlogged =
    lit "juggler_setec_list"
    ∷ lit "juggler_setec_put"
    ∷ lit "juggler_audit_log"
    ∷ lit "juggler_campaign_status"
    ∷ lit "juggler_aperture_usage"
    ∷ lit "juggler_campaign_list"
    ∷ []

module _ {W J : Type 0} (t : Transport W) (j : Codecs W) (v : Values J) (sv : Services W J)
    (caller : CallerIdentity) (g : GithubTools W) where
  -- A call that gave this result left the log with one entry more, of this caller, with the outcome.
  abbrev pub LogsOne : Result Text → ProxyState → ProxyState → Type 0
  LogsOne r p p' =
      (action : Text) × (query : Text) × (source : Text) × (reason : Text) × (now : ℕ) × (p'.audit
        ≡ Option.map
            (log_entry sv.marshal_entry now (entry caller action query source (is_ok r) reason))
            p.audit)

  -- What a call left in the proxy: its log has one entry more, if the tool is logged, and is unchanged if
  -- it is not; the meter store is unchanged.
  abbrev pub Left : Bool → ProxyState → Answer W → Type 0
  Left logs p none = Unit
  Left true p (some (r, (p', w'))) = LogsOne r p p' × (p'.meter ≡ p.meter)
  Left false p (some (r, (p', w'))) = (p'.audit ≡ p.audit) × (p'.meter ≡ p.meter)

  abbrev pub Leaves : Text → Handler W → Type 0
  Leaves tool h =
      (args : Text) (p : ProxyState) (w : W)
      → Left (not (any (λ u. u == tool) unlogged)) p (h args p w)

  -- The same of a response.
  abbrev pub Answered : Text → Text → ProxyState → Option (Text × (ProxyState × W)) → Type 0
  Answered id tool p none = Unit
  Answered id tool p (some (resp, s)) =
      (r : Result Text) × (resp ≡ rpc_response t j v sv caller g id r)
      × Left (not (any (λ u. u == tool) unlogged)) p (some (r, s))

  github_tool-Left :
      (action : Text) (query reason : Text → Text) (run : Text → W → Result Text × W) (args : Text)
      (p : ProxyState) (w : W)
      → Left true p (github_tool t j v sv caller action query reason run args p w)
  github_tool-Left action query reason run args p w = ((_, _, _, _, _, refl), refl)

  github_tools-Leaves : Every Leaves (github_tools t j v sv caller g)
  unfolding same lit
  github_tools-Leaves = (
    github_tool-Left _ _ _ _,
    (
      github_tool-Left _ _ _ _,
      (
        github_tool-Left _ _ _ _,
        (
          github_tool-Left _ _ _ _,
          (
            github_tool-Left _ _ _ _,
            (
              github_tool-Left _ _ _ _,
              (
                github_tool-Left _ _ _ _,
                (
                  github_tool-Left _ _ _ _,
                  (
                    github_tool-Left _ _ _ _,
                    (
                      github_tool-Left _ _ _ _,
                      (
                        github_tool-Left _ _ _ _,
                        (
                          github_tool-Left _ _ _ _,
                          (github_tool-Left _ _ _ _, (github_tool-Left _ _ _ _, tt)),
                        ),
                      ),
                    ),
                  ),
                ),
              ),
            ),
          ),
        ),
      ),
    ),
  )

  on_setec-Left :
      (p : ProxyState) (o : Option (Result Text × (SetecClient × W)))
      → Left false p (Option.map (on_setec t j v sv caller p) o)
  on_setec-Left p none = tt
  on_setec-Left p (some (r, (c, w))) = (refl, refl)

  campaign_status-Left :
      (args : Text) (p : ProxyState) (w : W)
      → Left false p (campaign_status t j v sv caller args p w)
  unfolding campaign_status
  campaign_status-Left args p w =
      on_setec-Left p (handle_campaign_status_tool t j v args (p.setec, w))

  entries_answer-Left :
      (p : ProxyState) (w : W) (o : Option (List AuditEntry))
      → Left false p (entries_answer t j v sv caller o p w)
  entries_answer-Left p w none = tt
  entries_answer-Left p w (some es) = (refl, refl)

  audit_log-Left :
      (args : Text) (p : ProxyState) (w : W) → Left false p (audit_log t j v sv caller args p w)
  unfolding audit_log
  audit_log-Left args p w = entries_answer-Left p w (recent_entries t j v sv caller p.audit args)

  gateway_tools-Leaves : Every Leaves (gateway_tools t j v sv caller g)
  unfolding resolve_composite setec_list setec_get setec_put aperture_usage campaign_trigger
      campaign_list same lit
  gateway_tools-Leaves = (
    λ args p w. ((_, _, _, _, _, refl), refl),
    (
      λ args p w. (refl, refl),
      (
        λ args p w. ((_, _, _, _, _, refl), refl),
        (
          λ args p w. (refl, refl),
          (
            audit_log-Left,
            (
              campaign_status-Left,
              (
                λ args p w. (refl, refl),
                (
                  λ args p w. ((_, _, _, _, _, refl), refl),
                  (λ args p w. (refl, refl), github_tools-Leaves),
                ),
              ),
            ),
          ),
        ),
      ),
    ),
  )

  Answered-respond :
      (id tool : Text) (p : ProxyState) (a : Answer W)
      → Left (not (any (λ u. u == tool) unlogged)) p a
      → Answered id tool p (Option.map (respond t j v sv caller g id) a)
  Answered-respond id tool p none h = tt
  Answered-respond id tool p (some (r, s)) h = (r, refl, h)

  -- The names that are handled here, and the cases of the switch, are the same.
  pub is_gateway_tool-lookup :
      (tool : Text) → is_gateway_tool tool ≡ is_some (lookup tool (gateway_tools t j v sv caller g))
  unfolding is_gateway_tool
  is_gateway_tool-lookup tool = sym (is_some-lookup tool (gateway_tools t j v sv caller g))

  -- A call of a tool of the gateway, unless it panics, is answered in full, and leaves one entry of its
  -- caller and its outcome in the log, or none if the tool is one of the six that are not logged; it does not
  -- meter itself.
  pub handle_gateway_tool-Left :
      (id tool args : Text) (p : ProxyState) (w : W)
      → is_gateway_tool tool ≡ true
      → Answered id tool p (handle_gateway_tool t j v sv caller g id tool args p w)
  unfolding handle_gateway_tool
  handle_gateway_tool-Left id tool args p w known =
      elim (Option-cases (lookup tool (gateway_tools t j v sv caller g))) [
        | inl missing ↦
            let h : false ≡ true = sym (is_gateway_tool-lookup tool ∙ ap is_some missing) ∙ known in
            absurd (ground (arith, h))
        | inr (h, found) ↦
            rw (handle_gateway_tool, found)
              (Answered-respond id tool p (h args p w) (
                lookup-Every Leaves tool h (gateway_tools t j v sv caller g) gateway_tools-Leaves
                  found args p w))
      ]
