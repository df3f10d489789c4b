-- ===== src/Gateway/Identity/Grants.antt =====
-- What the two middlewares of gateway/identity.go guarantee together.
use remote_juggler.Prelude.{
  ◌≡◌, refl, sym, ◌↔◌, true, false, some, List, [], ◌∷◌, ◌++◌, arith, any, all, keep, nat_eq, map,
  not, ◌==◌, if◌then◌else◌, Bool-cases, inl, inr, ◌∙◌, ap,
}
use remote_juggler.Text.{Text, lit, text_eq, is_empty, trim_space, join, is_space}
use remote_juggler.Text.Laws.{AllFree, split_by-join, trim_space-Free, keep-nonempty}
use remote_juggler.Gateway.Identity.{
  CallerIdentity, Request, parse_capabilities, from_tailscale, or_agent, or_address, identify,
  has_capability, passed_on, check_grant,
}

-- An absent header lists no capability.
parse_capabilities-nil : (s : Text) → is_empty s ≡ true → parse_capabilities s ≡ []
unfolding parse_capabilities
parse_capabilities-nil [] h = refl
parse_capabilities-nil (c ∷ s) h = absurd (ground arith)

or_agent_capabilities :
    (r : Request) (id : CallerIdentity) → (or_agent r id).capabilities ≡ id.capabilities
unfolding or_agent
or_agent_capabilities r id = ground arith

or_address_capabilities :
    (r : Request) (id : CallerIdentity) → (or_address r id).capabilities ≡ id.capabilities
unfolding or_address
or_address_capabilities r id = ground arith

from_tailscale_capabilities :
    (r : Request)
    → (from_tailscale r).capabilities ≡ parse_capabilities r.tailscale_app_capabilities
unfolding from_tailscale
from_tailscale_capabilities r = elim (Bool-cases (is_empty r.tailscale_app_capabilities)) [
  | inl e ↦ rw e (sym (parse_capabilities-nil r.tailscale_app_capabilities e))
  | inr e ↦ rw e
]

identify_capabilities :
    (r : Request) → (identify r).capabilities ≡ parse_capabilities r.tailscale_app_capabilities
unfolding identify
identify_capabilities r =
    or_address_capabilities r (or_agent r (from_tailscale r))
    ∙ or_agent_capabilities r (from_tailscale r)
    ∙ from_tailscale_capabilities r

-- With a required capability that is not empty, a request is passed on exactly when the
-- capability is one of those parsed from the header of its Tailscale capabilities, whichever
-- fallback gave its identity.
pub check_grant-identify :
    (cap : Text) (r : Request)
    → is_empty cap ≡ false
    → (check_grant cap (some (identify r)) ≡ passed_on)
      ↔ (any (λ c. c == cap) (parse_capabilities r.tailscale_app_capabilities) ≡ true)
unfolding check_grant has_capability
check_grant-identify cap r h = rw (h, identify_capabilities r) (ground arith)

map-trim_space : (cs : List Text) → AllFree is_space cs → map trim_space cs ≡ cs
map-trim_space [] h = refl
map-trim_space (c ∷ cs) (h, hs) = rw (trim_space-Free c h, map-trim_space cs hs)

-- One or more names that are not empty and have no white space or commas come back from a header
-- that lists them with commas.
pub parse_capabilities-join :
    (c : Text) (cs : List Text)
    → AllFree (λ a. a == b',') (c ∷ cs)
    → AllFree is_space (c ∷ cs)
    → all (λ q. not (is_empty q)) (c ∷ cs) ≡ true
    → parse_capabilities (join b',' (c ∷ cs)) ≡ c ∷ cs
unfolding parse_capabilities
parse_capabilities-join c cs f s n =
    ap (λ ps. keep (λ q. not (is_empty q)) (map trim_space ps))
      (split_by-join (λ a. a == b',') b',' c cs refl f)
    ∙ ap (keep (λ q. not (is_empty q))) (map-trim_space (c ∷ cs) s)
    ∙ keep-nonempty (c ∷ cs) n

-- A caller with no Tailscale login and an agent header is the agent, under the agents' own domain.
-- A caller with a Tailscale login keeps it, whatever the agent header says.
pub identify_user :
    (r : Request)
    → (identify r).user ≡ (
        if is_empty r.tailscale_user_login
        then (if is_empty r.x_agent_identity
            then []
            else r.x_agent_identity ++ lit "@agent.tinyland.dev")
        else r.tailscale_user_login)
unfolding identify
identify_user r = ground arith
