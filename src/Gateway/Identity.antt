-- ===== src/Gateway/Identity.antt =====
-- Who calls the gateway, and what the caller may do: IdentityMiddleware, parseCapabilities,
-- HasCapability and GrantsMiddleware of gateway/identity.go.
pub mod Grants
use remote_juggler.Prelude.{
  Bool, true, false, Option, none, some, List, [], ◌∷◌, ◌++◌, not, ◌&&◌, ◌==◌, any, keep, map,
  if◌then◌else◌,
}
use remote_juggler.Text.{Text, lit, text_eq, is_empty, split, split_by, trim_space}

pub record CallerIdentity : Type 0 where
  pub node : Text
  pub user : Text
  pub login : Text
  pub capabilities : List Text
  pub tailnet_ip : Text

-- The headers that are read (empty if absent), and the address of the connection.
pub record Request : Type 0 where
  pub tailscale_user_name : Text
  pub tailscale_user_login : Text
  pub tailscale_user_addr : Text
  pub tailscale_app_capabilities : Text
  pub x_agent_identity : Text
  pub remote_addr : Text

unfoldable pub parse_capabilities : Text → List Text
unfolding trim_space split_by
parse_capabilities header = keep (λ c. not (is_empty c)) (map trim_space (split b',' header))

-- `strings.Split(addr, ":")[0]`: the result of Split has a first element.
abbrev first_piece : List Text → Text
first_piece [] = []
first_piece (p ∷ ps) = p

unfoldable pub from_tailscale : Request → CallerIdentity
unfolding parse_capabilities
from_tailscale r = record {
  node = r.tailscale_user_name;
  user = r.tailscale_user_login;
  login = r.tailscale_user_login;
  capabilities =
      if is_empty r.tailscale_app_capabilities
      then []
      else parse_capabilities r.tailscale_app_capabilities;
  tailnet_ip = r.tailscale_user_addr;
}

-- Fallback to the header of in-cluster agents.
unfoldable pub or_agent : Request → CallerIdentity → CallerIdentity
unfolding lit
or_agent r id =
    if is_empty id.user && not (is_empty r.x_agent_identity)
    then record id {
      node = r.x_agent_identity;
      login = r.x_agent_identity;
      user = r.x_agent_identity ++ lit "@agent.tinyland.dev";
    }
    else id

-- Final fallback to the address.
unfoldable pub or_address : Request → CallerIdentity → CallerIdentity
or_address r id =
    if is_empty id.user && not (is_empty r.remote_addr)
    then (let ip = first_piece (split b':' r.remote_addr) in
        record id { tailnet_ip = ip; node = ip })
    else id

-- What `IdentityMiddleware` puts into the context of the request.
unfoldable pub identify : Request → CallerIdentity
unfolding from_tailscale or_agent or_address
identify r = or_address r (or_agent r (from_tailscale r))

unfoldable pub has_capability : CallerIdentity → Text → Bool
has_capability id cap = any (λ c. c == cap) id.capabilities

-- The identity of a context that holds none is empty.
abbrev identity_or_empty : Option CallerIdentity → CallerIdentity
identity_or_empty none = record {
  node = [];
  user = [];
  login = [];
  capabilities = [];
  tailnet_ip = [];
}
identity_or_empty (some id) = id

pub data Verdict : Type 0 where
  passed_on : Verdict
  forbidden : Text → Verdict

-- `GrantsMiddleware`: what it does with a request, given the context's identity.
unfoldable pub check_grant : Text → Option CallerIdentity → Verdict
unfolding has_capability lit
check_grant require_cap id =
    if is_empty require_cap
    then passed_on
    else if has_capability (identity_or_empty id) require_cap
    then passed_on
    else forbidden (lit "forbidden: missing capability " ++ require_cap)
