-- ===== src/Gateway/Proxy/Rpc/Listed.antt =====
-- What a client is told of the tools.
use remote_juggler.Prelude.{
  ℕ, ◌≡◌, refl, Bool, true, false, Option, none, some, List, ◌++◌, map, ◌==◌, Bool-cases, inl, inr,
}
use remote_juggler.Text.{Text, lit, text_eq, same_iff}
use remote_juggler.Dict.{Dict}
use remote_juggler.Result.{Result, ok, err}
use remote_juggler.Http.{Transport}
use remote_juggler.Gateway.Identity.{CallerIdentity}
use remote_juggler.Gateway.Setec.{Codecs}
use remote_juggler.Gateway.Values.{Values}
use remote_juggler.Gateway.Proxy.{ProxyState, GithubTools, Services}
use remote_juggler.Gateway.Proxy.Rpc.{
  RpcRequest, ToolsList, Upstream, forwarded, own_tools, inject_gateway_tools,
  gateway_only_tools_list, is_tools_list_response,
}

-- A text that is decoded to a list of these tools.
abbrev pub IsList : {W : Type 0} → Upstream W → List Text → Text → Type 0
IsList u tools body = (l : ToolsList) × (u.decode_tools body ≡ some l) × (l.tools ≡ tools)

abbrev pub Encodes : {W : Type 0} → Upstream W → (Text → Text) → ToolsList → Type 0
Encodes u compact l = (s : Text) × (u.encode_tools l ≡ some s) × IsList u (map compact l.tools) s

-- A list that was decoded and extended by the tools of the gateway can be encoded, and is decoded again, each
-- tool as encoding/json writes it, by `compact`: without white space, and with `<`, `>` and `&` escaped.
pub record Faithful {W : Type 0} (u : Upstream W) (compact : Text → Text) : Type 0 where
  pub extended :
      (s : Text) (l : ToolsList)
      → u.decode_tools s ≡ some l
      → Encodes u compact (record l { tools = l.tools ++ u.gateway_tool_definitions })

-- What the client gets for a response with a field `tools`, which is decoded like this.
abbrev pub Extended :
    {W : Type 0} → Upstream W → (Text → Text) → Text → Option ToolsList → Text → Type 0
Extended u compact resp none body = body ≡ resp
Extended u compact resp (some l) body =
    IsList u (map compact (l.tools ++ u.gateway_tool_definitions)) body

abbrev pub Chosen : {W : Type 0} → Upstream W → (Text → Text) → Text → Bool → Text → Type 0
Chosen u compact resp true body = Extended u compact resp (u.decode_tools resp) body
Chosen u compact resp false body = IsList u (map compact u.gateway_tool_definitions) body

-- What the client gets when SendRequest ends like this.
abbrev pub Listing : {W : Type 0} → Upstream W → (Text → Text) → Result Text → Text → Type 0
Listing u compact (err e) body = IsList u (map compact u.gateway_tool_definitions) body
Listing u compact (ok resp) body = Chosen u compact resp (is_tools_list_response u resp) body

module _ {W : Type 0} (u : Upstream W) (compact : Text → Text) (faithful : Faithful u compact) where
  gateway_only-IsList :
      (id : Text)
      → Encodes u compact (own_tools u id)
      → IsList u (map compact u.gateway_tool_definitions) (gateway_only_tools_list u id)
  unfolding gateway_only_tools_list
  gateway_only-IsList id (s, enc, list) = rw (gateway_only_tools_list, enc) list

  inject-Extended :
      (resp : Text) (o : Option ToolsList)
      → u.decode_tools resp ≡ o
      → Extended u compact resp o (inject_gateway_tools u resp)
  unfolding inject_gateway_tools
  inject-Extended resp none dec = rw (inject_gateway_tools, dec) refl
  inject-Extended resp (some l) dec =
      let (s, enc, list) = faithful.extended resp l dec in rw (inject_gateway_tools, dec, enc) list

module _ {W J : Type 0} (t : Transport W) (j : Codecs W) (v : Values J) (sv : Services W J)
    (caller : CallerIdentity) (g : GithubTools W) (u : Upstream W) (range : Dict ℕ → Dict ℕ)
    (compact : Text → Text) (faithful : Faithful u compact) where
  -- A request `tools/list`, for whose id the gateway's own list can be encoded, is answered with status 200. If the
  -- subprocess sends a list, the reply lists its tools, all of them and in order, and then the gateway's.
  -- If it does not answer, or with no field `tools`, the reply lists the gateway's. A
  -- response with a field `tools` that is not decoded as a list is passed on, without the gateway's tools.
  pub forwarded-Listing :
      (req : RpcRequest) (p : ProxyState) (o : Result Text) (w : W)
      → req.method ≡ lit "tools/list"
      → Encodes u compact (own_tools u req.id)
      → let (reply, s) = forwarded t j v sv caller g u range req p (o, w) in
        (reply.status ≡ 200) × Listing u compact o reply.body
  forwarded-Listing req p (err e) w listing own =
      let h : (req.method == lit "tools/list") ≡ true = (same_iff _ _).1 listing in
      rw h (refl, gateway_only-IsList u compact faithful req.id own)
  forwarded-Listing req p (ok resp) w listing own =
      let h : (req.method == lit "tools/list") ≡ true = (same_iff _ _).1 listing in
      elim (Bool-cases (is_tools_list_response u resp)) [
        | inl list ↦
            rw list (refl, inject-Extended u compact faithful resp (u.decode_tools resp) refl)
        | inr other ↦ rw (other, h) (refl, gateway_only-IsList u compact faithful req.id own)
      ]
