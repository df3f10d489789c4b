-- ===== src/Gateway/Proxy/Rpc/Metered.antt =====
-- The calls of tools that the proxy counts.
use remote_juggler.Prelude.{
  ℕ, ◌≡◌, refl, ap, ◌∙◌, Bool, true, false, not, any, Option, none, some, [], ◌∷◌, ◌++◌, ◌==◌,
  Bool-cases, inl, inr, is_some,
}
use mathlib.Core.Option
use remote_juggler.Text.{Text, lit, text_eq, same_iff}
use remote_juggler.Dict.{Dict}
use remote_juggler.Result.{Result, ok, err}
use remote_juggler.Http.{Transport}
use remote_juggler.Gateway.Identity.{CallerIdentity}
use remote_juggler.Gateway.Metering.{MeterStore, record_usage}
use remote_juggler.Gateway.Setec.{Codecs}
use remote_juggler.Gateway.Values.{Values}
use remote_juggler.Gateway.Proxy.{
  ProxyState, GithubTools, Services, is_gateway_tool, handle_gateway_tool,
}
use remote_juggler.Gateway.Proxy.Audited.{Left, Answered, unlogged, handle_gateway_tool-Left}
use remote_juggler.Gateway.Proxy.Rpc.{
  RpcRequest, HttpReply, Upstream, route, called, meter_record, gateway_reply,
}

module _ {W J : Type 0} (t : Transport W) (j : Codecs W) (v : Values J) (sv : Services W J)
    (caller : CallerIdentity) (g : GithubTools W) (u : Upstream W) (range : Dict ℕ → Dict ℕ) where
  -- The call is in the meter store, once, from this start to the time of the reply, and the reply is this
  -- text with status 200.
  abbrev pub Booked :
      RpcRequest → Text → MeterStore → ℕ → Text → HttpReply × (ProxyState × W) → Type 0
  Booked req body m start resp (reply, (p', w')) =
      (reply ≡ record { status = 200; body = resp })
      × (p'.meter
          ≡ some (
              record_usage range (j.clock w') (j.clock w')
                (meter_record v req body resp start (j.clock w')) m))

  -- What comes of a call of the gateway's own tools, whose handler ended like this.
  abbrev pub OwnCounted :
      RpcRequest
      → Text
      → MeterStore
      → ℕ
      → Option (Text × (ProxyState × W))
      → Option (HttpReply × (ProxyState × W))
      → Type 0
  OwnCounted req body m start none r = r ≡ none
  OwnCounted req body m start (some (resp, (p1, w1))) none = ⊥
  OwnCounted req body m start (some (resp, (p1, w1))) (some (reply, (p', w'))) =
      Booked req body m start resp (reply, (p', w')) × (w' ≡ w1)

  -- What comes of a call that the subprocess answered like this.
  abbrev pub ForeignCounted :
      RpcRequest
      → Text
      → ProxyState
      → MeterStore
      → ℕ
      → Result Text × W
      → Option (HttpReply × (ProxyState × W))
      → Type 0
  ForeignCounted req body p m start (o, w1) none = ⊥
  ForeignCounted req body p m start (err e, w1) (some (reply, s)) =
      (reply ≡ record { status = 502; body = lit "proxy error: " ++ e ++ (10 ∷ []) })
      × (s ≡ (p, w1))
  ForeignCounted req body p m start (ok resp, w1) (some (reply, (p', w'))) =
      Booked req body m start resp (reply, (p', w')) × (w' ≡ w1)

  abbrev pub Counted :
      Bool
      → RpcRequest
      → Text
      → ProxyState
      → W
      → MeterStore
      → Option (HttpReply × (ProxyState × W))
      → Type 0
  Counted true req body p w m r =
      OwnCounted req body m (j.clock w)
        (handle_gateway_tool t j v sv caller g req.id req.name req.arguments p w) r
  Counted false req body p w m r = ForeignCounted req body p m (j.clock w) (u.send_request body w) r

  Left-meter :
      (b : Bool) (p : ProxyState) (r : Result Text) (s : ProxyState × W)
      → Left t j v sv caller g b p (some (r, s))
      → s.0.meter ≡ p.meter
  Left-meter true p r (p', w') (one, m) = m
  Left-meter false p r (p', w') (none', m) = m

  call_gateway-OwnCounted :
      (req : RpcRequest) (body : Text) (p : ProxyState) (m : MeterStore) (start : ℕ)
      (a : Option (Text × (ProxyState × W)))
      → p.meter ≡ some m
      → Answered t j v sv caller g req.id req.name p a
      → OwnCounted req body m start a
          (Option.map (gateway_reply t j v sv caller g u range req body start) a)
  call_gateway-OwnCounted req body p m start none h answered = refl
  call_gateway-OwnCounted req body p m start (some (resp, (p', w'))) h (r, e, left) = (
    (
      refl,
      ap
          (Option.map (
            record_usage range (j.clock w') (j.clock w')
              (meter_record v req body resp start (j.clock w'))))
          (Left-meter (not (any (λ n. n == req.name) unlogged)) p r (p', w') left ∙ h),
    ),
    refl,
  )

  called-ForeignCounted :
      (req : RpcRequest) (body : Text) (start : ℕ) (p : ProxyState) (m : MeterStore)
      (o : Result Text × W)
      → p.meter ≡ some m
      → ForeignCounted req body p m start o
          (some (called t j v sv caller g u range req body start p o))
  called-ForeignCounted req body start p m (err e, w) h = (refl, refl)
  called-ForeignCounted req body start p m (ok resp, w) h = (
    (
      refl,
      ap
          (Option.map (
            record_usage range (j.clock w) (j.clock w)
              (meter_record v req body resp start (j.clock w))))
          h,
    ),
    refl,
  )

  -- With a meter store, a call of a tool of the gateway whose handler ends with a reply is answered with it and
  -- recorded once, and one whose handler panics gives no reply; a call that the subprocess answers is answered
  -- with its answer and recorded once, and one for which SendRequest fails has status 502 with its error
  -- and is not recorded.
  pub route-Counted :
      (req : RpcRequest) (body : Text) (p : ProxyState) (w : W) (m : MeterStore)
      → req.method ≡ lit "tools/call"
      → p.meter ≡ some m
      → Counted
          (is_gateway_tool req.name)
          req
          body
          p
          w
          m
          (route t j v sv caller g u range req true body p w)
  unfolding route
  route-Counted req body p w m call store =
      let c : (req.method == lit "tools/call") ≡ true = (same_iff _ _).1 call in
      elim (Bool-cases (is_gateway_tool req.name)) [
        | inl own ↦
            rw (route, c, own)
              (call_gateway-OwnCounted req body p m (j.clock w)
                (handle_gateway_tool t j v sv caller g req.id req.name req.arguments p w) store
                (handle_gateway_tool-Left t j v sv caller g req.id req.name req.arguments p w own))
        | inr foreign ↦
            let metering : is_some p.meter ≡ true = ap is_some store in
            rw (route, c, foreign, metering)
              (called-ForeignCounted req body (j.clock w) p m (u.send_request body w) store)
      ]
