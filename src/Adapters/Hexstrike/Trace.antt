-- ===== src/Adapters/Hexstrike/Trace.antt =====
-- The trace that a HexStrike run leaves, and its status.
use remote_juggler.Prelude.{
  suc, ◌⊎◌, ◌≡◌, refl, sym, ◌∙◌, ap, false, not, ◌||◌, Option, none, some, List, [], ◌∷◌, ◌++◌, map,
  any, length, ◌==◌, nat_eq, append_assoc, append-nil, arith, if◌then◌else◌, Bool-cases,
  Option-cases, inl, inr,
}
use remote_juggler.Text.{Text, lit, is_empty}
use remote_juggler.Dict.{Dict}
use remote_juggler.Result.{Result, ok, err, wrap, Result-cases}
use remote_juggler.Http.{HttpRequest, HttpResponse, Transport, exchange}
use remote_juggler.Adapters.Protocol.{ToolTrace, LastResult, AgentCampaign}
use remote_juggler.Adapters.Hexstrike.{
  Codecs, Progress, no_progress, called, noted, target_args, is_gateway_tool, call_mcp_tool,
  run_tool, run_tools, result_of, dispatch, call_request, read_answer, status_checked, answer_text,
  McpAnswer,
}

-- An error is not the empty text.
abbrev Tells {ℓ} : {A : Type ℓ} → Result A → Type 0
Tells (ok a) = Unit {0}
Tells (err e) = is_empty e ≡ false

-- The trace lists the tools, and there is an error exactly if the trace has one.
pub record IsTraceOf (tools : List Text) (p : Progress) : Type 0 where
  pub names : map (λ e. e.tool) p.trace ≡ tools
  pub errors : any (λ e. e.is_error) p.trace ≡ not (is_empty p.last_err)

map-append :
    (xs ys : List ToolTrace)
    → map (λ e. e.tool) (xs ++ ys) ≡ map (λ e. e.tool) xs ++ map (λ e. e.tool) ys
map-append [] ys = refl
map-append (x ∷ xs) ys = ap (λ ts. x.tool ∷ ts) (map-append xs ys)

any-append :
    (xs ys : List ToolTrace)
    → any (λ e. e.is_error) (xs ++ ys) ≡ (any (λ e. e.is_error) xs || any (λ e. e.is_error) ys)
any-append [] ys = refl
any-append (x ∷ xs) ys = ground (arith, any-append xs ys)

noted-names :
    (e : ToolTrace) (tools : List Text) (p : Progress)
    → map (λ e. e.tool) p.trace ≡ tools
    → map (λ e. e.tool) (noted e p).trace ≡ tools ++ (e.tool ∷ [])
noted-names e tools p h = map-append p.trace (e ∷ []) ∙ ap (λ ts. ts ++ (e.tool ∷ [])) h

called-IsTraceOf :
    (ts tool : Text) (o : Result Text) (tools : List Text) (p : Progress)
    → Tells o
    → IsTraceOf tools p
    → IsTraceOf (tools ++ (tool ∷ [])) (called ts tool o p)
unfolding called
called-IsTraceOf ts tool (err e) tools p told h = record {
  names = noted-names _ tools p h.names;
  errors = any-append p.trace _ ∙ ground (arith, told);
}
called-IsTraceOf ts tool (ok r) tools p told h = elim (Bool-cases (is_empty r)) [
  | inl empty ↦ rw empty (record {
    names = noted-names _ tools p h.names;
    errors = any-append p.trace _ ∙ ground (arith, h.errors);
  })
  | inr full ↦ rw full (record {
    names = noted-names _ tools p h.names;
    errors = any-append p.trace _ ∙ ground (arith, h.errors);
  })
]

append-ne : (s t : Text) → is_empty s ≡ false → is_empty (s ++ t) ≡ false
append-ne [] t h = absurd (cc)
append-ne (a ∷ s) t h = refl

Tells-wrap :
    {A : Type 0} (s : Text) (o : Result A) → is_empty s ≡ false → Tells (wrap (λ e. s ++ e) o)
Tells-wrap s (ok a) h = tt
Tells-wrap s (err e) h = append-ne s e h

-- The result lists the tools in its trace.
pub record Reports (tools : List Text) (r : LastResult) : Type 0 where
  pub names : map (λ e. e.tool) r.tool_trace ≡ tools
  pub calls : r.tool_calls ≡ length tools
  pub status :
      r.status ≡ (if any (λ e. e.is_error) r.tool_trace then lit "failure" else lit "success")

length-map : (es : List ToolTrace) → length (map (λ e. e.tool) es) ≡ length es
length-map [] = refl
length-map (e ∷ es) = ap suc (length-map es)

module _ {W : Type 0} (t : Transport W) (j : Codecs) (clock : W → Text × W) (url : Text) where
  answer_text-Tells :
      (body : Text) (a : Option McpAnswer) → Tells (answer_text t j clock url body a)
  unfolding lit
  answer_text-Tells body none = tt
  answer_text-Tells body (some a) = elim (Bool-cases (is_empty a.error)) [
    | inl fine ↦ rw fine tt
    | inr bad ↦ rw bad refl
  ]

  status_checked-Tells :
      (r : HttpResponse) (body : Text) → Tells (status_checked t j clock url r body)
  unfolding lit
  status_checked-Tells r body = elim (Bool-cases (r.status_code == 200)) [
    | inl fine ↦ rw fine (answer_text-Tells body (j.unmarshal_answer body))
    | inr bad ↦ rw bad refl
  ]

  read_answer-Tells :
      (o : Result HttpResponse) (w : W) → Tells o → Tells (read_answer t j clock url (o, w)).0
  unfolding lit
  read_answer-Tells (err e) w h = h
  read_answer-Tells (ok r) w h = elim (Option-cases r.read_error) [
    | inl whole ↦ rw whole (status_checked-Tells r r.body)
    | inr (e, broken) ↦ rw broken refl
  ]

  exchange-Tells :
      (q : HttpRequest) (w : W)
      → Tells (exchange t (λ e. lit "request: " ++ e) (λ e. lit "hexstrike mcp: " ++ e) q w).0
  exchange-Tells q w = elim (Option-cases (t.new_request q)) [
    | inl made ↦
        rw (made, Tells) (Tells-wrap (lit "hexstrike mcp: ") (t.send q w).0 (unfold lit in refl))
    | inr (e, failed) ↦ rw (failed, Tells) (append-ne (lit "request: ") e (unfold lit in refl))
  ]

  call_mcp_tool-Tells :
      (tool : Text) (args : Dict Text) (w : W) → Tells (call_mcp_tool t j clock url tool args w).0
  unfolding call_mcp_tool
  call_mcp_tool-Tells tool args w = elim (marshalled tool args) [
    | inl (body, e) ↦
        rw (e, Tells)
          (let o =
              exchange t (λ e. lit "request: " ++ e) (λ e. lit "hexstrike mcp: " ++ e)
                (call_request t j clock url body) w in
            read_answer-Tells o.0 o.1 (exchange-Tells (call_request t j clock url body) w))
    | inr (m, e) ↦ rw (e, Tells) (append-ne (lit "marshal: ") m (unfold lit in refl))
  ]
    where
      marshalled :
          (tool : Text) (args : Dict Text)
          → ((body : Text) × (j.marshal_call tool args ≡ ok body))
            ⊎ ((m : Text) × (j.marshal_call tool args ≡ err m))
      marshalled tool args = Result-cases (j.marshal_call tool args)

  run_tool-IsTraceOf :
      (args : Dict Text) (tool : Text) (tools : List Text) (p : Progress) (w : W)
      → IsTraceOf tools p
      → IsTraceOf (tools ++ (tool ∷ [])) (run_tool t j clock url args tool p w).0
  unfolding run_tool
  run_tool-IsTraceOf args tool tools p w h = elim (Bool-cases (is_gateway_tool tool)) [
    | inl skip ↦ rw skip (record {
      names = noted-names _ tools p h.names;
      errors = any-append p.trace _ ∙ ground (arith, h.errors);
    })
    | inr ours ↦ rw ours (
        called-IsTraceOf (clock w).0 tool (call_mcp_tool t j clock url tool args (clock w).1).0
          tools p (call_mcp_tool-Tells tool args (clock w).1) h)
  ]

  run_tools-IsTraceOf :
      (args : Dict Text) (tools done : List Text) (p : Progress) (w : W)
      → IsTraceOf done p
      → IsTraceOf (done ++ tools) (run_tools t j clock url args tools p w).0
  unfolding run_tools
  run_tools-IsTraceOf args [] done p w h = rw append-nil h
  run_tools-IsTraceOf args (tool ∷ tools) done p w h =
      let (p', w') = run_tool t j clock url args tool p w in
      rw (append_assoc done (tool ∷ []) tools) at (
        run_tools-IsTraceOf args tools (done ++ (tool ∷ [])) p' w'
          (run_tool-IsTraceOf args tool done p w h))

  -- A campaign that can be decoded always ends with a result: its trace has one entry for each tool of
  -- the campaign, in their order, the tools that are skipped included, its calls are counted so, and
  -- its status is `failure` exactly if an entry is an error.
  pub dispatch-Reports :
      (campaign run_id : Text) (w : W) (c : AgentCampaign)
      → j.unmarshal_campaign campaign ≡ ok c
      → (r : LastResult) × ((dispatch t j clock url campaign run_id w).0 ≡ ok r) × Reports c.tools r
  unfolding dispatch
  dispatch-Reports campaign run_id w c decodes =
      let p = (run_tools t j clock url (target_args c.targets) c.tools no_progress w).0 in
      let traced =
        run_tools-IsTraceOf (target_args c.targets) c.tools [] no_progress w
          (record { names = refl; errors = refl }) in
      (
        result_of t j clock url c.id run_id p,
        rw (decodes, dispatch),
        record {
          names = traced.names;
          calls = sym (length-map p.trace) ∙ ap length traced.names;
          status = rw traced.errors (ground arith);
        },
      )
