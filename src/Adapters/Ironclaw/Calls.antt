-- ===== src/Adapters/Ironclaw/Calls.antt =====
-- The trace that the adapter makes of IronClaw's output.
use remote_juggler.Prelude.{
  ℕ, if◌then◌else◌, suc, ◌≡◌, refl, sym, ◌∙◌, ap, Bool, false, some, List, [], ◌∷◌, ◌++◌, map,
  append-nil, append_assoc, length, keep, ◌==◌, nat_eq, arith, Bool-cases, inl, inr,
}
use remote_juggler.Text.{Text, lit, text_eq}
use remote_juggler.Http.{Transport}
use remote_juggler.Runner.Campaign.{is_nil}
use remote_juggler.Adapters.Protocol.{AgentCampaign, ToolTrace}
use remote_juggler.Adapters.Ironclaw.{
  OutputItem, Codecs, Collected, collect, collect_item, nothing, traced, tool_calls_of,
  response_result,
}

abbrev pub is_call : OutputItem → Bool
is_call item = item.kind == lit "function_call"

collect_item-trace :
    (now : Text) (item : OutputItem) (s : Collected)
    → (collect_item now item s).trace ≡ s.trace ++ map (traced now) (keep is_call (item ∷ []))
collect_item-trace now item s = elim (Bool-cases (item.kind == lit "function_call")) [
  | inl call ↦ rw call refl
  | inr different ↦ elim (Bool-cases (item.kind == lit "message")) [
    | inl message ↦ rw (different, message) (sym (append-nil s.trace))
    | inr unknown ↦ rw (different, unknown) (sym (append-nil s.trace))
  ]
]

-- The function calls among these items, in their order, each with the time of its item.
abbrev pub calls_at : (ℕ → Text) → List OutputItem → List ToolTrace
calls_at now [] = []
calls_at now (item ∷ items) =
    let rest = calls_at (λ i. now (suc i)) items in
    if is_call item then traced (now 0) item ∷ rest else rest

calls_at-cons :
    (now : ℕ → Text) (item : OutputItem) (items : List OutputItem)
    → map (traced (now 0)) (keep is_call (item ∷ [])) ++ calls_at (λ i. now (suc i)) items
      ≡ calls_at now (item ∷ items)
calls_at-cons now item items = elim (Bool-cases (is_call item)) [
  | inl call ↦ rw call refl
  | inr different ↦ rw different refl
]

collect-trace :
    (now : ℕ → Text) (items : List OutputItem) (s : Collected)
    → (collect now items s).trace ≡ s.trace ++ calls_at now items
unfolding collect
collect-trace now [] s = sym (append-nil s.trace)
collect-trace now (item ∷ items) s =
    let later : ℕ → Text = λ i. now (suc i) in
    collect-trace later items (collect_item (now 0) item s)
    ∙ ap (λ ts. ts ++ calls_at later items) (collect_item-trace (now 0) item s)
    ∙ append_assoc s.trace (map (traced (now 0)) (keep is_call (item ∷ []))) (calls_at later items)
    ∙ ap (λ ts. s.trace ++ ts) (calls_at-cons now item items)

length-calls_at :
    (now : ℕ → Text) (items : List OutputItem)
    → length (calls_at now items) ≡ length (keep is_call items)
length-calls_at now [] = refl
length-calls_at now (item ∷ items) = elim (Bool-cases (is_call item)) [
  | inl call ↦ rw call (ap suc (length-calls_at (λ i. now (suc i)) items))
  | inr different ↦ rw different (length-calls_at (λ i. now (suc i)) items)
]

calls_counted :
    (to_lower : Text → Text) (tools : List Text) (s : Collected) (calls : List OutputItem)
    → length s.trace ≡ length calls
    → is_nil calls ≡ false
    → tool_calls_of to_lower tools s ≡ length calls
unfolding tool_calls_of
calls_counted to_lower tools s [] e full = absurd (ground (arith, full))
calls_counted to_lower tools s (i ∷ is) e full =
    let zero_free : (suc (length is) == 0) ≡ false = ground arith in rw (e, zero_free) refl

-- The trace lists the function calls of the output, all of them and in order, each with the time at which its
-- item is read, and where there is one, their number is reported.
pub response_result-trace :
    {W : Type 0} (t : Transport W) (j : Codecs) (url token : Text) (now : ℕ → Text)
    (c : AgentCampaign) (run_id : Text) (items : List OutputItem)
    → let r = response_result t j url token now c run_id (some items) in
      (r.tool_trace ≡ calls_at now items)
      × (is_nil (keep is_call items) ≡ false → r.tool_calls ≡ length (keep is_call items))
unfolding response_result
response_result-trace t j url token now c run_id items =
    let traced_all = collect-trace now items nothing in
    (
      traced_all,
      calls_counted j.to_lower c.tools (collect now items nothing) (keep is_call items)
          (ap length traced_all ∙ length-calls_at now items),
    )
