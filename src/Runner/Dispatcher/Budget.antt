-- ===== src/Runner/Dispatcher/Budget.antt =====
-- How far a direct dispatch goes: its calls, its bytes, and what its error says of them.
use remote_juggler.Prelude.{
  ℕ, ◌+◌, ◌≤◌, ◌<◌, ◌≡◌, refl, ◌∙◌, ap, ◌⊎◌, inl, inr, true, false, Option, none, some, List, [],
  ◌∷◌, ◌&&◌, ltb, leb, length, arith, Bool-cases, Option-cases,
}
use remote_juggler.Prelude.Int.{pos}
use remote_juggler.Text.{Text, lit, is_empty}
use remote_juggler.Dict.{Dict}
use remote_juggler.Runner.Campaign.{Campaign, DispatchResult}
use remote_juggler.Runner.Scheduler.{classify, is_budget_error}
use remote_juggler.Runner.Dispatcher.Http.{Net}
use remote_juggler.Runner.Dispatcher.{
  max_bytes_of, size, call_tool, direct_from, direct_args, dispatch_direct, cancelled_error,
  budget_error,
}

-- What a direct dispatch of so many tools returns: either all were called and there is no error, or
-- fewer were called and there is one.
abbrev pub Accounted : ℕ → DispatchResult → Type 0
Accounted tools d =
    (calls : ℕ) × (used : ℕ) × (d.tool_calls ≡ pos calls)
    × (d.tokens_used ≡ pos used)
    × (((calls ≡ tools) × (is_empty d.error ≡ true))
        ⊎ ((calls < tools) × (is_empty d.error ≡ false)))

cancelled-ne : (n : ℕ) → is_empty (cancelled_error n) ≡ false
unfolding lit
cancelled-ne n = refl

budget-ne : (n m : ℕ) → is_empty (budget_error n m) ≡ false
unfolding lit
budget-ne n m = refl

module _ {W : Type 0} (n : Net W) (url : Text) (args : Dict Text) (max : ℕ) where
  direct_from-Accounted :
      (tools : List Text) (calls total : ℕ) (w : W)
      → Accounted (calls + length tools) (direct_from n url args max tools calls total w).0
  unfolding direct_from
  direct_from-Accounted [] calls total w = (calls, total, refl, refl, inl (omega arith, refl))
  direct_from-Accounted (tool ∷ tools) calls total w = elim (Option-cases (n.ctx_err w).0) [
    | inr (e, done) ↦
        rw (done, direct_from) (calls, total, refl, refl, inr (omega arith, cancelled-ne calls))
    | inl live ↦ elim (Bool-cases (ltb 0 max && leb max total)) [
      | inl over ↦
          rw (live, over, direct_from)
            (calls, total, refl, refl, inr (omega arith, budget-ne total max))
      | inr under ↦
          let (o, w2) = call_tool n url tool args (n.ctx_err w).1 in
          let next : calls + 1 + length tools ≡ calls + length (tool ∷ tools) = omega arith in
          rw (live, under, direct_from)
            (rw next at (direct_from-Accounted tools (calls + 1) (total + size o) w2))
    ]
  ]

  -- No call starts at the cap or above it, so that only the last response goes over.
  direct_from-capped :
      (bound : ℕ)
      → 0 < max
      → ((tool : Text) (w : W) → size (call_tool n url tool args w).0 ≤ bound)
      → (tools : List Text) (calls total : ℕ) (w : W) → total < max + bound
      → (used : ℕ) × ((direct_from n url args max tools calls total w).0.tokens_used ≡ pos used)
        × (used < max + bound)
  unfolding direct_from
  direct_from-capped bound cap small [] calls total w h = (total, refl, h)
  direct_from-capped bound cap small (tool ∷ tools) calls total w h =
      elim (Option-cases (n.ctx_err w).0) [
        | inr (e, done) ↦ rw (done, direct_from) (total, refl, h)
        | inl live ↦ elim (Bool-cases (ltb 0 max && leb max total)) [
          | inl over ↦ rw (live, over, direct_from) (total, refl, h)
          | inr under ↦
              let w1 = (n.ctx_err w).1 in
              let (o, w2) = call_tool n url tool args w1 in
              rw (live, under, direct_from)
                (direct_from-capped bound cap small tools (calls + 1) (total + size o) w2
                  (ground (arith, small tool w1)))
        ]
      ]

-- If the budget is not 0 and no response is longer than a bound, a direct dispatch uses fewer tokens
-- (bytes of responses) than the budget and the bound together.
pub dispatch_direct-capped :
    {W : Type 0} (n : Net W) (url run_id : Text) (c : Campaign) (budget bound : ℕ) (w : W)
    → max_bytes_of c.guardrails.ai_api_budget ≡ budget
    → 0 < budget
    → ((tool : Text) (w' : W) → size (call_tool n url tool (direct_args n c run_id) w').0 ≤ bound)
    → (used : ℕ) × ((dispatch_direct n url c run_id w).0.tokens_used ≡ pos used)
      × (used < budget + bound)
unfolding dispatch_direct
dispatch_direct-capped n url run_id c budget bound w e cap small = rw e (
    direct_from-capped n url (direct_args n c run_id) budget bound cap small c.tools 0 0 w
      (omega arith))

-- The status is `success` only without an error.
success-empty :
    (ctx : Option Text) (e : Text) → (classify ctx e).0 ≡ lit "success" → is_empty e ≡ true
unfolding classify lit
success-empty none e h = elim (Bool-cases (is_budget_error e)) [
  | inl over ↦ absurd (ground (arith, rw over at h))
  | inr fine ↦ elim (Bool-cases (is_empty e)) [
    | inl none_left ↦ none_left
    | inr left ↦ ground (arith, rw (fine, left) at h)
  ]
]
success-empty (some x) e h = ground (arith, h)

-- A direct dispatch whose result the scheduler calls a success has made as many calls as the campaign
-- has tools: it stopped at none of them.
pub success_calls_all :
    {W : Type 0} (n : Net W) (url run_id : Text) (c : Campaign) (w : W) (ctx : Option Text)
    → (classify ctx (dispatch_direct n url c run_id w).0.error).0 ≡ lit "success"
    → (dispatch_direct n url c run_id w).0.tool_calls ≡ pos (length c.tools)
unfolding dispatch_direct
success_calls_all n url run_id c w ctx h =
    let (calls, used, e, e', which) =
      direct_from-Accounted n url (direct_args n c run_id) (max_bytes_of c.guardrails.ai_api_budget)
        c.tools 0 0 w in
    elim which [
      | inl (all_called, no_error) ↦ e ∙ ap pos (omega (arith, all_called))
      | inr (fewer, error) ↦ absurd (ground (arith, error, success-empty ctx _ h))
    ]
