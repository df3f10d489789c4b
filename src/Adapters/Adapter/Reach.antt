-- ===== src/Adapters/Adapter/Reach.antt =====
-- What an adapter and its background runs can come to.
use remote_juggler.Prelude.{
  ℕ, ◌≤◌, ◌≡◌, refl, ap, Bool, true, false, List, [], ◌∷◌, ◌++◌, length, is_some, ◌==◌,
  length-append, arith, Bool-cases, inl, inr,
}
use remote_juggler.Text.{Text, lit, text_eq}
use remote_juggler.Result.{Result, ok, err}
use remote_juggler.Adapters.Protocol.{LastResult}
use remote_juggler.Adapters.Adapter.{
  AdapterStatus, idle, running, completed, Adapter, new_adapter, CampaignRequest, CampaignReply,
  accepted, handle_campaign, finish_campaign, received, start as begin_run,
}

-- The adapter, and the requests whose runs have been started and have not ended.
pub record System : Type 0 where
  pub adapter : Adapter
  pub in_flight : List CampaignRequest

abbrev pub begin : System
begin = record { adapter = new_adapter; in_flight = [] }

abbrev started :
    CampaignReply → Result CampaignRequest → List CampaignRequest → List CampaignRequest
started (accepted run_id) (ok q) qs = q ∷ qs
started _ _ qs = qs

-- A request is answered, and its run started if it is accepted.
abbrev pub answer : Text → Result CampaignRequest → System → System
answer method body s =
    let (reply, a) = handle_campaign method body s.adapter in
    record { adapter = a; in_flight = started reply body s.in_flight }

-- The steps of the system: a request comes in, or one of the runs ends.
pub data Step (s : System) : System → Type 0 where
  request : (method : Text) (body : Result CampaignRequest) → Step s (answer method body s)
  finish :
      (before : List CampaignRequest) (q : CampaignRequest) (after : List CampaignRequest)
      (o : Result LastResult)
      → s.in_flight ≡ before ++ (q ∷ after)
      → Step s (record { adapter = finish_campaign o s.adapter; in_flight = before ++ after })

pub data Reach : System → Type 0 where
  start : Reach begin
  later : {s t : System} → Reach s → Step s t → Reach t

-- The status, the number of runs, and whether there is a result.
pub data Fits : AdapterStatus → ℕ → Bool → Type 0 where
  at_rest : Fits idle 0 false
  at_work : Fits running 1 false
  at_end : Fits completed 0 true

abbrev pub Inv : System → Type 0
Inv s = Fits s.adapter.status (length s.in_flight) (is_some s.adapter.last_result)

start-Fits :
    (q : CampaignRequest) (a : Adapter) (qs : List CampaignRequest) {st : AdapterStatus} {n : ℕ}
    {b : Bool}
    → Fits st n b
    → a.status ≡ st
    → length qs ≡ n
    → is_some a.last_result ≡ b
    → let (reply, a') = begin_run q a in
      Fits a'.status (length (started reply (ok q) qs)) (is_some a'.last_result)
start-Fits q a qs at_rest st n b = rw (st, n) at_work
start-Fits q a qs at_work st n b = rw (st, n, b) at_work
start-Fits q a qs at_end st n b = rw (st, n) at_work

received-Inv :
    (body : Result CampaignRequest) (s : System)
    → Inv s
    → Inv (
        let (reply, a) = received body s.adapter in
        record { adapter = a; in_flight = started reply body s.in_flight })
received-Inv (err e) s h = h
received-Inv (ok q) s h = start-Fits q s.adapter s.in_flight h refl refl refl

answer-Inv :
    (method : Text) (body : Result CampaignRequest) (s : System)
    → Inv s
    → Inv (answer method body s)
unfolding handle_campaign
answer-Inv method body s h = elim (Bool-cases (method == lit "POST")) [
  | inl post ↦ rw post (received-Inv body s h)
  | inr other ↦ rw other h
]

at_most_one : {st : AdapterStatus} {n : ℕ} {b : Bool} → Fits st n b → n ≤ 1
at_most_one at_rest = omega arith
at_most_one at_work = omega arith
at_most_one at_end = omega arith

none_left :
    (before : List CampaignRequest) (q : CampaignRequest) (after qs : List CampaignRequest)
    → qs ≡ before ++ (q ∷ after)
    → length qs ≤ 1
    → length (before ++ after) ≡ 0
none_left before q after qs e few =
    let size : length qs ≡ length (before ++ (q ∷ after)) = ap length e in
    omega (arith, size, few, length-append before (q ∷ after), length-append before after)

Step-Inv : {s t : System} → Step s t → Inv s → Inv t
unfolding finish_campaign
Step-Inv {s} (request method body) h = answer-Inv method body s h
Step-Inv {s} (finish before q after o e) h =
    rw (none_left before q after s.in_flight e (at_most_one h)) at_end

-- In every state that the server can come to, one campaign at most is running: there is exactly one,
-- and no result, if the status is `running`; there is none if it is `idle`, with no result, or
-- `completed`, with one. The status is never `error`.
pub Reach-Inv : {s : System} → Reach s → Inv s
Reach-Inv start = unfold new_adapter in at_rest
Reach-Inv (later r st) = Step-Inv st (Reach-Inv r)
