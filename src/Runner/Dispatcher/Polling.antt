-- ===== src/Runner/Dispatcher/Polling.antt =====
-- How long the dispatcher waits for an agent.
use remote_juggler.Prelude.{ℕ, zero, suc, ◌<◌, ◌≡◌, ◌⊎◌, refl, ◌∙◌, none, some, arith}
use remote_juggler.Text.{Text, lit}
use remote_juggler.Runner.Dispatcher.Http.{AgentStatus, Net}
use remote_juggler.Runner.Dispatcher.{
  final_status, ask_status, poll_agent_status, agent_result, dispatch_error,
}

module _ {W : Type 0} (n : Net W) (url : Text) where
  -- The agent's final status, in this world and after as many requests that found none.
  pub data Answers : ℕ → W → AgentStatus → W → Type 0 where
    answers_now :
        {w : W} {s : AgentStatus}
        → final_status n (ask_status n url w).0 ≡ some s
        → Answers zero w s (ask_status n url w).1
    answers_later :
        {k : ℕ} {w w' : W} {s : AgentStatus}
        → final_status n (ask_status n url w).0 ≡ none
        → Answers k (ask_status n url w).1 s w'
        → Answers (suc k) w s w'

  poll-none :
      (ticks : ℕ) (w : W)
      → final_status n (ask_status n url w).0 ≡ none
      → poll_agent_status n url (suc ticks) w ≡ poll_agent_status n url ticks (ask_status n url w).1
  unfolding poll_agent_status
  poll-none ticks w e = rw (poll_agent_status, e) refl

  poll-some :
      (ticks : ℕ) (w : W) (s : AgentStatus)
      → final_status n (ask_status n url w).0 ≡ some s
      → poll_agent_status n url (suc ticks) w ≡ (agent_result s, (ask_status n url w).1)
  unfolding poll_agent_status
  poll-some ticks w s e = rw (poll_agent_status, e) refl

  -- An agent that reports its end before the context is done gives the result that it reports, and is
  -- not asked again.
  pub poll_agent_status-Answers :
      (ticks : ℕ) {k : ℕ} {w w' : W} {s : AgentStatus}
      → Answers k w s w'
      → k < ticks
      → poll_agent_status n url ticks w ≡ (agent_result s, w')
  unfolding poll_agent_status
  poll_agent_status-Answers zero a h = absurd (omega arith)
  poll_agent_status-Answers (suc ticks) (answers_now {w} {s} e) h = poll-some ticks w s e
  poll_agent_status-Answers (suc ticks) (answers_later {k} {w} e a) h =
      poll-none ticks w e ∙ poll_agent_status-Answers ticks a (omega arith)

  -- As many requests, from this world to that, each of which found no final status.
  pub data Silent : ℕ → W → W → Type 0 where
    silent_none : {w : W} → Silent zero w w
    silent_more :
        {k : ℕ} {w w' : W}
        → final_status n (ask_status n url w).0 ≡ none
        → Silent k (ask_status n url w).1 w'
        → Silent (suc k) w w'

  -- The poll has the result that the agent reported at one of the ticks, or it asked at all of them in vain
  -- and has the error of an expired context.
  abbrev pub Ends : ℕ → W → Type 0
  Ends ticks w =
      ((k : ℕ) × (k < ticks)
        × ((s : AgentStatus) × ((w' : W) × Answers k w s w'
              × (poll_agent_status n url ticks w ≡ (agent_result s, w')))))
      ⊎ ((w' : W) × Silent ticks w w'
          × (poll_agent_status n url ticks w
              ≡ (dispatch_error (lit "context expired while waiting for agent"), w')))
