-- ===== src/Runner/Scheduler/Interface.antt =====
-- What the scheduler calls, over any state of the world: the interface of the runner's other parts.
use remote_juggler.Prelude.{ℕ, Bool, Option, List}
use remote_juggler.Text.{Text}
use remote_juggler.Result.{Result}
use remote_juggler.Runner.Campaign.{Campaign, Finding, DispatchResult, CampaignResult}

-- Collector of test/campaigns/runner/collector.go. An error is `some`.
pub record CollectorOps (W : Type 0) : Type 0 where
  pub check_kill_switch : W → Result Bool × W
  pub clear_kill_switch : W → Option Text × W
  pub store_result : Campaign → CampaignResult → W → Option Text × W
  pub get_previous_findings : Campaign → W → List Finding × W

-- FeedbackHandler of test/campaigns/runner/feedback.go: findings, and those of the last run.
pub record FeedbackOps (W : Type 0) : Type 0 where
  pub process_findings : Campaign → List Finding → List Finding → W → Option Text × W
  pub process_pr_findings : Campaign → List Finding → W → Option Text × W

-- The fields of the scheduler that may be nil, the clock, the context and the formatting of a time.
pub record Services (W : Type 0) : Type 0 where
  pub dispatcher : Option (Campaign → Text → W → Result DispatchResult × W)
  pub collector : Option (CollectorOps W)
  pub feedback : Option (FeedbackOps W)
  pub publisher : Option (Campaign → CampaignResult → W → Result Text × W)
  pub on_result : Option (CampaignResult → W → W)
  pub refresh_tokens : W → W
  pub now : W → ℕ × W
  pub ctx_err : W → Option Text × W
  pub rfc3339 : ℕ → Text
