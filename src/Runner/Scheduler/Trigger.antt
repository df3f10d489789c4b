-- ===== src/Runner/Scheduler/Trigger.antt =====
-- When a campaign is due.
use remote_juggler.Prelude.{
  ◌≡◌, ◌↔◌, Bool, true, false, not, ◌&&◌, ◌||◌, arith, ◌==◌, if◌then◌else◌,
}
use remote_juggler.Text.{lit, text_eq, is_empty}
use remote_juggler.Runner.Cron.{CivilTime, cron_matches}
use remote_juggler.Runner.Campaign.{Campaign, is_nil}
use remote_juggler.Runner.Scheduler.{is_due}

due_tests :
    (empty manual push pull no_deps matches : Bool)
    → ((if empty && manual
          then false
          else if push || pull
          then false
          else if not no_deps
          then false
          else if not empty
          then matches
          else false)
        ≡ true)
      ↔ ((empty ≡ false) × (push ≡ false) × (pull ≡ false) × (no_deps ≡ true) × (matches ≡ true))
due_tests empty manual push pull no_deps matches = ground arith

-- A campaign is due exactly when it has a schedule that matches the time, no dependencies, and
-- an event that is neither a push nor a pull request.
pub is_due_iff :
    (c : Campaign) (now : CivilTime)
    → (is_due c now ≡ true) ↔ (
        (is_empty c.trigger.schedule ≡ false)
        × ((c.trigger.event == lit "push") ≡ false)
        × ((c.trigger.event == lit "pull_request") ≡ false)
        × (is_nil c.trigger.depends_on ≡ true)
        × (cron_matches c.trigger.schedule now ≡ true))
unfolding is_due
is_due_iff c now =
    due_tests (is_empty c.trigger.schedule) (c.trigger.event == lit "manual")
      (c.trigger.event == lit "push") (c.trigger.event == lit "pull_request")
      (is_nil c.trigger.depends_on) (cron_matches c.trigger.schedule now)
