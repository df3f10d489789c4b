-- ===== src/Runner/Feedback/Resolved.antt =====
-- Which issues are closed as resolved.
use remote_juggler.Prelude.{
  ◌≡◌, refl, ◌∙◌, ap, Bool, true, false, Option, none, some, List, [], ◌∷◌, not, all, keep, arith,
  ◌≢◌, if◌then◌else◌, Bool-cases, inl, inr,
}
use remote_juggler.Text.{Text, text_eq, same_iff}
use remote_juggler.Result.{ok}
use remote_juggler.Runner.Campaign.{Campaign, Finding, CampaignResult, is_nil}
use remote_juggler.Runner.Dispatcher.Http.{Net}
use remote_juggler.Runner.Scheduler.Interface.{Services, FeedbackOps}
use remote_juggler.Runner.Scheduler.{give_feedback, previous_of}
use remote_juggler.Runner.Collector.{
  Codecs, latest_key, history_key, store_result, get_previous_findings, collector,
}
use remote_juggler.Runner.Collector.Stored.{IsStore, get_previous_findings-store_result}
use remote_juggler.Runner.Feedback.{
  FeedbackHandler, GitHubCodecs, finding_key, is_current, close_one, close_resolved_issues,
  create_issues, process_findings,
}

AllCurrent_cons :
    (g : Finding) (current fs : List Finding)
    → all (is_current current) fs ≡ true
    → all (is_current (g ∷ current)) fs ≡ true
unfolding is_current
AllCurrent_cons g current [] h = refl
AllCurrent_cons g current (f ∷ fs) h = ground (arith, AllCurrent_cons g current fs)

all_current : (fs : List Finding) → all (is_current fs) fs ≡ true
unfolding is_current
all_current [] = refl
all_current (f ∷ fs) = ground (
  arith,
  (same_iff (finding_key f) (finding_key f)).1 refl,
  AllCurrent_cons f fs fs (all_current fs),
)

if_true : {A : Type 0} (x y : A) (b : Bool) → b ≡ true → (if b then x else y) ≡ x
if_true x y b e = rw e

if_false : {A : Type 0} (x y : A) (b : Bool) → b ≡ false → (if b then x else y) ≡ y
if_false x y b e = rw e

module _ {W : Type 0} (n : Net W) (j : GitHubCodecs) (h : FeedbackHandler) where
  -- The search and the closing of an issue for each of these findings, in order.
  unfoldable pub close_each : Campaign → Text → List Finding → W → W
  close_each c repo [] w = w
  close_each c repo (f ∷ fs) w = close_each c repo fs (close_one n j h c repo f w)

  -- Exactly the previous findings whose key no present finding has are searched for and closed, each
  -- in its turn.
  pub close_resolved_issues-keep :
      (c : Campaign) (repo : Text) (current previous : List Finding) (w : W)
      → close_resolved_issues n j h c repo current previous w
        ≡ close_each c repo (keep (λ f. not (is_current current f)) previous) w
  unfolding close_resolved_issues close_each
  close_resolved_issues-keep c repo current [] w = refl
  close_resolved_issues-keep c repo current (f ∷ fs) w = elim (Bool-cases (is_current current f)) [
    | inl present ↦
        rw (present, close_resolved_issues) (close_resolved_issues-keep c repo current fs w)
    | inr gone ↦
        rw (gone, close_resolved_issues, close_each)
          (close_resolved_issues-keep c repo current fs (close_one n j h c repo f w))
  ]

  close_resolved_issues_of_current :
      (c : Campaign) (repo : Text) (current previous : List Finding) (w : W)
      → all (is_current current) previous ≡ true
      → close_resolved_issues n j h c repo current previous w ≡ w
  unfolding close_resolved_issues
  close_resolved_issues_of_current c repo current [] w e = refl
  close_resolved_issues_of_current c repo current (f ∷ fs) w e =
      let present : is_current current f ≡ true = ground arith in
      rw (present, close_resolved_issues)
        (close_resolved_issues_of_current c repo current fs w (ground arith))

  process_findings_of_same :
      (c : Campaign) (fs : List Finding) (w : W)
      → process_findings n j h c fs fs w ≡ process_findings n j h c fs [] w
  unfolding process_findings
  process_findings_of_same c fs w =
      rw
        (close_resolved_issues_of_current c c.outputs.issue_repo fs fs
          (create_issues n j h c c.outputs.issue_repo fs w) (all_current fs))
        (ground arith)

  -- The handler as the scheduler uses it, with any treatment of pull requests.
  abbrev pub feedback : (Campaign → List Finding → W → Option Text × W) → FeedbackOps W
  feedback process_pr = record {
    process_findings = process_findings n j h;
    process_pr_findings = process_pr;
  }

  module _ (jc : Codecs) (url : Text) (v : Services W)
      (process_pr : Campaign → List Finding → W → Option Text × W) where
    -- With a collector over a gateway that stores, and this handler, the feedback for a result with
    -- findings that has been stored is what it would be without any previous findings, although the
    -- campaign asks for resolved issues to be closed: the result is compared with itself.
    pub give_feedback-store_result :
        (c : Campaign) (r : CampaignResult) (w w' : W) {text : Text}
        → v.collector ≡ some (collector n jc url)
        → IsStore n jc url
        → jc.marshal_result r ≡ ok text
        → jc.unmarshal_result text ≡ ok r
        → history_key c r ≢ latest_key c
        → c.feedback.close_resolved_issues ≡ true
        → is_nil r.findings ≡ false
        → store_result n jc url c r w ≡ (none, w')
        → let w1 = (get_previous_findings n jc url c w').1 in
          give_feedback v (some (feedback process_pr)) c r w'
          ≡ (process_pr c r.findings (process_findings n j h c r.findings [] w1).1).1
    give_feedback-store_result c r w w' has store marshalled back apart closes some_findings done =
        let stored =
          get_previous_findings-store_result n jc url c r w w' store marshalled back apart done in
        let w1 = (get_previous_findings n jc url c w').1 in
        let loaded : previous_of v v.collector c w' ≡ (r.findings, w1) =
          ap (λ k. previous_of v k c w') has
          ∙ if_true _ _ c.feedback.close_resolved_issues closes
          ∙ ap (λ fs. (fs, w1)) stored in
        if_false _ _ (is_nil r.findings) some_findings
        ∙ ap
            (λ (previous, w2).
              (process_pr c r.findings (process_findings n j h c r.findings previous w2).1).1)
            loaded
        ∙ ap (λ o. (process_pr c r.findings o.1).1) (process_findings_of_same c r.findings w1)
