-- ===== src/Runner/Scheduler/Completion.antt =====
-- The campaigns that count as completed, and the dependent campaigns that they let run.
use mathlib.Core.List.{Memᴰ}
use remote_juggler.Prelude.{
  ℕ, ◌≡◌, refl, ◌∙◌, inl, inr, Bool, true, false, Option, none, some, List, [], ◌∷◌, not, ◌&&◌, all,
  arith, if◌then◌else◌, Bool-cases, ltb, ◌+◌, Option-cases,
}
use remote_juggler.Text.{Text, text_eq, same}
use remote_juggler.Dict.{Dict, lookup-insert, lookup-insert_self}
use remote_juggler.Result.{Result, ok, err}
use remote_juggler.Runner.Cron.{CivilTime}
use remote_juggler.Runner.Campaign.{Campaign, is_nil}
use remote_juggler.Runner.Scheduler.Interface.{Services, CollectorOps}
use remote_juggler.Runner.Scheduler.{
  Scheduler, kill_switch_max_age, completed, dependencies_met, mark_completed, kill_gate,
  run_campaign, mark, gated, run_scheduled, run_dependent, run_due, checked, killed, killed_since,
  cleared, is_due,
}

-- Every campaign that is completed before is completed after.
abbrev pub Grows : Scheduler → Scheduler → Type 0
Grows s s' = (id : Text) → completed s id ≡ true → completed s' id ≡ true

mark_completed-Grows : (id : Text) (s : Scheduler) → Grows s (mark_completed id s)
unfolding mark_completed completed
mark_completed-Grows id s k h = rw (lookup-insert id k true s.completed_runs) (ground arith)

pub mark_completed_self : (id : Text) (s : Scheduler) → completed (mark_completed id s) id ≡ true
unfolding mark_completed completed
mark_completed_self id s = rw (lookup-insert_self id true s.completed_runs)

grown_of_same : (s s' : Scheduler) → s'.completed_runs ≡ s.completed_runs → Grows s s'
unfolding completed
grown_of_same s s' same id h = rw same h

module _ {W : Type 0} (v : Services W) where
  cleared_runs :
      (s : Scheduler) (o : Option Text × W) → (cleared v s o).1.completed_runs ≡ s.completed_runs
  cleared_runs s (some e, w) = refl
  cleared_runs s (none, w) = refl

  killed_since_runs :
      (k : CollectorOps W) (since : ℕ) (s : Scheduler) (w : W)
      → (killed_since v k since s w).1.completed_runs ≡ s.completed_runs
  killed_since_runs k since s w =
      let s' = record s { kill_switch_active_since = some since } in
      let (t, w1) = v.now w in
      elim (Bool-cases (ltb (since + kill_switch_max_age) t)) [
        | inl stale ↦ rw stale (cleared_runs s' (k.clear_kill_switch w1))
        | inr young ↦ rw young
      ]

  checked_runs :
      (k : CollectorOps W) (s : Scheduler) (o : Result Bool × W)
      → (checked v k s o).1.completed_runs ≡ s.completed_runs
  checked_runs k s (err e, w) = refl
  checked_runs k s (ok false, w) = refl
  checked_runs k s (ok true, w) = elim (Option-cases s.kill_switch_active_since) [
    | inl first ↦ rw (first, killed) (killed_since_runs k (v.now w).0 s (v.now w).1)
    | inr (since, again) ↦ rw (again, killed) (killed_since_runs k since s w)
  ]

  -- The kill switch check leaves the completed campaigns alone, and so does a run.
  kill_gate_runs :
      (k : Option (CollectorOps W)) (s : Scheduler) (w : W)
      → (kill_gate v k s w).1.completed_runs ≡ s.completed_runs
  unfolding kill_gate
  kill_gate_runs none s w = refl
  kill_gate_runs (some k) s w = checked_runs k s (k.check_kill_switch w)

  gated_runs :
      (c : Campaign) (run_id : Text) (o : Option Text × Scheduler × W)
      → (gated v c run_id o).1.completed_runs ≡ o.1.completed_runs
  gated_runs c run_id (some e, s, w) = refl
  gated_runs c run_id (none, s, w) = refl

  run_campaign_runs :
      (c : Campaign) (s : Scheduler) (w : W)
      → (run_campaign v c s w).1.completed_runs ≡ s.completed_runs
  unfolding run_campaign
  run_campaign_runs c s w =
      gated_runs c _ (kill_gate v v.collector s (v.now (v.refresh_tokens w)).1)
      ∙ kill_gate_runs v.collector s (v.now (v.refresh_tokens w)).1

  mark-Grows : (id : Text) (o : Option Text × Scheduler × W) → Grows o.1 (mark v id o).0
  mark-Grows id (some e, s, w) k h = h
  mark-Grows id (none, s, w) k h = mark_completed-Grows id s k h

  abbrev step : Bool → Text → Campaign → Scheduler → W → Scheduler × W
  step starts id c s w = if starts then mark v id (run_campaign v c s w) else (s, w)

  step-Grows :
      (starts : Bool) (id : Text) (c : Campaign) (s : Scheduler) (w : W)
      → Grows s (step starts id c s w).0
  step-Grows false id c s w k h = h
  step-Grows true id c s w k h =
      mark-Grows id (run_campaign v c s w) k (grown_of_same s _ (run_campaign_runs c s w) k h)

  run_scheduled-Grows :
      (now : CivilTime) (cs : Dict Campaign) (s : Scheduler) (w : W)
      → Grows s (run_scheduled v now cs s w).1
  unfolding run_scheduled
  run_scheduled-Grows now [] s w k h = h
  run_scheduled-Grows now ((id, c) ∷ rest) s w k h =
      let starts = is_nil c.trigger.depends_on && is_due c now in
      run_scheduled-Grows now rest _ _ k (step-Grows starts id c s w k h)

  run_dependent-Grows :
      (cs : Dict Campaign) (s : Scheduler) (w : W) → Grows s (run_dependent v cs s w).1
  unfolding run_dependent
  run_dependent-Grows [] s w k h = h
  run_dependent-Grows ((id, c) ∷ rest) s w k h =
      let starts = not (is_nil c.trigger.depends_on) && dependencies_met s c in
      run_dependent-Grows rest _ _ k (step-Grows starts id c s w k h)

  run_due-Grows :
      (now : CivilTime) (first second : Dict Campaign) (s : Scheduler) (w : W)
      → Grows s (run_due v now first second s w).2
  unfolding run_due
  run_due-Grows now first second s w k h =
      run_dependent-Grows second _ _ k (run_scheduled-Grows now first s w k h)

  all-completed :
      (ids : List Text) (s s' : Scheduler)
      → Grows s s'
      → all (completed s) ids ≡ true
      → all (completed s') ids ≡ true
  all-completed [] s s' g h = refl
  all-completed (id ∷ ids) s s' g h = ground (arith, g id, all-completed ids s s' g)

  -- Dependencies that are met before RunDue are met after it: RunDue forgets no completed run.
  pub dependencies_met-run_due :
      (now : CivilTime) (first second : Dict Campaign) (s : Scheduler) (w : W) (c : Campaign)
      → dependencies_met s c ≡ true
      → dependencies_met (run_due v now first second s w).2 c ≡ true
  unfolding dependencies_met
  dependencies_met-run_due now first second s w c h =
      all-completed c.trigger.depends_on s (run_due v now first second s w).2
        (run_due-Grows now first second s w) h

  -- Each of these started campaigns is one of the registry with dependencies, all met in the end.
  abbrev pub DependenciesMet : Dict Campaign → Scheduler → List Text → Type 0
  DependenciesMet cs s [] = Unit {0}
  DependenciesMet cs s (id ∷ ids) =
      ((c : Campaign) × Memᴰ (id, c) cs
        × (is_nil c.trigger.depends_on ≡ false)
        × (all (completed s) c.trigger.depends_on ≡ true))
      × DependenciesMet cs s ids

  weaken :
      (x : Text × Campaign) (cs : Dict Campaign) (s : Scheduler) (ids : List Text)
      → DependenciesMet cs s ids
      → DependenciesMet (x ∷ cs) s ids
  weaken x cs s [] h = tt
  weaken x cs s (id ∷ ids) ((c, m, some_deps, met), h) =
      ((c, Memᴰ.tail m, some_deps, met), weaken x cs s ids h)

  started_if :
      (cs : Dict Campaign) (s : Scheduler) (id : Text) (starts : Bool) (ids : List Text)
      → (starts ≡ true
          → (c : Campaign) × Memᴰ (id, c) cs
            × (is_nil c.trigger.depends_on ≡ false)
            × (all (completed s) c.trigger.depends_on ≡ true))
      → DependenciesMet cs s ids
      → DependenciesMet cs s (if starts then id ∷ ids else ids)
  started_if cs s id false ids h later = later
  started_if cs s id true ids h later = (h refl, later)

  run_dependent_started :
      (cs : Dict Campaign) (s : Scheduler) (w : W)
      → DependenciesMet cs (run_dependent v cs s w).1 (run_dependent v cs s w).0
  unfolding run_dependent dependencies_met
  run_dependent_started [] s w = tt
  run_dependent_started ((id, c) ∷ rest) s w =
      let starts = not (is_nil c.trigger.depends_on) && dependencies_met s c in
      let o = step starts id c s w in
      let final = (run_dependent v rest o.0 o.1).1 in
      let grown : Grows s final =
        λ k h. run_dependent-Grows rest o.0 o.1 k (step-Grows starts id c s w k h) in
      started_if ((id, c) ∷ rest) final id starts _
        (λ e. (
          c,
          Memᴰ.head refl,
          ground arith,
          all-completed c.trigger.depends_on s final grown (ground arith),
        ))
        (weaken (id, c) rest final _ (run_dependent_started rest o.0 o.1))

  -- Every campaign that the second pass starts is registered and has dependencies, all of which
  -- are completed when RunDue is done.
  pub run_due_started :
      (now : CivilTime) (first second : Dict Campaign) (s : Scheduler) (w : W)
      → let (scheduled, dependent, s', w') = run_due v now first second s w in
        DependenciesMet second s' dependent
  unfolding run_due
  run_due_started now first second s w = run_dependent_started second _ _
