-- ===== src/Recovery/Check.antt =====
-- `checkAndScheduleRecovery`: when it schedules an alarm, and for when.
use durable_effect.Prelude.{
  ℕ, ◌+◌, ◌≤◌, ◌<◌, ◌≡◌, refl, ◌↔◌, ◌⊎◌, inl, inr, true, false, some, arith, leb, or_else,
}
use durable_effect.Errors.{Error, Key}
use durable_effect.World.{Env, World, IsReliable}
use durable_effect.World.Outcomes.{
  Post, Post-if, Post-pure, Post-bind, Post-get, Post-put, Post-now, Post-asks, Post-schedule,
  Post-mono, Unchanged,
}
use durable_effect.Machine.{RecoverabilityInfo}
use durable_effect.Machine.Recoverability.{NeedsRecovery, check_recoverability-Decides}
use durable_effect.Recovery.{
  RecoveryStats, RecoveryCheckResult, get_stats, schedule_recovery, check_attempts,
  check_and_schedule_recovery,
}

abbrev pub attempts_of : World → ℕ
attempts_of w = or_else w.store.recovery_attempts 0

leb_iff : (a b : ℕ) → (leb a b ≡ true) ↔ (a ≤ b)
leb_iff a b = ground arith

module _ (env : Env) (w : World) where
  abbrev Needs : Type 0
  Needs =
      NeedsRecovery env.recovery.stale_threshold_ms w.current_time w.store.pending_resume_at
        w.store.status

  -- the world after the alarm has been set
  abbrev with_alarm : World
  with_alarm = record w { scheduled_time = some (w.current_time + env.recovery.recovery_delay_ms) }

  abbrev with_recovery : World
  with_recovery = record with_alarm {
    store = record w.store { last_recovery_at = some w.current_time };
  }

  pub get_stats-Post :
      Post
        (λ s w'.
          ((s.max_exceeded ≡ true) ↔ (env.recovery.max_recovery_attempts ≤ attempts_of w))
          × (s.attempts ≡ attempts_of w)
          × (s.max_attempts ≡ env.recovery.max_recovery_attempts)
          × (w' ≡ w))
        (Unchanged env w)
        (get_stats env w)
  unfolding get_stats
  get_stats-Post = Post-bind _ _ env w (
      Post-get Key.recovery_attempts _ env w
        (Post-bind _ _ env w (
          Post-get Key.last_recovery_at _ env w
            (Post-bind _ _ env w
              (Post-asks _ env w (Post-pure _ env w (leb_iff _ _, refl, refl, refl))))
            (λ _ f. (refl, f))))
        (λ _ f. (refl, f)))

  -- how a check may end
  abbrev pub Checked : RecoveryCheckResult → World → Type 0
  Checked r w' =
      ((r.scheduled ≡ true)
        × Needs
        × (attempts_of w < env.recovery.max_recovery_attempts)
        × (w' ≡ with_recovery))
      ⊎ ((r.scheduled ≡ false)
          × ¬ (Needs × (attempts_of w < env.recovery.max_recovery_attempts))
          × (w' ≡ w))

  abbrev pub CheckFailed : Error → World → Type 0
  CheckFailed _ w' = ((w' ≡ w) ⊎ (w' ≡ with_alarm)) × ¬ IsReliable env

  schedule_recovery-Checked :
      (info : RecoverabilityInfo) (stats : RecoveryStats)
      → Needs
      → attempts_of w < env.recovery.max_recovery_attempts
      → Post Checked CheckFailed (schedule_recovery info stats env w)
  unfolding schedule_recovery
  schedule_recovery-Checked info stats needs few = Post-bind _ _ env w (
      Post-now env w (
        Post-bind _ _ env w (
          Post-asks _ env w (
            Post-bind _ _ env w (
              Post-schedule _ env w (
                Post-bind _ _ env _ (
                  Post-put Key.last_recovery_at _ env _
                    (Post-pure _ env _ (inl (refl, needs, few, refl))) (λ _ f. (inr refl, f)))))))))

  attempts_left :
      (info : RecoverabilityInfo) → Needs → Post Checked CheckFailed (check_attempts info env w)
  unfolding check_attempts
  attempts_left info needs = Post-bind _ _ env w (
      Post-mono get_stats-Post
        (λ stats w' s. rw s.3 (
          Post-if stats.max_exceeded _ _ env w
            (λ full.
              Post-pure _ env w
                (inr (refl, (λ (n, few). absurd (omega (arith, s.0.0 full))), refl)))
            (λ room. schedule_recovery-Checked info stats needs (ground (arith, s.0)))))
        (λ e w' f. (inl f.0, f.1)))

  -- Recovery is scheduled exactly where the workflow needs it and has attempts left: the alarm is
  -- then set to the configured delay from now, which is recorded. In every other case nothing
  -- changes. Only a failing storage makes the check fail.
  pub check_and_schedule_recovery-Checked :
      Post Checked CheckFailed (check_and_schedule_recovery env w)
  unfolding check_and_schedule_recovery
  check_and_schedule_recovery-Checked = Post-bind _ _ env w (
      Post-asks _ env w (
        Post-bind _ _ env w (
          Post-mono (check_recoverability-Decides env.recovery.stale_threshold_ms env w)
            (λ info w' d. rw d.1 (
              Post-if info.can_recover _ _ env w (λ needed. attempts_left info (d.0.0 needed))
                (λ fine. Post-pure _ env w (inr (refl, (λ (n, few). cc (d.0.1 n)), refl)))))
            (λ e w' f. (inl f.0, f.1)))))
