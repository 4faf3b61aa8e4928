-- ===== src/Jobs/Debounce/Sequences.antt =====
-- Sequences of events of a debounce that does not become full, on a platform that does not fail.
use durable_effect.Prelude.{
  ℕ, ◌+◌, ◌≤◌, ◌≡◌, refl, ◌∙◌, false, Option, none, some, List, [], ◌∷◌, length, arith,
}
use durable_effect.Jobs.Bodies.{Checked, valid, invalid, DebounceDefinition}
use durable_effect.Jobs.World.{JobMetadata, JobWorld, JobEnv, IsReliable}
use durable_effect.Jobs.Retry.Exhaustion.{later}
use durable_effect.Jobs.Debounce.{DebounceRequest, is_full, handle_add}
use durable_effect.Jobs.Debounce.Collecting.{
  Codec, Collected, nothing, absorb, absorb_checked, first_alarm, Models, add_existing, add_first,
}

-- Each request comes some time after the last, and its outcome is not looked at.
pub adds : JobEnv → DebounceDefinition → List (ℕ × DebounceRequest) → JobWorld → JobWorld
adds env def [] w = w
adds env def ((wait, request) ∷ rs) w =
    adds env def rs (handle_add def request env (later wait w)).1

-- the events collected one after the other
abbrev pub collect :
    JobEnv → DebounceDefinition → List (ℕ × DebounceRequest) → Collected → Collected
collect env def [] c = c
collect env def ((wait, request) ∷ rs) c = collect env def rs (absorb env def c request.event)

-- a debounce that is not full was not full before
is_full_mono : (o : Option ℕ) (m n : ℕ) → m ≤ n → is_full o n ≡ false → is_full o m ≡ false
unfolding is_full
is_full_mono none m n h e = refl
is_full_mono (some k) m n h e = ground arith

absorb-count :
    (env : JobEnv) (def : DebounceDefinition) (c : Collected) (checked : Checked)
    → (absorb_checked env def c checked).count ≤ c.count + 1
absorb-count env def c (valid e) = omega arith
absorb-count env def c (invalid e) = omega arith

module _ (env : JobEnv) (reliable : IsReliable env) (def : DebounceDefinition)
    (codec : Codec def.state_schema) where
  -- the instance keeps its alarm, its metadata and its start, and collects the events
  pub adds-Kept :
      (rs : List (ℕ × DebounceRequest)) (c : Collected) (m : JobMetadata) (w : JobWorld)
      → w.store.meta ≡ some m
      → Models codec c w.store
      → is_full def.max_events (c.count + length rs) ≡ false
      → Models codec (collect env def rs c) (adds env def rs w).store
        × ((adds env def rs w).scheduled_time ≡ w.scheduled_time)
        × ((adds env def rs w).store.meta ≡ w.store.meta)
        × ((adds env def rs w).store.started_at ≡ w.store.started_at)
  unfolding adds
  adds-Kept [] c m w p k full = (k, refl, refl, refl)
  adds-Kept ((wait, request) ∷ rs) c m w p k full =
      let one =
        add_existing env reliable def codec request c m _ (later wait w) p k
          (is_full_mono def.max_events (c.count + 1) (c.count + length ((wait, request) ∷ rs))
            (omega arith) full)
          refl in
      let rest =
        adds-Kept rs (absorb env def c request.event) m
          (handle_add def request env (later wait w)).1 (one.meta ∙ p) one.models
          (is_full_mono def.max_events _ (c.count + length ((wait, request) ∷ rs))
            (omega (arith, absorb-count env def c (def.event_schema.decode request.event))) full) in
      (rest.0, rest.1 ∙ one.alarm, rest.2 ∙ one.meta, rest.3 ∙ one.started)

  -- On a platform that does not fail, with a schema of the state that reads back what it writes, a
  -- debounce that does not become full holds, after any sequence of events at any times, the fold of
  -- its reducer over the events that its schema accepts, and their number. Its alarm is set once, by
  -- the first event, and only if that event is accepted: where the first event is refused, no later
  -- event sets the alarm.
  pub adds-collect :
      (wait : ℕ) (request : DebounceRequest) (rs : List (ℕ × DebounceRequest)) (w : JobWorld)
      → w.store.meta ≡ none
      → w.store.state ≡ none
      → is_full def.max_events (1 + length rs) ≡ false
      → let w' = adds env def ((wait, request) ∷ rs) w in
        Models codec (collect env def ((wait, request) ∷ rs) nothing) w'.store
        × (w'.scheduled_time
            ≡ first_alarm def (later wait w) (def.event_schema.decode request.event))
        × (w'.store.started_at ≡ some (w.current_time + wait))
  unfolding adds
  adds-collect wait request rs w p q full =
      let first =
        add_first env reliable def codec request _ (later wait w) p q
          (is_full_mono def.max_events 1 (1 + length rs) (omega arith) full) refl in
      let rest =
        adds-Kept rs (absorb env def nothing request.event) first.meta.0
          (handle_add def request env (later wait w)).1 first.meta.1 first.models
          (is_full_mono def.max_events _ (1 + length rs)
            (omega (arith, absorb-count env def nothing (def.event_schema.decode request.event)))
            full) in
      (rest.0, rest.1 ∙ first.alarm, rest.3 ∙ first.started)
