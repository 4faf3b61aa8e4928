-- ===== src/Jobs/Services/Alarm.antt =====
-- packages/jobs/src/services/alarm.ts: the alarm of an instance.
use durable_effect.Prelude.{ℕ, ◌+◌, Option}
use durable_effect.Jobs.Bodies.{When}
use durable_effect.Jobs.World.{Eff, ◌>>=◌}
use durable_effect.Jobs.Platform.{set_alarm, delete_alarm, get_alarm, now}

-- The time that `AlarmService.schedule` computes: a number is a timestamp.
unfoldable pub timestamp_of : When → ℕ → ℕ
timestamp_of (When.number n) time = n
timestamp_of (When.date timestamp) time = timestamp
timestamp_of (When.duration ms) time = time + ms

unfoldable pub schedule : When → Eff (Unit {0})
schedule when = do time ← now; set_alarm (timestamp_of when time)

unfoldable pub cancel : Eff (Unit {0})
cancel = delete_alarm

unfoldable pub get_scheduled : Eff (Option ℕ)
get_scheduled = get_alarm
