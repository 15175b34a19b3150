-- ===== src/Frontend/Time/Laws.antt =====
-- How exact `ago` of web/src/frontend/lib/time.ts is.
use mesh2mesh.Base.{ℕ, ◌+◌, ◌-◌, ◌*◌, ◌≤◌, ◌<◌, arith}
use mesh2mesh.Frontend.Time.{Ago, just_now, minutes_ago, hours_ago, days_ago, ago_of}

-- What an age in milliseconds must be for what is said of it.
abbrev pub Fits : ℕ → Ago → Type 0
Fits age just_now = age < 59500
Fits age (minutes_ago n) =
    (1 ≤ n) × (n ≤ 59) × (n * 60000 ≤ age + 30500) × (age < n * 60000 + 30500)
Fits age (hours_ago n) =
    (1 ≤ n) × (n ≤ 47) × (n * 3600000 ≤ age + 1830500) × (age < n * 3600000 + 1830500)
Fits age (days_ago n) = (2 ≤ n) × (n * 86400000 ≤ age + 45030500) × (age < n * 86400000 + 45030500)

-- The text names an age that is right to half its unit, and the roundings before it: "just now"
-- is below a minute, minutes go from 1 to 59, hours from 1 to 47, and days start at 2.
pub ago_of-Fits : (now time : ℕ) → Fits (now - time) (ago_of now time)
unfolding ago_of
ago_of-Fits now time = ground arith
