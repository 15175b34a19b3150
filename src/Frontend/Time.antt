-- ===== src/Frontend/Time.antt =====
-- web/src/frontend/lib/time.ts: `ago`, on the milliseconds of the clock and of the time given.
pub mod Laws
use mesh2mesh.Base.{Text, lit, show, ltb, if◌then◌else◌, ℕ, ◌+◌, ◌-◌, ◌/◌, ◌++◌}

-- `Math.round(n / d)` for d above 0
abbrev pub round_div : ℕ → ℕ → ℕ
round_div n d = (n + d / 2) / d

-- What `ago` says; the text is made of it last.
pub data Ago : Type 0 where
  just_now : Ago
  minutes_ago hours_ago days_ago : ℕ → Ago

abbrev by_hours : ℕ → Ago
by_hours hours = if ltb hours 48 then hours_ago hours else days_ago (round_div hours 24)

abbrev by_minutes : ℕ → Ago
by_minutes mins = if ltb mins 60 then minutes_ago mins else by_hours (round_div mins 60)

abbrev by_seconds : ℕ → Ago
by_seconds secs = if ltb secs 60 then just_now else by_minutes (round_div secs 60)

-- A time that is still to come counts as now: `Math.max(0, …)`, and `-` stops at 0.
pub ago_of : (now time : ℕ) → Ago
ago_of now time = by_seconds (round_div (now - time) 1000)

pub ago_text : Ago → Text
ago_text just_now = lit "just now"
ago_text (minutes_ago n) = show n ++ lit " min ago"
ago_text (hours_ago n) = show n ++ lit " h ago"
ago_text (days_ago n) = show n ++ lit " days ago"

-- `ago(iso)`
unfoldable pub ago : (Text → ℕ) → ℕ → Text → Text
unfolding ago_text ago_of
ago time_of now iso = ago_text (ago_of now (time_of iso))
