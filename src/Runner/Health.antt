-- ===== src/Runner/Health.antt =====
-- lib-aerial-go/health: the probe that runs in the background and the endpoints that report it.
-- `none` for a probe is the nil probe; the results of its runs are a list, one for each tick.
pub mod Report
use aerial_ran_platform.Base.{
  ℕ, String, Bool, true, false, Option, none, some, List, [], ◌∷◌, ◌≡◌, refl, if◌then◌else◌,
}
use aerial_ran_platform.Respond.{Response, json}

pub record Checker : Type 0 where
  pub healthy : Bool

-- `c.check`: whether the probe returned nil.
abbrev pub check : Option Bool → Checker → Checker
check none c = record { healthy = true }
check (some passed) c = record { healthy = passed }

-- The goroutine's loop over the ticks.
abbrev pub ticks : List (Option Bool) → Checker → Checker
ticks [] c = c
ticks (p ∷ ps) c = ticks ps (check p c)

-- The state after `Start` and the first runs of the probe.
unfoldable pub start : List (Option Bool) → Checker
start ps = ticks ps (record { healthy = false })

unfoldable pub handler : {S : Type 0} → Checker → Response S String
handler c = if c.healthy then json 200 "ok" else json 503 "unhealthy"
