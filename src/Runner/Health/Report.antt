-- ===== src/Runner/Health/Report.antt =====
-- What the health endpoint reports after any runs of the probe.
use aerial_ran_platform.Base.{
  Bool, true, false, Option, none, some, List, [], ◌∷◌, ◌++◌, ◌≡◌, refl, if◌then◌else◌,
}
use aerial_ran_platform.Respond.{json}
use aerial_ran_platform.Runner.Health.{Checker, check, ticks, start, handler}

-- Whether a run of the probe counts as healthy; the nil probe always does.
abbrev pub is_ok : Option Bool → Bool
is_ok none = true
is_ok (some passed) = passed

last_tick :
    (ps : List (Option Bool)) (p : Option Bool) (c : Checker)
    → ticks (ps ++ (p ∷ [])) c ≡ record { healthy = is_ok p }
last_tick [] none c = refl
last_tick [] (some b) c = refl
last_tick (q ∷ ps) p c = last_tick ps p (check q c)

-- Before the first run of the probe the endpoint answers 503; after any runs it answers by the
-- latest alone, 200 when that run passed or there is no probe, and 503 otherwise: one run that
-- passes makes a service ready again, whatever failed before.
pub latest_run_is_reported :
    {S : Type 0} (ps : List (Option Bool)) (p : Option Bool)
    → (handler {S = S} (start []) ≡ json 503 "unhealthy")
      × (handler {S = S} (start (ps ++ (p ∷ [])))
          ≡ (if is_ok p then json 200 "ok" else json 503 "unhealthy"))
unfolding start handler
latest_run_is_reported ps p = (refl, rw (last_tick ps p (record { healthy = false })) refl)
