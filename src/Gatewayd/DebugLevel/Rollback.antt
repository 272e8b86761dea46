-- ===== src/Gatewayd/DebugLevel/Rollback.antt =====
-- How long a level stays.
use acp_a2a_gateway.Prelude.{
  ℕ, ◌+◌, ◌*◌, ◌≤◌, ◌<◌, String, ◌≡◌, refl, inl, inr, Bool, true, false, ◌||◌, Bool-cases, List, [],
  ◌∷◌, ◌++◌, leb, ltb, ◌==◌, contains, keep, arith,
}
use acp_a2a_gateway.Gatewayd.DebugLevel.{
  DebugLevelState, valid_levels, is_raised, schedule, apply_level, change_level, roll_back,
  roll_back_all, wake,
}

-- The level is changed at a time, or the tasks run that are due until then.
pub data Step : Type 0 where
  set_to : (now : ℕ) (level : String) → Step
  woken : (now : ℕ) → Step

-- The handle can change the filter.
unfoldable pub step : Step → DebugLevelState → DebugLevelState
unfolding change_level wake
step (set_to now level) s = (change_level true now level s).1
step (woken now) s = wake true now s

unfoldable pub run : List Step → DebugLevelState → DebugLevelState
unfolding step
run [] s = s
run (st ∷ steps) s = run steps (step st s)

-- The tasks that run by then are due before `due`.
abbrev pub IsBefore : (due : ℕ) → List Step → Type 0
IsBefore due [] = Unit {0}
IsBefore due (set_to now level ∷ steps) = IsBefore due steps
IsBefore due (woken now ∷ steps) = (now < due) × IsBefore due steps

abbrev is_planned : ℕ → List ℕ → Bool
is_planned due [] = false
is_planned due (d ∷ dues) = d == due || is_planned due dues

is_planned-append :
    (due : ℕ) (xs ys : List ℕ) → is_planned due xs ≡ true → is_planned due (xs ++ ys) ≡ true
is_planned-append due [] ys h = absurd (ground arith)
is_planned-append due (x ∷ xs) ys h = ground (arith, is_planned-append due xs ys)

is_planned_last : (due : ℕ) (xs : List ℕ) → is_planned due (xs ++ (due ∷ [])) ≡ true
is_planned_last due [] = ground arith
is_planned_last due (x ∷ xs) = ground (arith, is_planned_last due xs)

is_planned-keep :
    (due now : ℕ) (xs : List ℕ)
    → now < due
    → is_planned due xs ≡ true
    → is_planned due (keep (λ d. ltb now d) xs) ≡ true
is_planned-keep due now [] b h = absurd (ground arith)
is_planned-keep due now (x ∷ xs) b h = ground (arith, is_planned-keep due now xs b)

change_level_planned :
    (due now : ℕ) (level : String) (s : DebugLevelState)
    → is_planned due s.rollbacks ≡ true
    → is_planned due (change_level true now level s).1.rollbacks ≡ true
unfolding change_level apply_level schedule
change_level_planned due now level s h =
    ground (arith, is_planned-append due s.rollbacks ((now + s.ttl_minutes * 60) ∷ []) h)

roll_back_all_rollbacks :
    (dues : List ℕ) (s : DebugLevelState) → (roll_back_all true dues s).rollbacks ≡ s.rollbacks
unfolding roll_back_all roll_back
roll_back_all_rollbacks [] s = refl
roll_back_all_rollbacks (due ∷ dues) s = roll_back_all_rollbacks dues (roll_back true s)

run_planned :
    (due : ℕ) (steps : List Step) (s : DebugLevelState)
    → IsBefore due steps
    → is_planned due s.rollbacks ≡ true
    → is_planned due (run steps s).rollbacks ≡ true
unfolding run step wake
run_planned due [] s b h = h
run_planned due (set_to now level ∷ steps) s b h =
    run_planned due steps (change_level true now level s).1 b
      (change_level_planned due now level s h)
run_planned due (woken now ∷ steps) s b h = run_planned due steps (wake true now s) b.1 (
    rw
      (roll_back_all_rollbacks (keep (λ d. leb d now) s.rollbacks)
        (record s { rollbacks = keep (λ d. ltb now d) s.rollbacks }))
      (is_planned-keep due now s.rollbacks b.0 h))

-- The level and the filter are those of `info`.
abbrev pub IsInfo : DebugLevelState → Type 0
IsInfo s = (s.current ≡ "info") × (s.filter ≡ "info")

roll_back_all-IsInfo :
    (dues : List ℕ) (s : DebugLevelState) → IsInfo s → IsInfo (roll_back_all true dues s)
unfolding roll_back_all roll_back
roll_back_all-IsInfo [] s h = h
roll_back_all-IsInfo (due ∷ dues) s h = roll_back_all-IsInfo dues (roll_back true s) (refl, refl)

wake_planned :
    (due : ℕ) (dues : List ℕ) (s : DebugLevelState)
    → is_planned due dues ≡ true
    → IsInfo (roll_back_all true (keep (λ d. leb d due) dues) s)
unfolding roll_back_all roll_back
wake_planned due [] s h = absurd (ground arith)
wake_planned due (d ∷ dues) s h = elim (Bool-cases (leb d due)) [
  | inl y ↦ rw y (roll_back_all-IsInfo (keep (λ e. leb e due) dues) (roll_back true s) (refl, refl))
  | inr n ↦ rw n (wake_planned due dues s (ground arith))
]

change_level_plans :
    (now : ℕ) (level : String) (s : DebugLevelState)
    → contains level valid_levels ≡ true
    → is_raised level ≡ true
    → 1 ≤ s.ttl_minutes
    → is_planned (now + s.ttl_minutes * 60) (change_level true now level s).1.rollbacks ≡ true
unfolding change_level apply_level schedule
change_level_plans now level s v r ttl =
    rw v (ground (arith, is_planned_last (now + s.ttl_minutes * 60) s.rollbacks))

-- A raised level, `debug` or `trace`, is over when its time is: whatever levels are set in
-- between, and whichever earlier tasks have run, the level and the filter are those of `info`
-- then. That takes back a level that was set later as well, also one that was not to be taken
-- back, or not yet.
pub raised_level_ends :
    (now : ℕ) (level : String) (steps : List Step) (s : DebugLevelState)
    → contains level valid_levels ≡ true
    → is_raised level ≡ true
    → 1 ≤ s.ttl_minutes
    → IsBefore (now + s.ttl_minutes * 60) steps
    → IsInfo (step (woken (now + s.ttl_minutes * 60)) (run steps (step (set_to now level) s)))
unfolding step wake
raised_level_ends now level steps s v r ttl b = wake_planned (now + s.ttl_minutes * 60) _ _ (
    run_planned (now + s.ttl_minutes * 60) steps (change_level true now level s).1 b
      (change_level_plans now level s v r ttl))
