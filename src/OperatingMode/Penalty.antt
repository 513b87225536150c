-- ===== src/OperatingMode/Penalty.antt =====
-- The failure streaks and cooldowns of cs_operating_mode.cpp over any sequence of operations.
use arachnopod.Base.{ℕ, zero, suc, ◌+◌, ◌-◌, Bool, List, [], ◌∷◌}
use arachnopod.Base.{
  Bool-cases, ap, ◌∙◌, ◌≡◌, refl, inl, inr, ◌==◌, arith, length, get_or, set, length-set,
}
use arachnopod.Scheduler.Types.{Target, CompletionResult, Completion, target_index}
use arachnopod.OperatingMode.{
  ModeState, target_count, clear_target_state, remember_result, valid_background_target,
  on_exchange_success, on_exchange_failure, take_completion, update_completion_feedback,
  tick_cooldown, tick_loop, tick_cooldowns, step, clear_focus_target, set_focus_target,
  set_background_target_enabled, reset,
}
use arachnopod.OperatingMode.Fair.{
  IsFair, AreFair, IsFair-penalty, IsFair-zero, AreFair-set, AreFair-zeros, AreFair-set_right,
  IsFair-last, IsFair-tick,
}

-- Every target's streak and cooldown belong together.
pub record IsSound (s : ModeState) : Type 0 where
  pub streaks : length s.failure_streak ≡ target_count
  pub cooldowns : length s.cooldown_ticks ≡ target_count
  pub fair : AreFair s.failure_streak s.cooldown_ticks

IsSound-set :
    (s s' : ModeState) (i a b : ℕ)
    → s'.failure_streak ≡ set s.failure_streak i a
    → s'.cooldown_ticks ≡ set s.cooldown_ticks i b
    → IsSound s
    → IsFair a b
    → IsSound s'
IsSound-set s s' i a b ea eb h f = record {
  streaks = ap length ea ∙ length-set s.failure_streak i a ∙ h.streaks;
  cooldowns = ap length eb ∙ length-set s.cooldown_ticks i b ∙ h.cooldowns;
  fair =
      rw (ea, eb)
        (AreFair-set s.failure_streak s.cooldown_ticks i a b (omega (arith, h.streaks, h.cooldowns))
          h.fair f);
}

clear-IsSound : (t : Target) (s : ModeState) → IsSound s → IsSound (clear_target_state t s)
unfolding clear_target_state
clear-IsSound t s h =
    IsSound-set s (clear_target_state t s) (target_index t) 0 0 refl refl h IsFair-zero

failure-IsSound :
    (t : Target) (r : CompletionResult) (s : ModeState)
    → IsSound s
    → IsSound (on_exchange_failure t r s)
unfolding on_exchange_failure remember_result
failure-IsSound t r s h =
    let i = target_index t in
    let a = get_or s.failure_streak i 0 in
    let b = get_or s.cooldown_ticks i 0 in
    let f = IsFair-penalty r a b (h.fair i) in
    elim (Bool-cases (valid_background_target t)) [
      | inr e ↦ simp e h
      | inl e ↦ simp e (IsSound-set s _ i _ _ refl refl h f)
    ]

success-IsSound : (t : Target) (s : ModeState) → IsSound s → IsSound (on_exchange_success t s)
unfolding on_exchange_success clear_target_state remember_result
success-IsSound t s h = elim (Bool-cases (valid_background_target t)) [
  | inr e ↦ simp e h
  | inl e ↦ simp e (IsSound-set s _ (target_index t) 0 0 refl refl h IsFair-zero)
]

take_completion-IsSound :
    (c : Completion) (s : ModeState) → IsSound s → IsSound (take_completion c s)
unfolding take_completion
take_completion-IsSound c s h =
    ground (arith, success-IsSound c.target s h, failure-IsSound c.target c.result s h)

feedback-IsSound :
    (cs : List Completion) (s : ModeState) → IsSound s → IsSound (update_completion_feedback cs s)
unfolding update_completion_feedback
feedback-IsSound [] s h = h
feedback-IsSound (c ∷ cs) s h =
    feedback-IsSound cs (take_completion c s) (take_completion-IsSound c s h)

IsSound-set_cooldown :
    (s s' : ModeState) (i b : ℕ)
    → s'.failure_streak ≡ s.failure_streak
    → s'.cooldown_ticks ≡ set s.cooldown_ticks i b
    → IsSound s
    → IsFair (get_or s.failure_streak i 0) b
    → IsSound s'
IsSound-set_cooldown s s' i b ea eb h f = record {
  streaks = ap length ea ∙ h.streaks;
  cooldowns = ap length eb ∙ length-set s.cooldown_ticks i b ∙ h.cooldowns;
  fair =
      rw (ea, eb)
        (AreFair-set_right s.failure_streak s.cooldown_ticks i b
          (omega (arith, h.streaks, h.cooldowns)) h.fair f);
}

tick_cooldown-IsSound : (i : ℕ) (s : ModeState) → IsSound s → IsSound (tick_cooldown i s)
unfolding tick_cooldown
tick_cooldown-IsSound i s h =
    let a = get_or s.failure_streak i 0 in
    let b = get_or s.cooldown_ticks i 0 in
    elim (Bool-cases (b == 0)) [
      | inl e ↦ simp e h
      | inr e ↦ elim (Bool-cases (b - 1 == 0)) [
        | inl e' ↦
            simp (e, e')
              (IsSound-set s _ i 0 (b - 1) refl refl h
                (IsFair-last a b (h.fair i) (ground arith) (ground arith)))
        | inr e' ↦
            simp (e, e')
              (IsSound-set_cooldown s _ i (b - 1) refl refl h
                (IsFair-tick a b (h.fair i) (ground arith) (ground arith)))
      ]
    ]

tick_loop-IsSound : (n i : ℕ) (s : ModeState) → IsSound s → IsSound (tick_loop n i s)
unfolding tick_loop
tick_loop-IsSound zero i s h = h
tick_loop-IsSound (suc n) i s h =
    tick_loop-IsSound n (i + 1) (tick_cooldown i s) (tick_cooldown-IsSound i s h)

step-IsSound :
    (completions : List Completion) (s : ModeState) → IsSound s → IsSound (step completions s).0
unfolding step tick_cooldowns
step-IsSound completions s h =
    tick_loop-IsSound target_count 0 (update_completion_feedback completions s)
      (feedback-IsSound completions s h)

set_focus-IsSound : (t : Target) (s : ModeState) → IsSound s → IsSound (set_focus_target t s).1
unfolding set_focus_target
set_focus-IsSound t s h = ground (
  arith,
  clear-IsSound t (record s { focus = t })
      (record { streaks = h.streaks; cooldowns = h.cooldowns; fair = h.fair }),
)

-- An operation of the control console or of the cyclogram on the operating mode.
pub data Operation : Type 0 where
  focus_on : Target → Operation
  enable_background : Target → Bool → Operation
  unfocus : Operation
  one_step : List Completion → Operation

pub apply_operation : Operation → ModeState → ModeState
apply_operation (focus_on t) s = (set_focus_target t s).1
apply_operation (enable_background t b) s = (set_background_target_enabled t b s).1
apply_operation unfocus s = clear_focus_target s
apply_operation (one_step cs) s = (step cs s).0

pub run_operations : List Operation → ModeState → ModeState
run_operations [] s = s
run_operations (o ∷ os) s = run_operations os (apply_operation o s)

background-IsSound :
    (t : Target) (b : Bool) (s : ModeState)
    → IsSound s
    → IsSound (set_background_target_enabled t b s).1
unfolding set_background_target_enabled
background-IsSound t b s h =
    let s' = record s { background_enabled = set s.background_enabled (target_index t) b } in
    let same : IsSound s' = record {
      streaks = h.streaks;
      cooldowns = h.cooldowns;
      fair = h.fair;
    } in
    ground (arith, clear-IsSound t s' same)

reset-IsSound : IsSound reset
unfolding reset
reset-IsSound = record { streaks = refl; cooldowns = refl; fair = AreFair-zeros 7 }

apply_operation-IsSound :
    (o : Operation) (s : ModeState) → IsSound s → IsSound (apply_operation o s)
unfolding apply_operation clear_focus_target
apply_operation-IsSound (focus_on t) s h = set_focus-IsSound t s h
apply_operation-IsSound (enable_background t b) s h = background-IsSound t b s h
apply_operation-IsSound unfocus s h = record {
  streaks = h.streaks;
  cooldowns = h.cooldowns;
  fair = h.fair;
}
apply_operation-IsSound (one_step cs) s h = step-IsSound cs s h

run_operations-IsSound_from :
    (os : List Operation) (s : ModeState) → IsSound s → IsSound (run_operations os s)
unfolding run_operations
run_operations-IsSound_from [] s h = h
run_operations-IsSound_from (o ∷ os) s h =
    run_operations-IsSound_from os (apply_operation o s) (apply_operation-IsSound o s h)

-- After any sequence of operations on the reset mode (focus, background, steps with any list of
-- completions), every target's failure streak is at most 255 and its cooldown at most 160, a
-- target without a cooldown has fewer than three failures in a row, and one with a cooldown has
-- at least one.
pub run_operations-IsSound : (os : List Operation) → IsSound (run_operations os reset)
run_operations-IsSound os = run_operations-IsSound_from os reset reset-IsSound
