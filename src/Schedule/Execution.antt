-- ===== src/Schedule/Execution.antt =====
-- When a schedule is due, and what is due then.
use dynamic_annotation_contr.Base.{
  ℕ, ◌≡◌, ◌≢◌, ◌⊎◌, ◌↔◌, ◌<◌, ◌≤◌, refl, false, Option, none, some, Bytes, codes, arith, str_eq,
  str_eq_self,
}
use dynamic_annotation_contr.Api.{Time, ScheduleConfig}
use dynamic_annotation_contr.Client.{Result, ok, err}
use dynamic_annotation_contr.Schedule.{
  Cron, ScheduleError, Phase, pending, active, completed, nil_start_time, validate_schedule,
  validate_date_time_schedule, calculate_next_execution, calculate_cron_next_execution,
  calculate_date_time_next_execution, get_date_time_phase, get_date_time_action,
  get_execution_action, get_schedule_phase,
}

datetime_ne_cron : str_eq (codes "cron") (codes "datetime") ≡ false
datetime_ne_cron = unfold str_eq in refl

-- What a schedule by times asks for at `t`: the annotations are applied when the start is reached,
-- and removed when the end is.
abbrev IsPlanned : ScheduleConfig → Time → Bytes → Type 0
IsPlanned s t action =
    ((s.start_time ≡ some t) × (action ≡ codes "apply"))
    ⊎ ((s.end_time ≡ some t) × (action ≡ codes "remove"))

-- The first of the planned times that lie ahead.
abbrev pub IsNextPlanned : ScheduleConfig → Time → Time → Bytes → Type 0
IsNextPlanned s now t action =
    IsPlanned s t action
    × (now < t)
    × ((later : Time) (other : Bytes) → IsPlanned s later other → now < later → t ≤ later)

-- An execution lies in the past.
abbrev IsPast : Option Time → Time → Type 0
IsPast none now = Unit
IsPast (some executed) now = executed ≤ now

-- What the code asks of the last execution besides: none before the start, and before the end one at
-- the start itself.
abbrev pub IsInSequence : ScheduleConfig → Option Time → Bytes → Type 0
IsInSequence s last action =
    ((action ≡ codes "apply") × (last ≡ none))
    ⊎ ((action ≡ codes "remove") × (last ≢ none) × (last ≡ s.start_time))

apply_ne_remove : codes "apply" ≢ codes "remove"
apply_ne_remove e = cc

module _ {S : Type 0} (cron : Cron S) where
  -- A planned time that is computed comes before every other one that lies ahead.
  computed_first :
      (s : ScheduleConfig) (last : Option Time) (now t later : Time) (other : Bytes)
      → s.type ≡ codes "datetime"
      → validate_schedule cron s ≡ none
      → IsPast last now
      → calculate_next_execution cron s last now ≡ ok (some t)
      → IsPlanned s later other
      → now < later
      → t ≤ later
  unfolding validate_schedule validate_date_time_schedule calculate_next_execution
      calculate_date_time_next_execution
  computed_first s none now t later other ht hv hp h p hl =
      ground (arith, str_eq_self (codes "datetime"))
  computed_first s (some executed) now t later other ht hv hp h p hl =
      ground (arith, str_eq_self (codes "datetime"))

  -- For a valid schedule by times whose last execution lies in the past: what is computed, a time
  -- and the action determined for it, is the first of the planned times that lie ahead, with what is
  -- planned for it. That one is computed exactly if, when it is the start, nothing was executed
  -- before, and, when it is the end, the last execution was at the start itself; otherwise the code
  -- passes over it, although the schedule asks for it.
  pub calculate_next_execution-IsNextPlanned :
      (s : ScheduleConfig) (last : Option Time) (now t : Time) (action : Bytes)
      → s.type ≡ codes "datetime"
      → validate_schedule cron s ≡ none
      → IsPast last now
      → ((calculate_next_execution cron s last now ≡ ok (some t))
          × (get_execution_action s last ≡ ok action))
        ↔ (IsNextPlanned s now t action × IsInSequence s last action)
  unfolding validate_schedule validate_date_time_schedule calculate_next_execution
      calculate_date_time_next_execution get_execution_action get_date_time_action
  calculate_next_execution-IsNextPlanned s last now t action ht hv hp = (
    λ h. (
      (
        ground (arith, str_eq_self (codes "datetime")),
        ground (arith, str_eq_self (codes "datetime")),
        λ later other. computed_first s last now t later other ht hv hp h.0,
      ),
      ground (arith, str_eq_self (codes "datetime")),
    ),
    λ h. ground (arith, apply_ne_remove, str_eq_self (codes "datetime")),
  )

  -- For a valid schedule by times, a start that has passed before any execution is never executed:
  -- from then on nothing is due, neither the start nor the end.
  missed_start_never_due :
      (s : ScheduleConfig) (start now : Time)
      → s.type ≡ codes "datetime"
      → validate_schedule cron s ≡ none
      → s.start_time ≡ some start
      → start ≤ now
      → calculate_next_execution cron s none now ≡ ok none
  unfolding validate_schedule calculate_next_execution calculate_date_time_next_execution
  missed_start_never_due s start now ht hv hs h = ground (arith, str_eq_self (codes "datetime"))

  -- For a valid schedule by times, after an execution that was recorded at any instant other than
  -- the start itself nothing is due any more, at any time: the end is never executed.
  pub late_start_never_ends :
      (s : ScheduleConfig) (start executed now : Time)
      → s.type ≡ codes "datetime"
      → validate_schedule cron s ≡ none
      → s.start_time ≡ some start
      → executed ≢ start
      → calculate_next_execution cron s (some executed) now ≡ ok none
  unfolding validate_schedule calculate_next_execution calculate_date_time_next_execution
  late_start_never_ends s start executed now ht hv hs h =
      ground (arith, str_eq_self (codes "datetime"))

  -- After validation nothing is read through a nil start time.
  validated_never_panics :
      (s : ScheduleConfig) (last : Option Time) (now : Time)
      → validate_schedule cron s ≡ none
      → (calculate_next_execution cron s last now ≢ err nil_start_time)
        × (get_execution_action s last ≢ err nil_start_time)
        × ((get_schedule_phase cron s now).1 ≡ none)
  unfolding validate_schedule validate_date_time_schedule calculate_next_execution
      calculate_cron_next_execution calculate_date_time_next_execution get_execution_action
      get_date_time_action get_schedule_phase get_date_time_phase
  validated_never_panics s last now h = ground arith

-- pending, then active, then completed
abbrev rank : Result ScheduleError Phase → ℕ
rank (ok pending) = 0
rank (ok active) = 1
rank (ok completed) = 2
rank _ = 3

-- The phase of a schedule by times never goes back as time goes on.
phase_monotone :
    (s : ScheduleConfig) (now later : Time)
    → now ≤ later
    → rank (get_date_time_phase s now) ≤ rank (get_date_time_phase s later)
unfolding get_date_time_phase
phase_monotone s now later h = ground arith
