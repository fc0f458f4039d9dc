-- ===== src/Schedule.antt =====
-- internal/scheduler/parser.go: when a schedule is due. Each reading of the clock is an argument.
-- The cron library is not part of the repository: it is a parameter.
pub mod Valid
pub mod Execution
use dynamic_annotation_contr.Base.{
  ℕ, ◌+◌, ◌*◌, ◌-◌, ◌^◌, ◌==◌, Bool, true, false, not, ◌&&◌, ◌||◌, Option, none, some, Bytes, codes,
  if◌then◌else◌, ltb, str_eq, is_empty,
}
use dynamic_annotation_contr.Api.{Time, ScheduleConfig}
use dynamic_annotation_contr.Client.{Result, ok, err}

-- cron.Parser and cron.Schedule
pub record Cron (S : Type 0) : Type 0 where
  pub parse : Bytes → Option S
  pub next : S → Time → Time

pub data ScheduleError : Type 0 where
  start_required cron_not_allowed action_not_allowed start_in_past : ScheduleError
  cron_required action_required bad_cron start_not_allowed end_not_allowed : ScheduleError
  no_action_needed : ScheduleError
  invalid_type bad_action unsupported_type : Bytes → ScheduleError
  end_not_after : Time → Time → ScheduleError
  invalid_schedule : ScheduleError → ScheduleError
  -- a read through a nil `StartTime`, which panics
  nil_start_time : ScheduleError

abbrev pub minute : Time
minute = 60 * 10 ^ 9

-- the tests on the fields of the other type of schedule, at the end of validateDateTimeSchedule
unfoldable pub check_no_cron : ScheduleConfig → Option ScheduleError
check_no_cron s =
    if not (is_empty s.cron_expression)
    then some cron_not_allowed
    else if not (is_empty s.action)
    then some action_not_allowed
    else none

unfoldable pub validate_date_time_schedule : ScheduleConfig → Option ScheduleError
validate_date_time_schedule s = elim s.start_time [
  | none ↦ some start_required
  | some start ↦ elim s.end_time [
    | none ↦ check_no_cron s
    | some end ↦ if not (ltb start end) then some (end_not_after end start) else check_no_cron s
  ]
]

unfoldable validate_date_time_schedule_for_creation : ScheduleConfig → Time → Option ScheduleError
validate_date_time_schedule_for_creation s now = elim (validate_date_time_schedule s) [
  | some e ↦ some e
  | none ↦ elim s.start_time [
    | none ↦ some nil_start_time
    | some start ↦ if ltb start (now - minute) then some start_in_past else none
  ]
]

module _ {S : Type 0} (cron : Cron S) where
  unfoldable pub validate_cron_schedule : ScheduleConfig → Option ScheduleError
  validate_cron_schedule s =
      if is_empty s.cron_expression
      then some cron_required
      else if is_empty s.action
      then some action_required
      else if not (str_eq s.action (codes "apply")) && not (str_eq s.action (codes "remove"))
      then some (bad_action s.action)
      else elim (cron.parse s.cron_expression) [
        | none ↦ some bad_cron
        | some p ↦ elim s.start_time [
          | some t ↦ some start_not_allowed
          | none ↦ elim s.end_time [ some t ↦ some end_not_allowed | none ↦ none ]
        ]
      ]

  unfoldable pub validate_schedule : ScheduleConfig → Option ScheduleError
  validate_schedule s =
      if str_eq s.type (codes "datetime")
      then validate_date_time_schedule s
      else if str_eq s.type (codes "cron")
      then validate_cron_schedule s
      else some (invalid_type s.type)

  unfoldable validate_schedule_for_creation : ScheduleConfig → Time → Option ScheduleError
  validate_schedule_for_creation s now =
      if str_eq s.type (codes "datetime")
      then validate_date_time_schedule_for_creation s now
      else if str_eq s.type (codes "cron")
      then validate_cron_schedule s
      else some (invalid_type s.type)

-- `lastExecution != nil && lastExecution.Equal(startTime)`
abbrev executed_at : Option Time → Time → Bool
executed_at none start = false
executed_at (some t) start = t == start

abbrev is_nil : Option Time → Bool
is_nil none = true
is_nil (some t) = false

unfoldable pub calculate_date_time_next_execution :
    ScheduleConfig → Option Time → Time → Result ScheduleError (Option Time)
calculate_date_time_next_execution s last_execution now = elim s.start_time [
  | none ↦ err nil_start_time
  | some start ↦
      if is_nil last_execution && ltb now start then ok (some start) else elim s.end_time [
        | none ↦ ok none
        | some end ↦
            if executed_at last_execution start && ltb now end then ok (some end) else ok none
      ]
]

module _ {S : Type 0} (cron : Cron S) where
  pub calculate_cron_next_execution :
      ScheduleConfig → Option Time → Time → Result ScheduleError (Option Time)
  calculate_cron_next_execution s last_execution now =
      let base : Time = elim last_execution [ none ↦ now | some t ↦ t ] in
      elim (cron.parse s.cron_expression) [
        | none ↦ err bad_cron
        | some p ↦ ok (some (cron.next p base))
      ]

  unfoldable pub calculate_next_execution :
      ScheduleConfig → Option Time → Time → Result ScheduleError (Option Time)
  calculate_next_execution s last_execution now = elim (validate_schedule cron s) [
    | some e ↦ err (invalid_schedule e)
    | none ↦
        if str_eq s.type (codes "datetime")
        then calculate_date_time_next_execution s last_execution now
        else if str_eq s.type (codes "cron")
        then calculate_cron_next_execution s last_execution now
        else err (unsupported_type s.type)
  ]

-- The phases as the texts that the status shows.
pub data Phase : Type 0 where
  pending active completed failed : Phase

get_date_time_phase : ScheduleConfig → Time → Result ScheduleError Phase
get_date_time_phase s now = elim s.start_time [
  | none ↦ err nil_start_time
  | some start ↦ if ltb now start then ok pending else elim s.end_time [
    | some end ↦
        if ltb end now
        then ok completed
        else if ltb start now && ltb now end
        then ok active
        else ok active
    | none ↦ if ltb start now then ok completed else ok active
  ]
]

module _ {S : Type 0} (cron : Cron S) where
  -- The phase and the error, both of which the code returns.
  pub get_schedule_phase : ScheduleConfig → Time → Phase × Option ScheduleError
  get_schedule_phase s now = elim (validate_schedule cron s) [
    | some e ↦ (failed, some e)
    | none ↦
        if str_eq s.type (codes "datetime")
        then (elim (get_date_time_phase s now) [ ok p ↦ (p, none) | err e ↦ (failed, some e) ])
        else if str_eq s.type (codes "cron")
        then (active, none)
        else (failed, some (unsupported_type s.type))
  ]

  -- `now` is read by the calculation, and `later` by the test.
  unfoldable is_time_to_execute :
      ScheduleConfig → Option Time → Time → Time → Result ScheduleError Bool
  is_time_to_execute s last_execution now later =
      elim (calculate_next_execution cron s last_execution now) [
        | err e ↦ err e
        | ok none ↦ ok false
        | ok (some t) ↦ ok (ltb t (later + minute))
      ]

unfoldable pub get_date_time_action : ScheduleConfig → Option Time → Result ScheduleError Bytes
get_date_time_action s last_execution = elim s.start_time [
  | none ↦ err nil_start_time
  | some start ↦ if is_nil last_execution then ok (codes "apply") else elim s.end_time [
    | none ↦ err no_action_needed
    | some end ↦
        if executed_at last_execution start then ok (codes "remove") else err no_action_needed
  ]
]

unfoldable pub get_execution_action : ScheduleConfig → Option Time → Result ScheduleError Bytes
get_execution_action s last_execution =
    if str_eq s.type (codes "datetime")
    then get_date_time_action s last_execution
    else if str_eq s.type (codes "cron")
    then ok s.action
    else err (unsupported_type s.type)
