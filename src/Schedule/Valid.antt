-- ===== src/Schedule/Valid.antt =====
-- Which schedules are valid.
use dynamic_annotation_contr.Base.{
  ◌≡◌, ◌≢◌, ◌⊎◌, ◌↔◌, ◌<◌, refl, false, none, some, codes, arith, str_eq, str_eq_iff, str_eq_self,
  [],
}
use dynamic_annotation_contr.Api.{Time, ScheduleConfig}
use dynamic_annotation_contr.Schedule.{
  Cron, validate_schedule, validate_date_time_schedule, validate_cron_schedule, check_no_cron,
}

-- A schedule by its times: a start, an end after it if there is one, and nothing of the other type.
abbrev pub IsDateTime : ScheduleConfig → Type 0
IsDateTime s =
    (s.type ≡ codes "datetime")
    × (start : Time) × (s.start_time ≡ some start)
    × ((s.end_time ≡ none) ⊎ ((end : Time) × (s.end_time ≡ some end) × (start < end)))
    × (s.cron_expression ≡ [])
    × (s.action ≡ [])

module _ {S : Type 0} (cron : Cron S) where
  -- A schedule by an expression that the cron library reads, with an action and no times.
  abbrev pub IsCron : ScheduleConfig → Type 0
  IsCron s =
      (s.type ≡ codes "cron")
      × (parsed : S) × (cron.parse s.cron_expression ≡ some parsed)
      × (s.cron_expression ≢ [])
      × ((s.action ≡ codes "apply") ⊎ (s.action ≡ codes "remove"))
      × (s.start_time ≡ none)
      × (s.end_time ≡ none)

IsDateTime-sound :
    (s : ScheduleConfig)
    → s.type ≡ codes "datetime"
    → validate_date_time_schedule s ≡ none
    → IsDateTime s
unfolding validate_date_time_schedule check_no_cron
IsDateTime-sound s ht h = ground arith

date_time_complete : (s : ScheduleConfig) → IsDateTime s → validate_date_time_schedule s ≡ none
unfolding validate_date_time_schedule check_no_cron
date_time_complete s h = ground arith

module _ {S : Type 0} (cron : Cron S) where
  IsCron-sound :
      (s : ScheduleConfig)
      → s.type ≡ codes "cron"
      → validate_cron_schedule cron s ≡ none
      → IsCron cron s
  unfolding validate_cron_schedule
  IsCron-sound s ht h =
      ground (arith, str_eq_iff s.action (codes "apply"), str_eq_iff s.action (codes "remove"))

  cron_complete : (s : ScheduleConfig) → IsCron cron s → validate_cron_schedule cron s ≡ none
  unfolding validate_cron_schedule
  cron_complete s h = ground (arith, str_eq_self (codes "apply"), str_eq_self (codes "remove"))

  -- A schedule is accepted exactly if it is one by times or one by a cron expression.
  pub validate_schedule_iff :
      (s : ScheduleConfig) → (validate_schedule cron s ≡ none) ↔ (IsDateTime s ⊎ IsCron cron s)
  unfolding validate_schedule
  validate_schedule_iff s = (
    λ h. ground (
      arith,
      str_eq_iff s.type (codes "datetime"),
      str_eq_iff s.type (codes "cron"),
      IsDateTime-sound s,
      IsCron-sound s,
    ),
    λ h. ground (
      arith,
      str_eq_iff s.type (codes "datetime"),
      str_eq_iff s.type (codes "cron"),
      date_time_complete s,
      cron_complete s,
      datetime_ne_cron,
    ),
  )
    where
      datetime_ne_cron : str_eq (codes "cron") (codes "datetime") ≡ false
      datetime_ne_cron = unfold str_eq in refl
