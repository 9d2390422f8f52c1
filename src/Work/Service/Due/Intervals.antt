-- ===== src/Work/Service/Due/Intervals.antt =====
-- The next time of a recurring schedule (`nextRunAtForSchedule` of src/work/work-service.ts).
use mathlib.Core.Option.{some-injective}
use tiny_office.Prelude.{
  subst, ◌+◌, ◌≡◌, refl, ◌≤◌, ◌<◌, Bool, true, false, Option, none, some, leb, arith, Bool-cases,
  inl, inr, if◌then◌else◌,
}
use tiny_office.Prelude.Exec.{ok, err, choose, guard, pure, ◌>>=◌}
use tiny_office.Work.Domain.{
  Timestamp, Interval, last_date, is_zero_interval, ScheduleRecord, is_recurring,
}
use tiny_office.Work.Repository.{Repository}
use tiny_office.Work.Environment.{Environment, invalid_date}
use tiny_office.Work.Service.{
  rule_interval, plus_interval, iso_of, next_after, next_run_at_for_schedule,
}

-- `t` is the interval of the schedule after `due`, to within the rounding of a part of a millisecond.
pub record IsNextTime (c : ScheduleRecord) (due t : Timestamp) : Type 0 where
  pub interval : Interval
  pub ruled : rule_interval c.schedule_rule ≡ some interval
  pub least : due + interval.whole ≤ t
  pub most : t ≤ due + interval.whole + 1
  pub exact : interval.fraction ≡ 0 → t ≡ due + interval.whole

bit : (b : Bool) → (if b then 1 else 0) ≤ 1
bit b = ground arith

within : (t : Timestamp) → t ≤ last_date → leb t last_date ≡ true
within t h = ground arith

module _ (env : Environment) (c : ScheduleRecord) (due : Timestamp) where
  plus_interval-IsNextTime :
      (i : Interval)
      → rule_interval c.schedule_rule ≡ some i
      → IsNextTime c due (plus_interval env due i)
  unfolding plus_interval
  plus_interval-IsNextTime i e = record {
    interval = i;
    ruled = e;
    least = ground arith;
    most = ground arith;
    exact = λ z. rw z ground arith;
  }

  plus_interval-within :
      (i : Interval) → due + i.whole < last_date → plus_interval env due i ≤ last_date
  unfolding plus_interval
  plus_interval-within i h = ground arith

  is_zero-past :
      (i : Interval) → due ≤ last_date → last_date < due + i.whole → is_zero_interval i ≡ false
  is_zero-past i d h = ground arith

  plus_interval-past :
      (i : Interval) → last_date < due + i.whole → leb (plus_interval env due i) last_date ≡ false
  unfolding plus_interval
  plus_interval-past i h = ground arith

  iso_of-within : (t : Timestamp) (s : Repository) → t ≤ last_date → iso_of t s ≡ (ok t, s)
  unfolding iso_of guard ◌>>=◌ pure
  iso_of-within t s h = rw (within t h) refl

  next_after-within :
      (o : Option Interval) (s : Repository)
      → rule_interval c.schedule_rule ≡ o
      → ((i : Interval) → o ≡ some i → due + i.whole < last_date)
      → (next : Option Timestamp) × (next_after env o due s ≡ (ok next, s))
        × ((t : Timestamp) → next ≡ some t → IsNextTime c due t)
  unfolding next_after choose pure ◌>>=◌
  next_after-within none s e h = (none, refl, λ t k. cc)
  next_after-within (some i) s e h = elim (Bool-cases (is_zero_interval i)) [
    | inl z ↦ rw z (none, refl, λ t k. cc)
    | inr z ↦
        rw (z, iso_of-within (plus_interval env due i) s (plus_interval-within i (h i refl)))
          (
            some (plus_interval env due i),
            refl,
            λ t k. subst (IsNextTime c due) (some-injective _ _ k) (plus_interval-IsNextTime i e),
          )
  ]

  -- Within the range of dates a next time is the interval after the due time.
  pub next_run_at_for_schedule-IsNextTime :
      (s : Repository)
      → (is_recurring c.kind ≡ true
          → (i : Interval) → rule_interval c.schedule_rule ≡ some i
          → due + i.whole < last_date)
      → (next : Option Timestamp) × (next_run_at_for_schedule env c due s ≡ (ok next, s))
        × ((t : Timestamp) → next ≡ some t → IsNextTime c due t)
  unfolding next_run_at_for_schedule choose pure
  next_run_at_for_schedule-IsNextTime s h = elim (Bool-cases (is_recurring c.kind)) [
    | inl r ↦ rw r (next_after-within (rule_interval c.schedule_rule) s refl (h r))
    | inr r ↦ rw r (none, refl, λ t k. cc)
  ]

  -- Past the last date there is none.
  pub next_run_at_for_schedule-past :
      (i : Interval) (s : Repository)
      → is_recurring c.kind ≡ true
      → rule_interval c.schedule_rule ≡ some i
      → last_date < due + i.whole
      → due ≤ last_date
      → next_run_at_for_schedule env c due s ≡ (err invalid_date, s)
  unfolding next_run_at_for_schedule next_after iso_of choose guard pure ◌>>=◌
  next_run_at_for_schedule-past i s r e h d =
      rw (r, e, is_zero-past i d h, plus_interval-past i h) refl
