-- ===== src/Threadman/Alarms.antt =====
-- The alarms of src/iop/threadman.cpp: the queue by deadline and the timer's compare register.
use ps2bios_rebuild.Common.{
  ℕ, zero, suc, ◌+◌, true, false, not, ◌&&◌, ◌||◌, Option, none, some, ltb, ◌==◌, if◌then◌else◌,
  update, add32,
}
use ps2bios_rebuild.Threadman.Types.{
  Clock, Alarm, Alarms, alarm_count, nobody, alarm_duplicate, alarm_unknown, no_memory,
}
use ps2bios_rebuild.Threadman.Links.{set_next, set_prev}
use ps2bios_rebuild.Threadman.Ids.{first_unused}
use ps2bios_rebuild.Threadman.Clock.{clock_before, clock_add}

-- One reading of the counter, by itself.
unfoldable pub get_counter : Alarms → ℕ × Alarms
get_counter a = (a.counter a.reads, record a { reads = a.reads + 1 })

unfoldable pub read_clock : Alarms → Clock × Alarms
read_clock a =
    let (low, a) = get_counter a in
    let hi = if ltb low a.clock_seen.lo then add32 a.clock_seen.hi 1 else a.clock_seen.hi in
    let now : Clock = record { lo = low; hi = hi } in (now, record a { clock_seen = now })

-- The entry before `index`, or the head, takes its `next`.
unfoldable pub bypass_alarm_next : Alarms → ℕ → Alarms
bypass_alarm_next a index =
    if a.links.prev index == nobody
    then record a { alarm_head = a.links.next index }
    else record a { links = set_next a.links (a.links.prev index) (a.links.next index) }

unfoldable pub bypass_alarm_prev : Alarms → ℕ → Alarms
bypass_alarm_prev a index =
    if a.links.next index == nobody
    then a
    else record a { links = set_prev a.links (a.links.next index) (a.links.prev index) }

unfoldable pub unlink_alarm : Alarms → ℕ → Alarms
unlink_alarm a index =
    let a = bypass_alarm_prev (bypass_alarm_next a index) index in
    record a { links = set_prev (set_next a.links index nobody) index nobody }

-- The loop of insertAlarm, with fuel: the last alarm that is not due after `deadline`, where
-- `after` has been passed and `at` is next. `none` means that the fuel ran out.
unfoldable pub insert_after : ℕ → Alarms → Clock → ℕ → ℕ → Option ℕ
insert_after zero a deadline after at = none
insert_after (suc n) a deadline after at =
    let rest = insert_after n a deadline at (a.links.next at) in
    if at == nobody || clock_before deadline (a.alarms at).deadline then some after else rest

-- `index` behind `after`, or at the head.
unfoldable pub link_after : Alarms → ℕ → ℕ → Alarms
link_after a after index =
    if after == nobody
    then record a { links = set_next a.links index a.alarm_head; alarm_head = index }
    else record a { links = set_next (set_next a.links index (a.links.next after)) after index }

unfoldable pub link_alarm : Alarms → ℕ → ℕ → Alarms
link_alarm a after index =
    let a = link_after (record a { links = set_prev a.links index after }) after index in
    if a.links.next index == nobody
    then a
    else record a { links = set_prev a.links (a.links.next index) index }

-- The queue has no more entries than there are alarms, and the last step sees its end.
unfoldable pub insert_alarm : Alarms → ℕ → Option Alarms
insert_alarm a index =
    elim (insert_after (suc alarm_count) a (a.alarms index).deadline nobody a.alarm_head) [
      | none ↦ none
      | some after ↦ some (link_alarm a after index)
    ]

-- The loop of findAlarm from `at` on, with fuel; `none` means that it ran out.
unfoldable pub find_from : ℕ → Alarms → ℕ → ℕ → ℕ → Option ℕ
find_from zero a callback arg at = none
find_from (suc n) a callback arg at =
    let rest = find_from n a callback arg (a.links.next at) in
    if at == nobody || ((a.alarms at).callback == callback && (a.alarms at).arg == arg)
    then some at
    else rest

unfoldable pub find_alarm : Alarms → ℕ → ℕ → Option ℕ
find_alarm a callback arg = find_from (suc alarm_count) a callback arg a.alarm_head

abbrev pub set_alarm_record : Alarms → ℕ → Alarm → Alarms
set_alarm_record a index r = record a { alarms = update a.alarms index r }

unfoldable pub allocate_alarm : Alarms → ℕ × Alarms
allocate_alarm a = elim (first_unused (λ j. (a.alarms j).in_use) alarm_count 0) [
  | none ↦ (nobody, a)
  | some index ↦ (
    index,
    set_alarm_record a index (record (a.alarms index) { in_use = true; permanent = false }),
  )
]

-- The last of a run of alarms from `target` on, each within the window behind the one before.
unfoldable pub last_of_run : ℕ → Alarms → ℕ → Option ℕ
last_of_run zero a target = none
last_of_run (suc n) a target =
    let next = a.links.next target in
    let rest = last_of_run n a next in
    let window : Clock = record { lo = a.ticks_coalesce; hi = 0 } in
    if not (next == nobody)
      && not (clock_before (clock_add (a.alarms target).deadline window) (a.alarms next).deadline)
    then rest
    else some target

-- Where the compare register goes for the alarm `target`.
unfoldable pub arm_for : Alarms → ℕ → Alarms
arm_for a target =
    let deadline = (a.alarms target).deadline in
    let (now, a) = read_clock a in
    if clock_before now deadline
    then record a { compare = deadline.lo }
    else let (low, a) = get_counter a in record a { compare = add32 low a.ticks_coalesce }

unfoldable pub arm_timer : Alarms → Option Alarms
arm_timer a =
    if a.alarm_head == nobody then some a else elim (last_of_run (suc alarm_count) a a.alarm_head) [
      | none ↦ none
      | some target ↦ some (arm_for a target)
    ]

-- A wait of less than the granularity is one of the granularity.
unfoldable pub at_least : Alarms → Clock → Clock
at_least a delta =
    if delta.hi == 0 && ltb delta.lo a.ticks_granularity
    then record delta { lo = a.ticks_granularity }
    else delta

unfoldable pub start_alarm : Alarms → ℕ → Clock → ℕ → ℕ → Option Alarms
start_alarm a index delta callback arg =
    let delay = at_least a delta in
    let (now, a) = read_clock a in
    let made = record (a.alarms index) {
      deadline = clock_add now delay;
      callback = callback;
      arg = arg;
    } in
    elim (insert_alarm (set_alarm_record a index made) index) [ none ↦ none | some a ↦ arm_timer a ]

-- `none` means that a loop did not end.
unfoldable pub add_alarm : Alarms → Clock → ℕ → ℕ → Option (ℕ × Alarms)
add_alarm a delta callback arg = elim (find_alarm a callback arg) [
  | none ↦ none
  | some found ↦
      if not (found == nobody)
      then some (alarm_duplicate, a)
      else let (index, b) = allocate_alarm a in
        (if index == nobody
          then some (no_memory, b)
          else elim (start_alarm b index delta callback arg) [ none ↦ none | some c ↦ some (0, c) ])
]

unfoldable pub remove_alarm : Alarms → ℕ → ℕ → Option (ℕ × Alarms)
remove_alarm a callback arg = elim (find_alarm a callback arg) [
  | none ↦ none
  | some index ↦
      if index == nobody
      then some (alarm_unknown, a)
      else let a = unlink_alarm a index in
        some (0, set_alarm_record a index (record (a.alarms index) { in_use = false }))
]
