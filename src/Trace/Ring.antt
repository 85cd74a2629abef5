-- ===== src/Trace/Ring.antt =====
-- The state and the functions of trace.c; the canary, which reads two guard words, is left out. Each call
-- is given what it reads from the counter.
use trinitite.Base.{
  ℕ, ◌+◌, ◌-◌, ◌%◌, ◌^◌, bit_and, Bool, true, false, not, ◌||◌, Option, none, some, List, ltb, ◌==◌,
  if◌then◌else◌, set,
}

abbrev pub trace_size : ℕ
trace_size = 256

-- The tag T_WDT.
abbrev pub tag_wdt : ℕ
tag_wdt = 6

pub record TraceRec : Type 0 where
  pub t : ℕ
  pub tag : ℕ
  pub datum : ℕ

pub record Trace : Type 0 where
  pub slot : List TraceRec
  pub head : ℕ
  pub tail : ℕ
  pub on : Bool
  pub drop_count : ℕ
  pub last_tag : ℕ
  pub last_data : ℕ
  pub have_last : Bool
  pub wdt_period : ℕ
  pub wdt_deadline : ℕ

unfoldable pub trace_enable : Bool → Trace → Trace
trace_enable on s = record s { on = on }

unfoldable pub trace_clear : Trace → Trace
trace_clear s = record s {
  head = 0;
  tail = 0;
  drop_count = 0;
  have_last = false;
  last_tag = 0;
  last_data = 0;
}

unfoldable pub trace_rec : ℕ → ℕ → ℕ → Trace → Trace
trace_rec tag datum now s =
    if not s.on
    then s
    else (let h : ℕ = s.head in
        let n : ℕ = bit_and (h + 1) (trace_size - 1) in
        let full : Bool = n == s.tail in
        record s {
          last_tag = tag;
          last_data = datum;
          have_last = true;
          tail = if full then bit_and (s.tail + 1) (trace_size - 1) else s.tail;
          drop_count = if full then (s.drop_count + 1) % 2 ^ 64 else s.drop_count;
          slot = set s.slot h (record { t = now; tag = tag; datum = datum });
          head = n;
        })

-- The difference of 32-bit numbers wraps.
unfoldable pub trace_len : Trace → ℕ
trace_len s = bit_and ((s.head + 2 ^ 32 - s.tail) % 2 ^ 32) (trace_size - 1)

abbrev pub trace_drops : Trace → ℕ
trace_drops s = s.drop_count

-- The tag and the data of the last record.
abbrev pub trace_last : Trace → Option (ℕ × ℕ)
trace_last s = if not s.have_last then none else some (s.last_tag, s.last_data)

unfoldable pub wdt_set : ℕ → ℕ → Trace → Trace
wdt_set period_ticks now s = record s {
  wdt_period = period_ticks;
  wdt_deadline = if not (period_ticks == 0) then (now + period_ticks) % 2 ^ 64 else 0;
}

unfoldable pub wdt_kick : ℕ → Trace → Trace
wdt_kick now s =
    if not (s.wdt_period == 0) then record s { wdt_deadline = (now + s.wdt_period) % 2 ^ 64 } else s

-- The watchdog has run out at the counter `now`.
abbrev pub expired : ℕ → Trace → Bool
expired now s =
    if (s.wdt_period == 0) || (s.wdt_deadline == 0) then false else not (ltb now s.wdt_deadline)

-- The counter is read by the test, by `trace_rec` and by `wdt_kick`.
unfoldable pub wdt_check : ℕ → ℕ → ℕ → Trace → Bool × Trace
wdt_check now now_rec now_kick s =
    if not (expired now s)
    then (false, s)
    else (true, wdt_kick now_kick (trace_rec tag_wdt 0 now_rec s))
