-- ===== src/Trace/History.antt =====
-- The ring over any sequence of the calls of trace.h.
use trinitite.Base.{
  ℕ, ◌≡◌, refl, sym, subst, inl, inr, Bool, true, false, not, List, [], ◌∷◌, arith, ◌==◌,
  if◌then◌else◌, length, Bool-cases, if-cases,
}
use trinitite.Trace.Ring.{
  trace_size, tag_wdt, TraceRec, Trace, trace_enable, trace_clear, trace_rec, trace_len, wdt_set,
  wdt_kick, expired, wdt_check,
}
use trinitite.Trace.Window.{
  TraceCall, enable_call, clear_call, rec_call, wdt_set_call, wdt_kick_call, wdt_check_call,
  trace_call, trace_calls, noted, log_call, log_calls, IsWindow, cleared, trace_rec-IsWindow,
  trace_rec-off,
}

-- A record is logged only while the trace is on.
noted-IsWindow :
    (tag datum now : ℕ) (s : Trace) (log : List TraceRec)
    → IsWindow s log
    → IsWindow
        (trace_rec tag datum now s)
        (noted s.on (record { t = now; tag = tag; datum = datum }) log)
noted-IsWindow tag datum now s log w = elim (Bool-cases s.on) [
  | inl on ↦
      subst
        (λ b.
          IsWindow (trace_rec tag datum now s)
            (noted b (record { t = now; tag = tag; datum = datum }) log))
        (sym on) (trace_rec-IsWindow tag datum now s log on w)
  | inr off ↦
      subst
        (λ b.
          IsWindow (trace_rec tag datum now s)
            (noted b (record { t = now; tag = tag; datum = datum }) log))
        (sym off) (still off)
]
  where
    still : s.on ≡ false → IsWindow (trace_rec tag datum now s) log
    still off = subst (λ u. IsWindow u log) (sym (trace_rec-off tag datum now s off)) w

-- The watchdog and the switch leave the ring alone.
rest-IsWindow :
    (period deadline : ℕ) (on : Bool) (s : Trace) (log : List TraceRec)
    → IsWindow s log
    → IsWindow (record s { wdt_period = period; wdt_deadline = deadline; on = on }) log
unfolding trace_len
rest-IsWindow period deadline on s log w = record {
  slots = w.slots;
  head_in = w.head_in;
  tail_in = w.tail_in;
  held = w.held;
  dropped = w.dropped;
  last = w.last;
  kept = w.kept;
}

wdt_kick-IsWindow :
    (now : ℕ) (s : Trace) (log : List TraceRec) → IsWindow s log → IsWindow (wdt_kick now s) log
unfolding wdt_kick
wdt_kick-IsWindow now s log w =
    if-cases (λ u. IsWindow u log) (not (s.wdt_period == 0)) (λ e. rest-IsWindow _ _ s.on s log w)
      (λ e. w)

trace_clear-IsWindow : (s : Trace) → length s.slot ≡ trace_size → IsWindow (trace_clear s) []
unfolding trace_clear trace_len
trace_clear-IsWindow s z = record {
  slots = z;
  head_in = omega arith;
  tail_in = omega arith;
  held = refl;
  dropped = refl;
  last = refl;
  kept = λ k l. absurd (omega (arith, l));
}

-- Both ends of a check of the watchdog.
checked-IsWindow :
    (now_rec now_kick : ℕ) (s : Trace) (log : List TraceRec) (late : Bool)
    → IsWindow s log
    → IsWindow
        (if◌then◌else◌ {A = Bool × Trace}
          (not late)
          (false, s)
          (true, wdt_kick now_kick (trace_rec tag_wdt 0 now_rec s))).1
        (if late then noted s.on (record { t = now_rec; tag = tag_wdt; datum = 0 }) log else log)
checked-IsWindow now_rec now_kick s log true w =
    wdt_kick-IsWindow now_kick _ _ (noted-IsWindow tag_wdt 0 now_rec s log w)
checked-IsWindow now_rec now_kick s log false w = w

trace_call-IsWindow :
    (c : TraceCall) (s : Trace) (log : List TraceRec)
    → IsWindow s log
    → IsWindow (trace_call c s) (log_call c s log)
unfolding trace_enable wdt_set wdt_check
trace_call-IsWindow (enable_call on) s log w = rest-IsWindow s.wdt_period s.wdt_deadline on s log w
trace_call-IsWindow clear_call s log w = trace_clear-IsWindow s w.slots
trace_call-IsWindow (rec_call tag datum now) s log w = noted-IsWindow tag datum now s log w
trace_call-IsWindow (wdt_set_call period now) s log w = rest-IsWindow _ _ s.on s log w
trace_call-IsWindow (wdt_kick_call now) s log w = wdt_kick-IsWindow now s log w
trace_call-IsWindow (wdt_check_call now now_rec now_kick) s log w =
    checked-IsWindow now_rec now_kick s log (expired now s) w

trace_calls-IsWindow_from :
    (cs : List TraceCall) (s : Trace) (log : List TraceRec)
    → IsWindow s log
    → IsWindow (trace_calls cs s) (log_calls cs s log)
trace_calls-IsWindow_from [] s log w = w
trace_calls-IsWindow_from (c ∷ cs) s log w =
    trace_calls-IsWindow_from cs (trace_call c s) (log_call c s log) (trace_call-IsWindow c s log w)

-- After any calls from the start, the ring agrees with the unbounded log of the records since it was last
-- cleared, those of the watchdog included: it holds the newest 255 of them in order behind the head, counts
-- the others as dropped up to wrap-around at 64 bits, and `trace_last` gives the newest.
pub trace_calls-IsWindow :
    (cs : List TraceCall) → IsWindow (trace_calls cs cleared) (log_calls cs cleared [])
unfolding trace_clear
trace_calls-IsWindow cs = trace_calls-IsWindow_from cs cleared [] start
  where
    start : IsWindow cleared []
    start = trace_clear-IsWindow cleared refl
