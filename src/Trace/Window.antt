-- ===== src/Trace/Window.antt =====
-- The ring holds the newest 255 of the records since it was cleared, and counts the others.

use trinitite.Base.{
  ℕ, zero, suc, ◌+◌, ◌-◌, ◌%◌, ◌^◌, ◌<◌, min, bit_and, ◌≡◌, ◌≢◌, refl, sym, ap, ◌∙◌, inl, inr, Bool,
  true, false, not, Option, none, some, List, [], ◌∷◌, arith, ◌==◌, if◌then◌else◌, length, get_or,
  set, replicate, length-set, get_or-set_self, get_or-set_ne, Bool-cases, ==_iff,
}
use trinitite.Base.Bits.{bit_and-mask}
use trinitite.Trace.Ring.{
  trace_size, tag_wdt, TraceRec, Trace, trace_enable, trace_clear, trace_rec, trace_len,
  trace_drops, trace_last, wdt_set, wdt_kick, expired, wdt_check,
}

pub data TraceCall : Type 0 where
  enable_call : Bool → TraceCall
  clear_call : TraceCall
  rec_call : ℕ → ℕ → ℕ → TraceCall
  wdt_set_call : ℕ → ℕ → TraceCall
  wdt_kick_call : ℕ → TraceCall
  wdt_check_call : ℕ → ℕ → ℕ → TraceCall

abbrev pub trace_call : TraceCall → Trace → Trace
trace_call (enable_call on) s = trace_enable on s
trace_call clear_call s = trace_clear s
trace_call (rec_call tag datum now) s = trace_rec tag datum now s
trace_call (wdt_set_call period now) s = wdt_set period now s
trace_call (wdt_kick_call now) s = wdt_kick now s
trace_call (wdt_check_call now now_rec now_kick) s = (wdt_check now now_rec now_kick s).1

abbrev pub trace_calls : List TraceCall → Trace → Trace
trace_calls [] s = s
trace_calls (c ∷ cs) s = trace_calls cs (trace_call c s)

-- What a call adds to the log of records, which has no bound and the newest first.
abbrev pub noted : Bool → TraceRec → List TraceRec → List TraceRec
noted on r log = if on then r ∷ log else log

abbrev pub log_call : TraceCall → Trace → List TraceRec → List TraceRec
log_call (enable_call on) s log = log
log_call clear_call s log = []
log_call (rec_call tag datum now) s log =
    noted s.on (record { t = now; tag = tag; datum = datum }) log
log_call (wdt_set_call period now) s log = log
log_call (wdt_kick_call now) s log = log
log_call (wdt_check_call now now_rec now_kick) s log =
    if expired now s then noted s.on (record { t = now_rec; tag = tag_wdt; datum = 0 }) log else log

abbrev pub log_calls : List TraceCall → Trace → List TraceRec → List TraceRec
log_calls [] s log = log
log_calls (c ∷ cs) s log = log_calls cs (trace_call c s) (log_call c s log)

abbrev pub blank : TraceRec
blank = record { t = 0; tag = 0; datum = 0 }

-- The tag and the data of the newest record.
abbrev pub newest : List TraceRec → Option (ℕ × ℕ)
newest [] = none
newest (r ∷ log) = some (r.tag, r.datum)

pub record IsWindow (s : Trace) (log : List TraceRec) : Type 0 where
  pub slots : length s.slot ≡ trace_size
  pub head_in : s.head < trace_size
  pub tail_in : s.tail < trace_size
  pub held : trace_len s ≡ min (length log) 255
  pub dropped : trace_drops s ≡ (length log - 255) % 2 ^ 64
  pub last : trace_last s ≡ newest log
  -- the `k`th record back stands `k + 1` slots behind the head
  pub kept :
      (k : ℕ)
      → k < min (length log) 255
      → get_or s.slot ((s.head + 255 - k) % 256) blank ≡ get_or log k blank

abbrev pub cleared : Trace
cleared = record {
  slot = replicate trace_size blank;
  head = 0;
  tail = 0;
  on = false;
  drop_count = 0;
  last_tag = 0;
  last_data = 0;
  have_last = false;
  wdt_period = 0;
  wdt_deadline = 0;
}

trace_len-eq :
    (s : Trace) → s.head < 256 → s.tail < 256 → trace_len s ≡ (s.head + 256 - s.tail) % 256
unfolding trace_len
trace_len-eq s h t = omega (arith, bit_and-mask 8 ((s.head + 2 ^ 32 - s.tail) % 2 ^ 32), h, t)

-- A new record at the head moves the others one back.
kept-next :
    (slot log : List TraceRec) (h n : ℕ) (r : TraceRec)
    → length slot ≡ trace_size
    → h < trace_size
    → n ≡ (h + 1) % 256
    → ((k : ℕ)
        → k < min (length log) 255
        → get_or slot ((h + 255 - k) % 256) blank ≡ get_or log k blank)
    → (k : ℕ) → k < min (suc (length log)) 255
    → get_or (set slot h r) ((n + 255 - k) % 256) blank ≡ get_or (r ∷ log) k blank
kept-next slot log h n r z l e kept zero lk =
    let back : (n + 255 - 0) % 256 ≡ h = omega (arith, l, e) in
    rw back (get_or-set_self slot h r blank (omega (arith, z, l)))
kept-next slot log h n r z l e kept (suc k) lk =
    let back : (n + 255 - suc k) % 256 ≡ (h + 255 - k) % 256 = omega (arith, l, e, lk) in
    let other : h ≢ (h + 255 - k) % 256 = λ same. absurd (omega (arith, l, same, lk)) in
    rw back (get_or-set_ne slot h ((h + 255 - k) % 256) r blank other ∙ kept k (omega (arith, lk)))

pub trace_rec-IsWindow :
    (tag datum now : ℕ) (s : Trace) (log : List TraceRec)
    → s.on ≡ true
    → IsWindow s log
    → IsWindow (trace_rec tag datum now s) (record { t = now; tag = tag; datum = datum } ∷ log)
unfolding trace_rec
trace_rec-IsWindow tag datum now s log on w =
    let go : not s.on ≡ false = ap not on in
    let n : ℕ = bit_and (s.head + 1) (trace_size - 1) in
    let next : n ≡ (s.head + 1) % 256 = bit_and-mask 8 (s.head + 1) in
    let held : (s.head + 256 - s.tail) % 256 ≡ min (length log) 255 =
      sym (trace_len-eq s w.head_in w.tail_in) ∙ w.held in
    rw go (elim (Bool-cases (n == s.tail)) [
      | inl full ↦
          let end : s.tail ≡ (s.head + 1) % 256 = sym ((==_iff n s.tail).0 full) ∙ next in
          let moved : bit_and (s.tail + 1) (trace_size - 1) ≡ (s.tail + 1) % 256 =
            bit_and-mask 8 (s.tail + 1) in
          rw full (record {
            slots = length-set s.slot s.head _ ∙ w.slots;
            head_in = omega (arith, next);
            tail_in = omega (arith, moved);
            held =
                trace_len-eq _ (omega (arith, next)) (omega (arith, moved))
                ∙ omega (arith, next, moved, end, held, w.head_in);
            dropped = omega (arith, w.dropped, end, held, w.head_in);
            last = refl;
            kept =
                kept-next s.slot log s.head n (record { t = now; tag = tag; datum = datum }) w.slots
                  w.head_in next w.kept;
          })
      | inr room ↦
          let apart : s.tail ≢ (s.head + 1) % 256 =
            λ e. absurd (ground (arith, room, (==_iff n s.tail).1 (next ∙ sym e))) in
          rw room (record {
            slots = length-set s.slot s.head _ ∙ w.slots;
            head_in = omega (arith, next);
            tail_in = w.tail_in;
            held =
                trace_len-eq _ (omega (arith, next)) w.tail_in
                ∙ omega (arith, next, apart, held, w.head_in, w.tail_in);
            dropped = omega (arith, w.dropped, apart, held, w.head_in, w.tail_in);
            last = refl;
            kept =
                kept-next s.slot log s.head n (record { t = now; tag = tag; datum = datum }) w.slots
                  w.head_in next w.kept;
          })
    ])

pub trace_rec-off : (tag datum now : ℕ) (s : Trace) → s.on ≡ false → trace_rec tag datum now s ≡ s
unfolding trace_rec
trace_rec-off tag datum now s off = let stop : not s.on ≡ true = ap not off in rw stop refl
