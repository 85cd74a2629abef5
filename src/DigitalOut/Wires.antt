-- ===== src/DigitalOut/Wires.antt =====
-- The pins beside the shadow that the code keeps of them.
use trinitite.Base.{
  ℕ, ◌/◌, ◌%◌, ◌<◌, ◌≡◌, refl, ◌∙◌, Bool, true, false, ◌||◌, not, Option, none, some, List, [], ◌∷◌,
  arith, ltb, ◌==◌, bit_and, if-cases,
}
use trinitite.DigitalOut.Log.{Log}
use trinitite.DigitalOut.Bank.{
  Backend, State, Roles, gpio_mask, desired_pins, logical_bank, disarm, is_fresh,
  note_legacy_external_sample, arm_closed_sample, clear_closed_sample, configure_and_clear,
  boot_safe, prepare_clean_pill, force_safe, fail, drive, change, apply, apply_direct,
}

-- The operations that the rest of the system calls; `restore_safe` is `boot_safe`.
pub data Call : Type 0 where
  boot_safe_call prepare_call force_safe_call note_call clear_sample_call : Call
  arm_call : ℕ → ℕ → ℕ → ℕ → Call
  apply_call : ℕ → ℕ → ℕ → Call
  apply_direct_call : Option Roles → ℕ → ℕ → ℕ → ℕ → ℕ → Call

module _ {W : Type 0} (backend : Backend W) where
  -- `digital_out_gpio_level`
  abbrev pub gpio_level : W → ℕ
  gpio_level w = bit_and (backend.level w) gpio_mask

  unfoldable pub call : Call → State W → State W
  unfolding boot_safe prepare_clean_pill force_safe note_legacy_external_sample arm_closed_sample
      clear_closed_sample apply apply_direct
  call Call.boot_safe_call s = (boot_safe backend s).1
  call Call.prepare_call s = (prepare_clean_pill backend s).1
  call Call.force_safe_call s = (force_safe backend s).1
  call Call.note_call s = note_legacy_external_sample s
  call Call.clear_sample_call s = clear_closed_sample s
  call (Call.arm_call g i o q) s = arm_closed_sample g i o q s
  call (Call.apply_call p1 p2 alarm) s = (apply backend p1 p2 alarm s).1
  call (Call.apply_direct_call roles bank g i o q) s = (apply_direct backend roles bank g i o q s).1

  abbrev pub calls : List Call → State W → State W
  calls [] s = s
  calls (c ∷ cs) s = calls cs (call c s)

  -- What the code relies on: a clear that succeeds leaves the three pins low, and a set that succeeds on
  -- low pins raises those of the bank.
  pub record Drives : Type 0 where
    pub clear_low :
        (w : W)
        → (backend.clear_fixed_bank w).0 ≡ true
        → gpio_level (backend.clear_fixed_bank w).1 ≡ 0
    pub set_pins :
        (p1 p2 alarm : ℕ) (w : W)
        → p1 < 2
        → p2 < 2
        → alarm < 2
        → gpio_level w ≡ 0
        → (backend.set_fixed_bank (logical_bank p1 p2 alarm) w).0 ≡ true
        → gpio_level (backend.set_fixed_bank (logical_bank p1 p2 alarm) w).1
          ≡ desired_pins p1 p2 alarm

  -- While the bank is configured and no failure is latched, the shadow is the level of the pins, and
  -- while it is inhibited as well, the pins are low.
  pub record Tracks (s : State W) : Type 0 where
    pub level : s.configured ≡ true → s.fatal ≡ false → gpio_level s.wires ≡ s.shadow
    pub low : s.configured ≡ true → s.fatal ≡ false → s.inhibited ≡ true → s.shadow ≡ 0

  abbrev pub After : Bool × State W → Type 0
  After r = Tracks r.1

module _ {W : Type 0} (backend : Backend W) (drives : Drives backend) where
  configure_and_clear-Tracks :
      (b : Bool) (s : State W) → Tracks backend (configure_and_clear backend b s).1
  unfolding configure_and_clear
  configure_and_clear-Tracks b s = record {
    level = ground (arith, drives.clear_low (backend.configure_fixed_bank s.wires).1);
    low = ground arith;
  }

  force_safe-Tracks : (s : State W) → Tracks backend (force_safe backend s).1
  unfolding force_safe
  force_safe-Tracks s = record {
    level = ground (arith, drives.clear_low s.wires);
    low = ground arith;
  }

  drive-Tracks :
      (p1 p2 alarm : ℕ) (s : State W)
      → p1 < 2
      → p2 < 2
      → alarm < 2
      → s.inhibited ≡ false
      → Tracks backend (drive backend (desired_pins p1 p2 alarm) (logical_bank p1 p2 alarm) s).1
  unfolding drive fail
  drive-Tracks p1 p2 alarm s h1 h2 h3 h = record {
    level = ground (
      arith,
      drives.clear_low s.wires,
      drives.set_pins p1 p2 alarm (backend.clear_fixed_bank s.wires).1 h1 h2 h3,
    );
    low = ground arith;
  }

  change-Tracks :
      (p1 p2 alarm : ℕ) (s : State W)
      → p1 < 2
      → p2 < 2
      → alarm < 2
      → s.inhibited ≡ false
      → (s.configured ≡ true → s.fatal ≡ false → gpio_level backend s.wires ≡ s.shadow)
      → Tracks backend (change backend (desired_pins p1 p2 alarm) (logical_bank p1 p2 alarm) s).1
  unfolding change
  change-Tracks p1 p2 alarm s h1 h2 h3 h l =
      if-cases (After backend) (desired_pins p1 p2 alarm == s.shadow)
        (λ e. record { level = l; low = λ c f i. absurd (ground (arith, i)) })
        (λ e. drive-Tracks p1 p2 alarm s h1 h2 h3 h)

  apply-Tracks :
      (p1 p2 alarm : ℕ) (s : State W)
      → Tracks backend s
      → Tracks backend (apply backend p1 p2 alarm s).1
  unfolding apply
  apply-Tracks p1 p2 alarm s t =
      if-cases (After backend) (ltb 1 p1 || ltb 1 p2 || ltb 1 alarm) (λ e. t)
        λ e.
          if-cases (After backend) (not s.configured || s.fatal) (λ k. force_safe-Tracks s)
            λ k.
              if-cases (After backend) s.inhibited
                (λ i.
                  if-cases (After backend) (not s.reconcile_armed)
                    (λ r. record { level = t.level; low = t.low })
                    (λ r.
                      change-Tracks p1 p2 alarm
                        (record s { inhibited = false; reconcile_armed = false }) (ground arith)
                        (ground arith) (ground arith) refl t.level))
                (λ i.
                  change-Tracks p1 p2 alarm s (ground arith) (ground arith) (ground arith) i
                    t.level)

  apply_direct-Tracks :
      (roles : Option Roles) (bank g i o q : ℕ) (s : State W)
      → Tracks backend s
      → Tracks backend (apply_direct backend roles bank g i o q s).1
  unfolding apply_direct
  apply_direct-Tracks none bank g i o q s t = t
  apply_direct-Tracks (some roles) bank g i o q s t =
      if-cases (After backend) (is_fresh bank g i o q roles s.freshness)
        (λ e.
          apply-Tracks (bank % 2) (bank / 2 % 2) (bank / 4 % 2)
            (record s { freshness = disarm s.freshness }) (record { level = t.level; low = t.low }))
        (λ e. t)

  call-Tracks : (c : Call) (s : State W) → Tracks backend s → Tracks backend (call backend c s)
  unfolding call boot_safe prepare_clean_pill note_legacy_external_sample arm_closed_sample
      clear_closed_sample
  call-Tracks Call.boot_safe_call s t = configure_and_clear-Tracks true s
  call-Tracks Call.prepare_call s t = configure_and_clear-Tracks false s
  call-Tracks Call.force_safe_call s t = force_safe-Tracks s
  call-Tracks Call.note_call s t = record {
    level = ground (arith, t.level);
    low = ground (arith, t.low);
  }
  call-Tracks Call.clear_sample_call s t = record { level = t.level; low = t.low }
  call-Tracks (Call.arm_call g i o q) s t = record {
    level = ground (arith, t.level);
    low = ground (arith, t.low);
  }
  call-Tracks (Call.apply_call p1 p2 alarm) s t = apply-Tracks p1 p2 alarm s t
  call-Tracks (Call.apply_direct_call roles bank g i o q) s t =
      apply_direct-Tracks roles bank g i o q s t

-- The static variables as they are at reset.
abbrev pub reset : {W : Type 0} → Log → W → State W
reset log wires = record {
  log = log;
  shadow = 0;
  configured = false;
  inhibited = true;
  reconcile_armed = false;
  fatal = false;
  freshness = record { generation = 0; incarnation = 0; owner = 0; sequence = 0; armed = false };
  wires = wires;
}

abbrev pub from_reset : {W : Type 0} → Backend W → List Call → Log → W → State W
from_reset backend cs log wires = calls backend cs (reset log wires)

calls-Tracks :
    {W : Type 0} (backend : Backend W)
    → Drives backend
    → (cs : List Call) (s : State W) → Tracks backend s
    → Tracks backend (calls backend cs s)
calls-Tracks backend drives [] s t = t
calls-Tracks backend drives (c ∷ cs) s t =
    calls-Tracks backend drives cs (call backend c s) (call-Tracks backend drives c s t)

-- After any sequence of calls from reset, failures of the backend included: while the bank is configured
-- and no failure is latched, the pins are at the level that the shadow says, and they are low while the
-- bank is inhibited.
pub calls-level :
    {W : Type 0} (backend : Backend W)
    → Drives backend
    → (cs : List Call) (log : Log) (wires : W) → (from_reset backend cs log wires).configured ≡ true
    → (from_reset backend cs log wires).fatal ≡ false
    → (gpio_level backend (from_reset backend cs log wires).wires
        ≡ (from_reset backend cs log wires).shadow)
      × ((from_reset backend cs log wires).inhibited ≡ true
          → gpio_level backend (from_reset backend cs log wires).wires ≡ 0)
calls-level backend drives cs log wires c f =
    let t =
      calls-Tracks backend drives cs (reset log wires)
        (record { level = λ c f. absurd (ground (arith, c)); low = λ c f i. refl }) in
    (t.level c f, λ i. t.level c f ∙ t.low c f i)
