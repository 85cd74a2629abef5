-- ===== src/Tests/Outputs.antt =====
-- The digital outputs over pins that never fail, and over pins that fail to clear.
use trinitite.Base.{
  ℕ, zero, suc, ◌+◌, ◌^◌, ◌<◌, ◌≡◌, refl, true, false, some, List, [], ◌∷◌, arith, replicate,
  bit_and,
}
use trinitite.DigitalOut.Log.{
  Operation, AuditEntry, Log, audit, audit_count, entry_of, IsLog, audit-IsLog,
}
use trinitite.DigitalOut.Bank.{
  Backend, Roles, State, gpio_mask, desired_pins, logical_bank, prepare_clean_pill, apply,
  apply_direct, configure_and_clear, change, drive,
}
use trinitite.DigitalOut.Wires.{
  Call, call, calls, gpio_level, Drives, Tracks, reset, from_reset, calls-level,
}
use trinitite.DigitalOut.Latch.{Enabled, Latched, Cleared, calls-Latched, apply_disabled}
use trinitite.DigitalOut.Command.{Driven, apply-Driven, Matched, apply_direct-once}

-- The pins of a bank.
abbrev raised : ℕ → ℕ
raised zero = 0
raised (suc zero) = 2 ^ 17
raised (suc (suc zero)) = 2 ^ 27
raised (suc (suc (suc zero))) = 2 ^ 17 + 2 ^ 27
raised (suc (suc (suc (suc zero)))) = 2 ^ 22
raised (suc (suc (suc (suc (suc zero))))) = 2 ^ 17 + 2 ^ 22
raised (suc (suc (suc (suc (suc (suc zero)))))) = 2 ^ 27 + 2 ^ 22
raised (suc (suc (suc (suc (suc (suc (suc n))))))) = 2 ^ 17 + 2 ^ 27 + 2 ^ 22

abbrev sound_pins : Backend ℕ
sound_pins = record {
  configure_fixed_bank = λ w. (true, w);
  clear_fixed_bank = λ w. (true, 0);
  set_fixed_bank = λ bank w. (true, raised bank);
  level = λ w. w;
}

set_pins-raised :
    (p1 p2 alarm : ℕ)
    → p1 < 2
    → p2 < 2
    → alarm < 2
    → bit_and (raised (logical_bank p1 p2 alarm)) gpio_mask ≡ desired_pins p1 p2 alarm
set_pins-raised zero zero zero h k l = refl
set_pins-raised zero zero (suc zero) h k l = refl
set_pins-raised zero (suc zero) zero h k l = refl
set_pins-raised zero (suc zero) (suc zero) h k l = refl
set_pins-raised (suc zero) zero zero h k l = refl
set_pins-raised (suc zero) zero (suc zero) h k l = refl
set_pins-raised (suc zero) (suc zero) zero h k l = refl
set_pins-raised (suc zero) (suc zero) (suc zero) h k l = refl
set_pins-raised (suc (suc a)) b c h k l = absurd (omega arith)
set_pins-raised zero (suc (suc b)) c h k l = absurd (omega arith)
set_pins-raised (suc zero) (suc (suc b)) c h k l = absurd (omega arith)
set_pins-raised zero zero (suc (suc c)) h k l = absurd (omega arith)
set_pins-raised zero (suc zero) (suc (suc c)) h k l = absurd (omega arith)
set_pins-raised (suc zero) zero (suc (suc c)) h k l = absurd (omega arith)
set_pins-raised (suc zero) (suc zero) (suc (suc c)) h k l = absurd (omega arith)

sound_pins-Drives : Drives sound_pins
sound_pins-Drives = record {
  clear_low = λ w h. refl;
  set_pins = λ p1 p2 alarm w h k l low h'. set_pins-raised p1 p2 alarm h k l;
}

-- Pins that do not clear.
abbrev stuck_pins : Backend ℕ
stuck_pins = record sound_pins { clear_fixed_bank = λ w. (false, w) }

abbrev empty_entry : AuditEntry
empty_entry = record { ordinal = 0; operation = Operation.op_noop; value = 0 }

abbrev empty_log : Log
empty_log = record { ring = replicate 64 empty_entry; total = 0; dropped = 0 }

empty_log-IsLog : IsLog empty_log
unfolding audit_count
empty_log-IsLog = record { size = refl; kept = λ o p h k. absurd (omega (arith, p, h)); all = refl }

abbrev fresh : State ℕ
fresh = record (reset empty_log 0) {
  configured = true;
  inhibited = false;
  freshness = record { generation = 1; incarnation = 2; owner = 20; sequence = 5; armed = true };
}

abbrev failed : State ℕ
failed = record fresh { fatal = true }

fresh-Tracks : Tracks sound_pins fresh
fresh-Tracks = record { level = λ c f. refl; low = λ c f i. refl }

abbrev live : Roles
live = record { timer_owner = 12; input_bank_owner = 20; output_bank_owner = 30 }

abbrev session : List Call
session = Call.prepare_call ∷ Call.apply_call 1 0 0 ∷ Call.apply_call 0 1 1 ∷ []

audit-IsLog_example :
    IsLog (audit Operation.op_set 7 empty_log)
    × ((audit Operation.op_set 7 empty_log).total ≡ empty_log.total + 1)
    × (entry_of (audit Operation.op_set 7 empty_log) (empty_log.total + 1)
        ≡ record { ordinal = empty_log.total + 1; operation = Operation.op_set; value = 7 })
audit-IsLog_example = audit-IsLog Operation.op_set 7 empty_log empty_log-IsLog (omega arith)

session-configured : (from_reset sound_pins session empty_log 0).configured ≡ true
unfolding call prepare_clean_pill configure_and_clear apply change drive
session-configured = refl

session-healthy : (from_reset sound_pins session empty_log 0).fatal ≡ false
unfolding call prepare_clean_pill configure_and_clear apply change drive
session-healthy = refl

calls-level_example :
    (gpio_level sound_pins (from_reset sound_pins session empty_log 0).wires
      ≡ (from_reset sound_pins session empty_log 0).shadow)
    × ((from_reset sound_pins session empty_log 0).inhibited ≡ true
        → gpio_level sound_pins (from_reset sound_pins session empty_log 0).wires ≡ 0)
calls-level_example =
    calls-level sound_pins sound_pins-Drives session empty_log 0 session-configured session-healthy

calls-Latched_example :
    Latched stuck_pins failed
      (calls stuck_pins (Call.apply_call 1 1 0 ∷ Call.force_safe_call ∷ []) failed)
    × ((apply stuck_pins 0 1 0
          (calls stuck_pins (Call.apply_call 1 1 0 ∷ Call.force_safe_call ∷ []) failed)).0
        ≡ false)
calls-Latched_example =
    calls-Latched stuck_pins (Call.apply_call 1 1 0 ∷ Call.force_safe_call ∷ []) failed 0 1 0
      (tt, (tt, tt)) refl

failed-disabled : ¬ Enabled stuck_pins failed
failed-disabled h = ground (arith, h.1)

apply_disabled_example :
    ((apply stuck_pins 1 0 1 failed).0 ≡ false)
    × Cleared stuck_pins failed.wires (apply stuck_pins 1 0 1 failed).1.wires
apply_disabled_example = apply_disabled stuck_pins 1 0 1 failed failed-disabled

apply-run : (apply sound_pins 1 0 1 fresh).0 ≡ true
unfolding apply change drive
apply-run = refl

apply-Driven_example :
    (1 < 2)
    × (0 < 2)
    × (1 < 2)
    × Driven sound_pins (desired_pins 1 0 1) (apply sound_pins 1 0 1 fresh).1
apply-Driven_example = apply-Driven sound_pins sound_pins-Drives 1 0 1 fresh fresh-Tracks apply-run

apply_direct-run : (apply_direct sound_pins (some live) 5 1 2 30 9 fresh).0 ≡ true
unfolding apply_direct apply change drive
apply_direct-run = refl

apply_direct-once_example :
    Matched live 5 1 2 30 9 fresh.freshness
    × (apply_direct sound_pins
          (some live)
          5
          1
          2
          30
          9
          (apply_direct sound_pins (some live) 5 1 2 30 9 fresh).1
        ≡ (false, (apply_direct sound_pins (some live) 5 1 2 30 9 fresh).1))
apply_direct-once_example =
    apply_direct-once sound_pins live (some live) 5 1 2 30 9 5 1 2 30 9 fresh apply_direct-run
