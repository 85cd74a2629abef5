-- ===== src/DigitalOut/Bank.antt =====
-- The output bank of digital_out.c: its static variables and its operations.
use trinitite.Base.{
  ℕ, ◌+◌, ◌*◌, ◌/◌, ◌%◌, ◌^◌, Bool, true, false, ◌&&◌, ◌||◌, not, Option, none, some, ltb, ◌==◌,
  if◌then◌else◌,
}
use trinitite.DigitalOut.Log.{Operation, Log, audit}

-- The functions of digital_out_backend.h on the state of the pins, each with whether it succeeded.
pub record Backend (W : Type 0) : Type 0 where
  pub configure_fixed_bank : W → Bool × W
  pub clear_fixed_bank : W → Bool × W
  pub set_fixed_bank : ℕ → W → Bool × W
  pub level : W → ℕ

-- DIGITAL_OUT_GPIO_P1, _P2 and _ALARM as masks, and DIGITAL_OUT_GPIO_MASK.
abbrev pub pin_p1 : ℕ
pin_p1 = 2 ^ 17

abbrev pub pin_p2 : ℕ
pin_p2 = 2 ^ 27

abbrev pub pin_alarm : ℕ
pin_alarm = 2 ^ 22

abbrev pub gpio_mask : ℕ
gpio_mask = 2 ^ 17 + 2 ^ 27 + 2 ^ 22

-- `g_m8_input_freshness`
pub record Freshness : Type 0 where
  pub generation : ℕ
  pub incarnation : ℕ
  pub owner : ℕ
  pub sequence : ℕ
  pub armed : Bool

-- What `i2_closed_process_roles_live` gives: the roles, where they are valid.
pub record Roles : Type 0 where
  pub timer_owner : ℕ
  pub input_bank_owner : ℕ
  pub output_bank_owner : ℕ

pub record State (W : Type 0) : Type 0 where
  pub log : Log
  pub shadow : ℕ
  pub configured : Bool
  pub inhibited : Bool
  pub reconcile_armed : Bool
  pub fatal : Bool
  pub freshness : Freshness
  pub wires : W

abbrev pub disarm : Freshness → Freshness
disarm f = record f { armed = false }

-- The wanted pins, from bits that are 0 or 1; the pins differ, so `|` is a sum.
abbrev pub desired_pins : ℕ → ℕ → ℕ → ℕ
desired_pins p1 p2 alarm = p1 * pin_p1 + p2 * pin_p2 + alarm * pin_alarm

abbrev pub logical_bank : ℕ → ℕ → ℕ → ℕ
logical_bank p1 p2 alarm = p1 + p2 * 2 + alarm * 4

module _ {W : Type 0} where
  abbrev pub note : Operation → ℕ → State W → State W
  note operation value s = record s { log = audit operation value s.log }

  -- `digital_out_note_legacy_external_sample`
  unfoldable pub note_legacy_external_sample : State W → State W
  note_legacy_external_sample s =
      if s.inhibited && not s.fatal then record s { reconcile_armed = true } else s

  abbrev pub arm_reconcile : State W → State W
  arm_reconcile s = if s.inhibited && not s.fatal then record s { reconcile_armed = true } else s

  -- `digital_out_arm_closed_sample`
  unfoldable pub arm_closed_sample : ℕ → ℕ → ℕ → ℕ → State W → State W
  arm_closed_sample generation incarnation owner sequence s =
      if not (generation == 0) && not (incarnation == 0) && not (owner == 0) && not (sequence == 0)
      then arm_reconcile (record s {
        freshness = record {
          generation = generation;
          incarnation = incarnation;
          owner = owner;
          sequence = sequence;
          armed = true;
        };
      })
      else s

  -- `digital_out_clear_closed_sample`
  unfoldable pub clear_closed_sample : State W → State W
  clear_closed_sample s = record s { freshness = disarm s.freshness }

-- The guards of `digital_out_apply_direct`.
abbrev pub is_fresh : ℕ → ℕ → ℕ → ℕ → ℕ → Roles → Freshness → Bool
is_fresh bank generation incarnation output_owner output_sequence roles f =
    not (ltb 7 bank)
    && f.armed
    && (f.generation == generation)
    && (f.incarnation == incarnation)
    && (f.owner == roles.input_bank_owner)
    && not (f.sequence == 0)
    && (output_owner == roles.output_bank_owner)
    && not (output_sequence == 0)

module _ {W : Type 0} (backend : Backend W) where
  unfoldable pub configure_and_clear : Bool → State W → Bool × State W
  unfolding audit
  configure_and_clear inhibit s =
      let s₁ : State W = note Operation.op_configure gpio_mask s in
      let configured = backend.configure_fixed_bank s₁.wires in
      if not configured.0
      then (
        false,
        record s₁ { configured = false; inhibited = true; fatal = true; wires = configured.1 },
      )
      else let s₂ : State W =
          note Operation.op_clear gpio_mask (record s₁ { wires = configured.1 }) in
        let cleared = backend.clear_fixed_bank s₂.wires in
        if not cleared.0
        then (
          false,
          record s₂ { configured = true; inhibited = true; fatal = true; wires = cleared.1 },
        )
        else (
          true,
          record s₂ {
            configured = true;
            inhibited = inhibit;
            reconcile_armed = false;
            fatal = false;
            shadow = 0;
            freshness = disarm s₂.freshness;
            wires = cleared.1;
          },
        )

  -- `digital_out_boot_safe`, and `digital_out_restore_safe` with the same body
  unfoldable pub boot_safe : State W → Bool × State W
  unfolding configure_and_clear
  boot_safe s = configure_and_clear true s

  -- `digital_out_prepare_clean_pill`
  unfoldable pub prepare_clean_pill : State W → Bool × State W
  unfolding configure_and_clear
  prepare_clean_pill s = configure_and_clear false s

  -- `digital_out_force_safe`
  unfoldable pub force_safe : State W → Bool × State W
  unfolding audit
  force_safe s =
      let s₁ : State W = note Operation.op_clear gpio_mask s in
      let cleared = backend.clear_fixed_bank s₁.wires in
      (
        cleared.0,
        record s₁ {
          fatal = if cleared.0 then s₁.fatal else true;
          shadow = if cleared.0 then 0 else s₁.shadow;
          inhibited = true;
          reconcile_armed = false;
          freshness = disarm s₁.freshness;
          wires = cleared.1;
        },
      )

  -- The label `fail` of `digital_out_apply`.
  unfoldable pub fail : State W → Bool × State W
  unfolding force_safe
  fail s = (false, record (force_safe s).1 { fatal = true })

  abbrev pub commit : ℕ → State W → Bool × State W
  commit desired s = (true, note Operation.op_shadow desired (record s { shadow = desired }))

  -- From the full-bank clear on.
  unfoldable pub drive : ℕ → ℕ → State W → Bool × State W
  unfolding fail audit
  drive desired bank s =
      let s₁ : State W = note Operation.op_clear gpio_mask s in
      let cleared = backend.clear_fixed_bank s₁.wires in
      let s₂ : State W = record s₁ { wires = cleared.1 } in
      if not cleared.0
      then fail s₂
      else if desired == 0
      then commit desired s₂
      else let s₃ : State W = note Operation.op_set desired s₂ in
        let was_set = backend.set_fixed_bank bank s₃.wires in
        let s₄ : State W = record s₃ { wires = was_set.1 } in
        if not was_set.0 then fail s₄ else commit desired s₄

  -- After the test of `g_inhibited`.
  unfoldable pub change : ℕ → ℕ → State W → Bool × State W
  unfolding drive
  change desired bank s =
      if desired == s.shadow then (true, note Operation.op_noop desired s) else drive desired bank s

  -- `digital_out_apply`
  unfoldable pub apply : ℕ → ℕ → ℕ → State W → Bool × State W
  unfolding force_safe change
  apply p1 p2 alarm s =
      let desired : ℕ = desired_pins p1 p2 alarm in
      let bank : ℕ = logical_bank p1 p2 alarm in
      if ltb 1 p1 || ltb 1 p2 || ltb 1 alarm
      then (false, s)
      else if not s.configured || s.fatal
      then (false, (force_safe s).1)
      else if s.inhibited
      then (if not s.reconcile_armed
          then (false, note Operation.op_refuse desired s)
          else change desired bank (record s { inhibited = false; reconcile_armed = false }))
      else change desired bank s

  -- `digital_out_apply_direct`, with the roles that are live.
  unfoldable pub apply_direct : Option Roles → ℕ → ℕ → ℕ → ℕ → ℕ → State W → Bool × State W
  unfolding apply
  apply_direct none bank generation incarnation output_owner output_sequence s = (false, s)
  apply_direct (some roles) bank generation incarnation output_owner output_sequence s =
      if is_fresh bank generation incarnation output_owner output_sequence roles s.freshness
      then apply (bank % 2) (bank / 2 % 2) (bank / 4 % 2)
          (record s { freshness = disarm s.freshness })
      else (false, s)
