-- ===== src/DigitalOut/Command.antt =====
-- Commands that the output bank takes: `digital_out_apply` and `digital_out_apply_direct`.
use trinitite.Base.{
  ℕ, ◌%◌, ◌/◌, ◌<◌, ◌≤◌, ◌≡◌, ◌≢◌, refl, ◌∙◌, sym, Bool, true, false, ◌||◌, not, Option, none, some,
  arith, ltb, ◌==◌, ==_iff, if-cases,
}
use trinitite.DigitalOut.Bank.{
  Backend, State, Roles, Freshness, desired_pins, logical_bank, disarm, is_fresh, force_safe, fail,
  drive, change, apply, apply_direct,
}
use trinitite.DigitalOut.Wires.{gpio_level, Drives, Tracks}

module _ {W : Type 0} (backend : Backend W) where
  -- The pins, the shadow and the flags after a command that was carried out.
  pub record Driven (desired : ℕ) (s : State W) : Type 0 where
    pub pins : gpio_level backend s.wires ≡ desired
    pub shadow : s.shadow ≡ desired
    pub healthy : s.fatal ≡ false
    pub enabled : s.inhibited ≡ false

  abbrev Succeeds : ℕ → Bool × State W → Type 0
  Succeeds desired r = r.0 ≡ true → Driven desired r.1

  module _ (drives : Drives backend) (p1 p2 alarm : ℕ) (h1 : p1 < 2) (h2 : p2 < 2)
      (h3 : alarm < 2) where
    drive-Driven :
        (s : State W)
        → s.inhibited ≡ false
        → s.fatal ≡ false
        → Succeeds
            (desired_pins p1 p2 alarm)
            (drive backend (desired_pins p1 p2 alarm) (logical_bank p1 p2 alarm) s)
    unfolding drive fail
    drive-Driven s i f r =
        let cleared = drives.clear_low s.wires in
        let was_set = drives.set_pins p1 p2 alarm (backend.clear_fixed_bank s.wires).1 h1 h2 h3 in
        record {
          pins = ground (arith, cleared, was_set);
          shadow = ground arith;
          healthy = ground arith;
          enabled = ground arith;
        }

    change-Driven :
        (s : State W)
        → s.inhibited ≡ false
        → s.fatal ≡ false
        → gpio_level backend s.wires ≡ s.shadow
        → Succeeds
            (desired_pins p1 p2 alarm)
            (change backend (desired_pins p1 p2 alarm) (logical_bank p1 p2 alarm) s)
    unfolding change
    change-Driven s i f l =
        if-cases (Succeeds (desired_pins p1 p2 alarm)) (desired_pins p1 p2 alarm == s.shadow)
          (λ e r.
            let same = (==_iff (desired_pins p1 p2 alarm) s.shadow).0 e in
            record { pins = l ∙ sym same; shadow = sym same; healthy = f; enabled = i })
          (λ e. drive-Driven s i f)

-- While the shadow is the level of the pins, an `apply` that returns 1 had three bits, and has left the
-- pins and the shadow at the bank that they mean, with no failure latched and no inhibition.
pub apply-Driven :
    {W : Type 0} (backend : Backend W)
    → Drives backend
    → (p1 p2 alarm : ℕ) (s : State W) → Tracks backend s
    → (apply backend p1 p2 alarm s).0 ≡ true
    → (p1 < 2)
      × (p2 < 2)
      × (alarm < 2)
      × Driven backend (desired_pins p1 p2 alarm) (apply backend p1 p2 alarm s).1
unfolding apply
apply-Driven {W} backend drives p1 p2 alarm s t =
    if-cases Taken (ltb 1 p1 || ltb 1 p2 || ltb 1 alarm) (λ e r. absurd (ground (arith, r)))
      λ e.
        let h1 : p1 < 2 = ground arith in
        let h2 : p2 < 2 = ground arith in
        let h3 : alarm < 2 = ground arith in
        if-cases Taken (not s.configured || s.fatal) (λ k r. absurd (ground (arith, r)))
          λ k.
            let f : s.fatal ≡ false = ground arith in
            let l : gpio_level backend s.wires ≡ s.shadow = t.level (ground arith) f in
            if-cases Taken s.inhibited
              (λ i.
                if-cases Taken (not s.reconcile_armed) (λ a r. absurd (ground (arith, r)))
                  (λ a r. (
                    h1,
                    h2,
                    h3,
                    change-Driven backend drives p1 p2 alarm h1 h2 h3
                        (record s { inhibited = false; reconcile_armed = false }) refl f l r,
                  )))
              (λ i r. (h1, h2, h3, change-Driven backend drives p1 p2 alarm h1 h2 h3 s i f l r))
  where
    Taken : Bool × State W → Type 0
    Taken r =
        r.0 ≡ true
        → (p1 < 2) × (p2 < 2) × (alarm < 2) × Driven backend (desired_pins p1 p2 alarm) r.1

module _ {W : Type 0} (backend : Backend W) where
  abbrev Disarmed : Bool × State W → Type 0
  Disarmed r = r.1.freshness.armed ≡ false

  change-Disarmed :
      (desired bank : ℕ) (s : State W)
      → s.freshness.armed ≡ false
      → Disarmed (change backend desired bank s)
  unfolding change drive fail force_safe
  change-Disarmed desired bank s a = ground arith

  apply-Disarmed :
      (p1 p2 alarm : ℕ) (s : State W)
      → s.freshness.armed ≡ false
      → Disarmed (apply backend p1 p2 alarm s)
  unfolding apply force_safe
  apply-Disarmed p1 p2 alarm s a =
      if-cases Disarmed (ltb 1 p1 || ltb 1 p2 || ltb 1 alarm) (λ e. a)
        λ e.
          if-cases Disarmed (not s.configured || s.fatal) (λ k. refl)
            λ k.
              if-cases Disarmed s.inhibited
                (λ i.
                  if-cases Disarmed (not s.reconcile_armed) (λ r. a)
                    (λ r.
                      change-Disarmed _ _ (record s { inhibited = false; reconcile_armed = false })
                        a))
                (λ i. change-Disarmed _ _ s a)

  disarmed-refuses :
      (roles : Option Roles) (bank g i o q : ℕ) (s : State W)
      → s.freshness.armed ≡ false
      → apply_direct backend roles bank g i o q s ≡ (false, s)
  unfolding apply_direct
  disarmed-refuses none bank g i o q s a = refl
  disarmed-refuses (some roles) bank g i o q s a =
      if-cases Refuses (is_fresh bank g i o q roles s.freshness) (λ e. absurd (ground (arith, e)))
        (λ e. refl)
    where
      Refuses : Bool × State W → Type 0
      Refuses r = r ≡ (false, s)

-- A command that matches an armed sample: its bank is one of the eight, the sample is of the generation
-- and incarnation named and of the owner of the input bank, the command is of the owner of the output bank,
-- and neither has the sequence number 0.
pub record Matched (roles : Roles) (bank g i o q : ℕ) (f : Freshness) : Type 0 where
  pub in_bank : bank ≤ 7
  pub armed : f.armed ≡ true
  pub generation : f.generation ≡ g
  pub incarnation : f.incarnation ≡ i
  pub input_owner : f.owner ≡ roles.input_bank_owner
  pub input_sequence : f.sequence ≢ 0
  pub output_owner : o ≡ roles.output_bank_owner
  pub output_sequence : q ≢ 0

is_fresh-Matched :
    (roles : Roles) (bank g i o q : ℕ) (f : Freshness)
    → is_fresh bank g i o q roles f ≡ true
    → Matched roles bank g i o q f
is_fresh-Matched roles bank g i o q f e = record {
  in_bank = ground (arith, e);
  armed = ground (arith, e);
  generation = ground (arith, e);
  incarnation = ground (arith, e);
  input_owner = ground (arith, e);
  input_sequence = λ z. ground (arith, e, z);
  output_owner = ground (arith, e);
  output_sequence = λ z. ground (arith, e, z);
}

-- A direct command that returns 1 names one of the eight banks, by the owner of the output bank, with a
-- sequence number that is not 0, and matched an armed sample of the generation and incarnation that it
-- names, of the owner of the input bank, with a sequence number that is not 0. It used the sample up: the
-- next direct command is refused and changes nothing, whatever it names.
pub apply_direct-once :
    {W : Type 0} (backend : Backend W) (roles : Roles) (again : Option Roles)
    (bank g i o q bank' g' i' o' q' : ℕ) (s : State W)
    → (apply_direct backend (some roles) bank g i o q s).0 ≡ true
    → Matched roles bank g i o q s.freshness
      × (apply_direct backend again bank' g' i' o' q'
            (apply_direct backend (some roles) bank g i o q s).1
          ≡ (false, (apply_direct backend (some roles) bank g i o q s).1))
apply_direct-once {W} backend roles again bank g i o q bank' g' i' o' q' s =
    unfold apply_direct in
    if-cases Used (is_fresh bank g i o q roles s.freshness)
      (λ e r. (
        is_fresh-Matched roles bank g i o q s.freshness e,
        disarmed-refuses backend again bank' g' i' o' q' _ (
            apply-Disarmed backend (bank % 2) (bank / 2 % 2) (bank / 4 % 2)
              (record s { freshness = disarm s.freshness }) refl),
      ))
      (λ e r. absurd (ground (arith, r)))
  where
    Used : Bool × State W → Type 0
    Used r =
        r.0 ≡ true
        → Matched roles bank g i o q s.freshness
          × (apply_direct backend again bank' g' i' o' q' r.1 ≡ (false, r.1))
