-- ===== src/DigitalOut/Latch.antt =====
-- What the guards of the output bank hold back: writes while it is unconfigured, failed or inhibited,
-- and samples that are used twice.
use trinitite.Base.{
  ℕ, ◌%◌, ◌/◌, ◌≡◌, refl, Bool, true, false, ◌||◌, ◌&&◌, not, Option, none, some, List, [], ◌∷◌,
  arith, ltb, ◌==◌, if-cases, inl, inr, ◌⊎◌,
}
use trinitite.DigitalOut.Bank.{
  Backend, State, Roles, disarm, is_fresh, note_legacy_external_sample, arm_closed_sample,
  clear_closed_sample, force_safe, apply, apply_direct,
}
use trinitite.DigitalOut.Wires.{Call, call, calls}

module _ {W : Type 0} (backend : Backend W) where
  -- The pins after some clears and nothing else.
  pub data Cleared : W → W → Type 0 where
    same : (w : W) → Cleared w w
    clear : (w v : W) → Cleared (backend.clear_fixed_bank w).1 v → Cleared w v

  Cleared-trans : {a b c : W} → Cleared a b → Cleared b c → Cleared a c
  Cleared-trans (same w) q = q
  Cleared-trans (clear w v p) q = clear w _ (Cleared-trans p q)

  once : (w : W) → Cleared w (backend.clear_fixed_bank w).1
  once w = clear w _ (same _)

  -- The bank takes a new value.
  abbrev pub Enabled : State W → Type 0
  Enabled s =
      (s.configured ≡ true)
      × (s.fatal ≡ false)
      × ((s.inhibited ≡ false) ⊎ (s.reconcile_armed ≡ true))

  -- The calls that do not prepare the bank anew.
  abbrev pub IsOrdinary : Call → Type 0
  IsOrdinary Call.boot_safe_call = ⊥
  IsOrdinary Call.prepare_call = ⊥
  IsOrdinary Call.force_safe_call = Unit
  IsOrdinary Call.note_call = Unit
  IsOrdinary Call.clear_sample_call = Unit
  IsOrdinary (Call.arm_call g i o q) = Unit
  IsOrdinary (Call.apply_call p1 p2 alarm) = Unit
  IsOrdinary (Call.apply_direct_call roles bank g i o q) = Unit

  abbrev pub AllOrdinary : List Call → Type 0
  AllOrdinary [] = Unit
  AllOrdinary (c ∷ cs) = IsOrdinary c × AllOrdinary cs

  abbrev pub Latched : State W → State W → Type 0
  Latched s s' = (s'.fatal ≡ true) × Cleared s.wires s'.wires

  abbrev LatchedAfter : State W → Bool × State W → Type 0
  LatchedAfter s r = (r.0 ≡ false) × Latched s r.1

  -- The call refused, and the pins are as they were or cleared.
  abbrev pub Refused : State W → Bool × State W → Type 0
  Refused s r = (r.0 ≡ false) × Cleared s.wires r.1.wires

  apply-Latched :
      (p1 p2 alarm : ℕ) (s : State W)
      → s.fatal ≡ true
      → ((apply backend p1 p2 alarm s).0 ≡ false) × Latched s (apply backend p1 p2 alarm s).1
  unfolding apply force_safe
  apply-Latched p1 p2 alarm s f =
      if-cases (LatchedAfter s) (ltb 1 p1 || ltb 1 p2 || ltb 1 alarm)
        (λ e. (refl, (f, same s.wires)))
        (λ e.
          if-cases (LatchedAfter s) (not s.configured || s.fatal)
            (λ k. (refl, (unfold force_safe in ground arith, once s.wires)))
            (λ k. absurd (ground arith)))

  apply_direct-Latched :
      (roles : Option Roles) (bank g i o q : ℕ) (s : State W)
      → s.fatal ≡ true
      → Latched s (apply_direct backend roles bank g i o q s).1
  unfolding apply_direct
  apply_direct-Latched none bank g i o q s f = (f, same s.wires)
  apply_direct-Latched (some roles) bank g i o q s f =
      if-cases (λ (r : Bool × State W). Latched s r.1) (is_fresh bank g i o q roles s.freshness)
        (λ e.
          (apply-Latched (bank % 2) (bank / 2 % 2) (bank / 4 % 2)
            (record s { freshness = disarm s.freshness }) f).1)
        (λ e. (f, same s.wires))

  call-Latched :
      (c : Call) (s : State W) → IsOrdinary c → s.fatal ≡ true → Latched s (call backend c s)
  unfolding call force_safe note_legacy_external_sample arm_closed_sample clear_closed_sample
  call-Latched Call.boot_safe_call s h f = absurd h
  call-Latched Call.prepare_call s h f = absurd h
  call-Latched Call.force_safe_call s h f = (ground arith, once s.wires)
  call-Latched Call.note_call s h f =
      if-cases (Latched s) (s.inhibited && not s.fatal) (λ e. (f, same s.wires))
        (λ e. (f, same s.wires))
  call-Latched Call.clear_sample_call s h f = (f, same s.wires)
  call-Latched (Call.arm_call g i o q) s h f =
      if-cases (Latched s) (not (g == 0) && not (i == 0) && not (o == 0) && not (q == 0))
        (λ e.
          if-cases (Latched s) (s.inhibited && not s.fatal) (λ k. (f, same s.wires))
            (λ k. (f, same s.wires)))
        (λ e. (f, same s.wires))
  call-Latched (Call.apply_call p1 p2 alarm) s h f = (apply-Latched p1 p2 alarm s f).1
  call-Latched (Call.apply_direct_call roles bank g i o q) s h f =
      apply_direct-Latched roles bank g i o q s f

-- Once a failure is latched, no sequence of calls sets a pin until the bank is prepared anew: the failure
-- stays latched, `apply` refuses, and the pins see nothing but clears.
pub calls-Latched :
    {W : Type 0} (backend : Backend W) (cs : List Call) (s : State W) (p1 p2 alarm : ℕ)
    → AllOrdinary backend cs
    → s.fatal ≡ true
    → Latched backend s (calls backend cs s)
      × ((apply backend p1 p2 alarm (calls backend cs s)).0 ≡ false)
calls-Latched backend [] s p1 p2 alarm h f =
    ((f, same s.wires), (apply-Latched backend p1 p2 alarm s f).0)
calls-Latched backend (c ∷ cs) s p1 p2 alarm h f =
    let now = call-Latched backend c s h.0 f in
    let later = calls-Latched backend cs (call backend c s) p1 p2 alarm h.1 now.0 in
    ((later.0.0, Cleared-trans backend now.1 later.0.1), later.1)

-- `apply` sets no pin unless the bank is enabled: configured, no failure latched, and not inhibited or
-- armed for reconciliation. Otherwise it refuses, and the pins are as they were or were cleared.
pub apply_disabled :
    {W : Type 0} (backend : Backend W) (p1 p2 alarm : ℕ) (s : State W)
    → ¬ Enabled backend s
    → ((apply backend p1 p2 alarm s).0 ≡ false)
      × Cleared backend s.wires (apply backend p1 p2 alarm s).1.wires
unfolding apply
apply_disabled backend p1 p2 alarm s ne =
    if-cases (Refused backend s) (ltb 1 p1 || ltb 1 p2 || ltb 1 alarm) (λ e. (refl, same s.wires))
      λ e.
        if-cases (Refused backend s) (not s.configured || s.fatal)
          (λ k. (refl, unfold force_safe in once backend s.wires))
          λ k.
            if-cases (Refused backend s) s.inhibited
              (λ i.
                if-cases (Refused backend s) (not s.reconcile_armed) (λ r. (refl, same s.wires))
                  (λ r. absurd (ne (ground arith, ground arith, inr (ground arith)))))
              (λ i. absurd (ne (ground arith, ground arith, inl i)))
