-- ===== src/DigitalOut/Log.antt =====
-- The audit ring: the last 64 operations, each with its ordinal.
use trinitite.Base.{
  ℕ, ◌+◌, ◌-◌, ◌%◌, ◌^◌, ◌≤◌, ◌<◌, ◌≡◌, ap, ◌∙◌, List, arith, length, get_or, set, length-set,
  get_or-set_self, get_or-set_ne, ltb, if◌then◌else◌, Bool-cases, inl, inr, ==_iff, ◌==◌,
}

-- `enum digital_out_operation`, by its numbers.
pub data Operation : Type 0 where
  op_configure op_clear op_set op_noop op_refuse op_shadow : Operation

-- `digital_out_audit_t`
pub record AuditEntry : Type 0 where
  pub ordinal : ℕ
  pub operation : Operation
  pub value : ℕ

-- `g_audit`, `g_audit_total` and `g_audit_dropped`
pub record Log : Type 0 where
  pub ring : List AuditEntry
  pub total : ℕ
  pub dropped : ℕ

-- DIGITAL_OUT_AUDIT_CAP
abbrev pub audit_cap : ℕ
audit_cap = 64

unfoldable pub audit : Operation → ℕ → Log → Log
audit operation value g =
    let ordinal : ℕ = (g.total + 1) % 2 ^ 64 in
    let slot : ℕ = (ordinal + 2 ^ 64 - 1) % 2 ^ 64 % audit_cap in
    record {
      ring = set g.ring slot (record { ordinal = ordinal; operation = operation; value = value });
      total = ordinal;
      dropped = if ltb audit_cap ordinal then (g.dropped + 1) % 2 ^ 64 else g.dropped;
    }

-- `digital_out_audit_count`
unfoldable pub audit_count : Log → ℕ
audit_count g = if ltb g.total audit_cap then g.total else audit_cap

abbrev blank : AuditEntry
blank = record { ordinal = 0; operation = Operation.op_noop; value = 0 }

-- The entry of an ordinal.
abbrev pub entry_of : Log → ℕ → AuditEntry
entry_of g o = get_or g.ring ((o - 1) % audit_cap) blank

-- The ring holds the operations with the last ordinals, and the rest are counted as dropped.
pub record IsLog (g : Log) : Type 0 where
  pub size : length g.ring ≡ audit_cap
  pub kept : (o : ℕ) → 0 < o → o ≤ g.total → g.total < o + audit_cap → (entry_of g o).ordinal ≡ o
  pub all : g.total ≡ audit_count g + g.dropped

module _ (operation : Operation) (value : ℕ) (g : Log) (v : IsLog g)
    (room : g.total + 1 < 2 ^ 64) where
  total-audit : (audit operation value g).total ≡ g.total + 1
  unfolding audit
  total-audit = omega (arith, room)

  count-audit :
      (audit operation value g).total
      ≡ audit_count (audit operation value g) + (audit operation value g).dropped
  unfolding audit audit_count
  count-audit = ground (arith, room, all_before)
    where
      all_before : g.total ≡ (if ltb g.total audit_cap then g.total else audit_cap) + g.dropped
      all_before = unfold audit_count in v.all

  abbrev newest : AuditEntry
  newest = record { ordinal = (g.total + 1) % 2 ^ 64; operation = operation; value = value }

  entry_of-audit :
      (o : ℕ)
      → 0 < o
      → entry_of (audit operation value g) o
        ≡ get_or (set g.ring (g.total % audit_cap) newest) ((o - 1) % audit_cap) blank
  unfolding audit
  entry_of-audit o p =
      ap (λ (i : ℕ). get_or (set g.ring i newest) ((o - 1) % audit_cap) blank) (omega (arith, room))

  -- The new operation is the entry of the new ordinal.
  entry_of-new : entry_of (audit operation value g) (g.total + 1) ≡ newest
  entry_of-new =
      entry_of-audit (g.total + 1) (omega arith)
      ∙ ap (λ (i : ℕ). get_or (set g.ring (g.total % audit_cap) newest) (i % audit_cap) blank)
          (omega arith)
      ∙ get_or-set_self g.ring (g.total % audit_cap) newest blank (omega (arith, v.size))

  entry_of-old :
      (o : ℕ)
      → 0 < o
      → o ≤ g.total
      → g.total + 1 < o + audit_cap
      → entry_of (audit operation value g) o ≡ entry_of g o
  entry_of-old o p h k =
      entry_of-audit o p
      ∙ get_or-set_ne g.ring (g.total % audit_cap) ((o - 1) % audit_cap) newest blank
          (λ e. omega (arith, e))

-- Below the wrap of the 64-bit count, `audit` keeps the ring in order: the last 64 operations stand in
-- it under their ordinals, the newest with what was audited, and every other one is counted as dropped.
pub audit-IsLog :
    (operation : Operation) (value : ℕ) (g : Log)
    → IsLog g
    → g.total + 1 < 2 ^ 64
    → IsLog (audit operation value g)
      × ((audit operation value g).total ≡ g.total + 1)
      × (entry_of (audit operation value g) (g.total + 1)
          ≡ record { ordinal = g.total + 1; operation = operation; value = value })
audit-IsLog operation value g v room = (
  record {
    size = unfold audit in (length-set g.ring _ _ ∙ v.size);
    kept = λ o p h k. elim (Bool-cases (o == g.total + 1)) [
      | inl e ↦
          ap (λ (i : ℕ). (entry_of (audit operation value g) i).ordinal)
            ((==_iff o (g.total + 1)).0 e)
          ∙ ap (λ a. a.ordinal) (entry_of-new operation value g v room)
          ∙ omega (arith, room, (==_iff o (g.total + 1)).0 e)
      | inr e ↦
          let t = total-audit operation value g v room in
          let older : o ≤ g.total = ground arith in
          ap (λ a. a.ordinal)
            (entry_of-old operation value g v room o p older (omega (arith, t, k)))
          ∙ v.kept o p older (omega (arith, t, k))
    ];
    all = count-audit operation value g v room;
  },
  total-audit operation value g v room,
  entry_of-new operation value g v room
      ∙ ap (λ (i : ℕ). record { ordinal = i; operation = operation; value = value })
          (omega (arith, room)),
)
