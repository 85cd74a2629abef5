-- ===== src/Bignum/Shift.antt =====
-- `bn_lsh`: whole limbs first, then the bits that are left.
use native.Mathlib.Nat.{
  pow-suc, one-le-pow, mod-lt, mod-add-div', div-lt_iff_lt-mul, pow-le-pow_right,
}
use trinitite.Base.{
  ℕ, zero, suc, ◌+◌, ◌-◌, ◌*◌, ◌/◌, ◌%◌, ◌^◌, ◌≤◌, ◌<◌, ◌≡◌, ◌≢◌, refl, sym, ap, ap₂, ◌∙◌, List, [],
  ◌∷◌, ◌++◌, arith, length, replicate, ltb, ◌==◌, bit_or, if◌then◌else◌, if-cases, length-append,
  length-replicate, ==_iff, ltb→lt, Bool, true, false,
}
use trinitite.Base.Bits.{bit_or-shifted, pow-add}
use trinitite.Base.Outcome.{Outcome, ok, crash, ◌>>=◌}
use trinitite.Noun.{Noun}
use trinitite.Noun.Limbs.{limb_base, value, IsLimbs}
use trinitite.Noun.Atom.{val, Yields}
use trinitite.Bignum.Scratch.{
  max_limbs, atom_limbs, bn_normalize, bn_normalize-Yields, Fits, scratch_of, atom_limbs-eq-ok,
  scratch_of-IsScratch, IsScratch, Fits-IsAtom,
}

-- The loop for `bit_shift` > 0, on the part of `result` from the limb on, and the slot after the last.
unfoldable pub lsh_loop : ℕ → List ℕ → ℕ → List ℕ
lsh_loop bits [] carry = carry ∷ []
lsh_loop bits (x ∷ la) carry =
    bit_or (x * 2 ^ bits % limb_base) carry ∷ lsh_loop bits la (x / 2 ^ (64 - bits))

unfoldable pub lsh_result : List ℕ → ℕ → List ℕ
unfolding lsh_loop
lsh_result la k = replicate (k / 64) 0 ++ (if k % 64 == 0 then la else lsh_loop (k % 64) la 0)

-- `result_size`
abbrev pub lsh_size : ℕ → ℕ → ℕ
lsh_size sa k = sa + k / 64 + (if k % 64 == 0 then 0 else 1)

unfoldable pub bn_lsh : Noun → ℕ → Outcome Noun
unfolding atom_limbs lsh_result bn_normalize
bn_lsh a k = if k == 0 then ok a else do
  la ← atom_limbs a
  if ltb max_limbs (lsh_size (length la) k)
      then crash "bn_lsh: result too large"
      else bn_normalize (lsh_result la k) (lsh_size (length la) k)

mul-le_of_lt : (r t b : ℕ) → r < t → r * b + b ≤ t * b
mul-le_of_lt r t b h = omega (arith, ap (λ (n : ℕ). n * b) (gap r t h))
  where
    gap : (r t : ℕ) → r < t → t ≡ r + 1 + (t - r - 1)
    gap r t h = omega arith

-- A limb of two parts, shifted: `x` = `q` * 2 ^ (64 - bits) + `r`.
module _ (bits rest : ℕ) (sum : bits + rest ≡ 64) where
  full : 2 ^ rest * 2 ^ bits ≡ 2 ^ 64
  full = sym (pow-add 2 rest bits) ∙ ap (λ (t : ℕ). 2 ^ t) total
    where
      total : rest + bits ≡ 64
      total = omega (arith, sum)

  shifted_limb : (x : ℕ) → x * 2 ^ bits ≡ x % 2 ^ rest * 2 ^ bits + x / 2 ^ rest * 2 ^ 64
  shifted_limb x =
      ap (λ (t : ℕ). t * 2 ^ bits) (sym (mod-add-div' x (2 ^ rest)))
      ∙ omega (arith, ap (λ (t : ℕ). x / 2 ^ rest * t) full)

  low-lt : (x : ℕ) → x % 2 ^ rest * 2 ^ bits < 2 ^ 64
  low-lt x = omega (
    arith,
    mul-le_of_lt (x % 2 ^ rest) (2 ^ rest) (2 ^ bits) (mod-lt x (one-le-pow rest 2 (omega arith))),
    one-le-pow bits 2 (omega arith),
    full,
  )

  -- The low part leaves room for a carry.
  room : (x : ℕ) → x % 2 ^ rest * 2 ^ bits + 2 ^ bits ≤ 2 ^ 64
  room x = omega (
    arith,
    mul-le_of_lt (x % 2 ^ rest) (2 ^ rest) (2 ^ bits) (mod-lt x (one-le-pow rest 2 (omega arith))),
    full,
  )

  shifted_mod : (x : ℕ) → x * 2 ^ bits % limb_base ≡ x % 2 ^ rest * 2 ^ bits
  shifted_mod x = omega (arith, shifted_limb x, low-lt x)

  high-lt : (x : ℕ) → x < limb_base → x / 2 ^ rest < 2 ^ bits
  high-lt x h =
      (div-lt_iff_lt-mul {k = 2 ^ rest} {x = x} {y = 2 ^ bits} (one-le-pow rest 2 (omega arith))).1
        (omega (arith, full, h))

  limb_out :
      (x carry : ℕ)
      → carry < 2 ^ bits
      → bit_or (x * 2 ^ bits % limb_base) carry ≡ x % 2 ^ rest * 2 ^ bits + carry
  limb_out x carry h =
      ap (λ (t : ℕ). bit_or t carry) (shifted_mod x) ∙ bit_or-shifted bits (x % 2 ^ rest) carry h

module _ (bits : ℕ) (small : bits < 64) where
  rest_sum : bits + (64 - bits) ≡ 64
  rest_sum = omega (arith, small)

  value-lsh_loop :
      (la : List ℕ) (carry : ℕ)
      → IsLimbs la
      → carry < 2 ^ bits
      → value (lsh_loop bits la carry) ≡ value la * 2 ^ bits + carry
  unfolding lsh_loop
  value-lsh_loop [] carry h c = omega arith
  value-lsh_loop (x ∷ la) carry h c =
      let out = limb_out bits (64 - bits) rest_sum x carry c in
      let split = shifted_limb bits (64 - bits) rest_sum x in
      let up =
        value-lsh_loop la (x / 2 ^ (64 - bits)) h.1 (high-lt bits (64 - bits) rest_sum x h.0) in
      omega (arith, out, split, up)

  pow_small : 2 ^ bits ≤ limb_base
  pow_small = pow-le-pow_right {n = 2} (omega arith) {i = bits} {j = 64} (omega (arith, small))

  lsh_loop-IsLimbs :
      (la : List ℕ) (carry : ℕ) → IsLimbs la → carry < 2 ^ bits → IsLimbs (lsh_loop bits la carry)
  unfolding lsh_loop
  lsh_loop-IsLimbs [] carry h c = (omega (arith, c, pow_small), tt)
  lsh_loop-IsLimbs (x ∷ la) carry h c = (
    omega
        (arith, limb_out bits (64 - bits) rest_sum x carry c, room bits (64 - bits) rest_sum x, c),
    lsh_loop-IsLimbs la (x / 2 ^ (64 - bits)) h.1 (high-lt bits (64 - bits) rest_sum x h.0),
  )

  length-lsh_loop : (la : List ℕ) (carry : ℕ) → length (lsh_loop bits la carry) ≡ length la + 1
  unfolding lsh_loop
  length-lsh_loop [] carry = refl
  length-lsh_loop (x ∷ la) carry = omega (arith, length-lsh_loop la (x / 2 ^ (64 - bits)))

value-zeros : (w : ℕ) (l : List ℕ) → value (replicate w 0 ++ l) ≡ value l * limb_base ^ w
value-zeros zero l = omega arith
value-zeros (suc w) l =
    omega (arith, value-zeros w l, ap (λ (t : ℕ). value l * t) (pow-suc limb_base w))

zeros-IsLimbs : (w : ℕ) (l : List ℕ) → IsLimbs l → IsLimbs (replicate w 0 ++ l)
zeros-IsLimbs zero l h = h
zeros-IsLimbs (suc w) l h = (omega arith, zeros-IsLimbs w l h)

pub limb_base-pow : (w : ℕ) → limb_base ^ w ≡ 2 ^ (64 * w)
limb_base-pow zero = refl
limb_base-pow (suc w) =
    pow-suc limb_base w
    ∙ ap₂ ◌*◌ (limb_base-pow w) one_limb
    ∙ sym (pow-add 2 (64 * w) 64)
    ∙ ap (λ (t : ℕ). 2 ^ t) more
  where
    one_limb : limb_base ≡ 2 ^ 64
    one_limb = refl

    more : 64 * w + 64 ≡ 64 * suc w
    more = omega arith

pub pow-split : (k : ℕ) → 2 ^ k ≡ limb_base ^ (k / 64) * 2 ^ (k % 64)
pow-split k =
    ap (λ (t : ℕ). 2 ^ t) parts
    ∙ pow-add 2 (64 * (k / 64)) (k % 64)
    ∙ ap (λ (t : ℕ). t * 2 ^ (k % 64)) (sym (limb_base-pow (k / 64)))
  where
    parts : k ≡ 64 * (k / 64) + k % 64
    parts = omega arith

-- The result array and its size.
pub record Shifted (la : List ℕ) (k : ℕ) (shifted : List ℕ) (extra : ℕ) : Type 0 where
  pub limbs : IsLimbs shifted
  pub size : length shifted ≡ length la + extra
  pub value_eq : value shifted ≡ value la * 2 ^ (k % 64)

bits-Shifted :
    (la : List ℕ) (k : ℕ)
    → IsLimbs la
    → Shifted la k
        (if k % 64 == 0 then la else lsh_loop (k % 64) la 0)
        (if k % 64 == 0 then 0 else 1)
bits-Shifted la k h = choose (k % 64 == 0) refl
  where
    one : 0 < 2 ^ (k % 64)
    one = one-le-pow (k % 64) 2 (omega arith)

    choose :
        (b : Bool)
        → (k % 64 == 0) ≡ b
        → Shifted la k (if b then la else lsh_loop (k % 64) la 0) (if b then 0 else 1)
    choose true e = record {
      limbs = h;
      size = omega arith;
      value_eq = omega (arith, ap (λ (t : ℕ). value la * 2 ^ t) ((==_iff (k % 64) 0).0 e));
    }
    choose false e = record {
      limbs = lsh_loop-IsLimbs (k % 64) (omega arith) la 0 h one;
      size = length-lsh_loop (k % 64) (omega arith) la 0;
      value_eq = value-lsh_loop (k % 64) (omega arith) la 0 h one ∙ omega arith;
    }

-- For a canonical atom of at most 64 limbs `bn_lsh` multiplies by 2 ^ k, in canonical form, where its
-- estimate of the result's size is at most 64 limbs, and crashes where it is more and k is not 0.
pub bn_lsh-Yields :
    (a : Noun) (k : ℕ)
    → Fits a
    → (lsh_size (length (scratch_of a)) k ≤ max_limbs → Yields (bn_lsh a k) (val a * 2 ^ k))
      × (max_limbs < lsh_size (length (scratch_of a)) k
          → k ≢ 0
          → bn_lsh a k ≡ crash "bn_lsh: result too large")
unfolding bn_lsh lsh_result
bn_lsh-Yields a k fa = (
  λ fits.
      if-cases (λ o. Yields o (val a * 2 ^ k)) (k == 0)
        (λ z. (
          a,
          refl,
          Fits-IsAtom a fa,
          omega (arith, ap (λ (t : ℕ). val a * 2 ^ t) ((==_iff k 0).0 z)),
        ))
        (λ z. rw (atom_limbs-eq-ok a fa) (
          if-cases (λ o. Yields o (val a * 2 ^ k)) (ltb max_limbs (lsh_size (length la) k))
            (λ e. absurd (omega (arith, fits, ltb→lt max_limbs (lsh_size (length la) k) e)))
            (λ e.
              bn_normalize-Yields (lsh_result la k) (lsh_size (length la) k) (val a * 2 ^ k)
                (unfold lsh_result in zeros-IsLimbs (k / 64) _ s.limbs)
                (unfold lsh_result in
                  (length-append (replicate (k / 64) 0) _
                    ∙ omega (arith, s.size, length-replicate {A = ℕ} (k / 64) 0)))
                (omega (arith, sa.nonempty))
                (unfold lsh_result in
                  (value-zeros (k / 64) _
                    ∙ omega (
                      arith,
                      ap (λ (t : ℕ). t * limb_base ^ (k / 64))
                          (s.value_eq ∙ ap (λ (t : ℕ). t * 2 ^ (k % 64)) sa.value_eq),
                      ap (λ (t : ℕ). val a * t) (pow-split k),
                    )))))),
  λ big ne.
      if-cases (λ o. o ≡ crash "bn_lsh: result too large") (k == 0)
        (λ z. absurd (ne ((==_iff k 0).0 z)))
        (λ z. rw (atom_limbs-eq-ok a fa) (
          if-cases (λ (o : Outcome Noun). o ≡ crash "bn_lsh: result too large")
            (ltb max_limbs (lsh_size (length la) k)) (λ e. refl)
            (λ e. absurd (omega (arith, not_lt (lsh_size (length la) k) e, big))))),
)
  where
    la : List ℕ
    la = scratch_of a

    sa : IsScratch a (scratch_of a)
    sa = scratch_of-IsScratch a fa

    s :
        Shifted
          (scratch_of a)
          k
          (if k % 64 == 0 then scratch_of a else lsh_loop (k % 64) (scratch_of a) 0)
          (if k % 64 == 0 then 0 else 1)
    s = bits-Shifted (scratch_of a) k sa.limbs

    not_lt : (n : ℕ) → ltb max_limbs n ≡ false → n ≤ max_limbs
    not_lt n e = ground arith
