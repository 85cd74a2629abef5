-- ===== src/Bignum/Print.antt =====
-- `bn_to_decimal`: an atom to decimal text, as bytes.
use native.Mathlib.Nat.{pow-suc}
use trinitite.Base.{
  ℕ, zero, suc, ◌+◌, ◌-◌, ◌*◌, ◌/◌, ◌%◌, ◌^◌, ◌≤◌, ◌<◌, ◌≡◌, refl, sym, ap, ◌∙◌, List, [], ◌∷◌,
  arith, length, take, ltb, false, if◌then◌else◌, if-cases, subst, inl, inr, length-take,
  take_of_le, ltb→lt,
}
use trinitite.Base.Outcome.{Outcome, ok, spent, ◌>>=◌}
use trinitite.Noun.{Noun}
use trinitite.Noun.Limbs.{limb_base, value, IsLimbs, IsLimbs-take, Trimmed-pos}
use trinitite.Noun.Atom.{val, IsAtom-val_injective, trim, value-trim, trim-Trimmed, trim_bounds}
use trinitite.Bignum.Scratch.{
  atom_limbs, Fits, Fits-IsAtom, scratch_of, atom_limbs-eq-ok, scratch_of-IsScratch,
}
use trinitite.Bignum.Compare.{Normal, scratch_of-Normal}
use trinitite.Bignum.Mul.{is_zero, is_zero-value}
use trinitite.Bignum.Decimal.{number, AllDigits, bn_from_decimal, bn_from_decimal-Yields}

-- The quotient and the remainder, from the highest limb down.
unfoldable pub div10_inplace : List ℕ → List ℕ × ℕ
div10_inplace [] = ([], 0)
div10_inplace (x ∷ limbs) =
    let high = div10_inplace limbs in
    let cur : ℕ = high.1 * limb_base + x in ((cur / 10 % limb_base) ∷ high.0, cur % 10)

-- BN_DECIMAL_MAX
abbrev pub decimal_max : ℕ
decimal_max = 512

abbrev pub trimmed : List ℕ → List ℕ
trimmed l = take (trim l (length l)) l

-- The loop that collects digits, on fuel. `tmp` is held in the order of `buf`, the highest digit first.
unfoldable pub collect : ℕ → List ℕ → List ℕ → Outcome (List ℕ)
unfolding div10_inplace trim
collect zero scratch tmp = spent
collect (suc fuel) scratch tmp =
    let divided = div10_inplace scratch in
    let rest =
      collect fuel (trimmed divided.0)
        (if ltb (length tmp) decimal_max then (48 + divided.1) ∷ tmp else tmp) in
    if is_zero scratch then ok tmp else rest

-- 64 limbs have less than 1280 digits.
abbrev decimal_fuel : ℕ
decimal_fuel = 1280

unfoldable pub bn_to_decimal : Noun → ℕ → Outcome (List ℕ)
unfolding atom_limbs collect
bn_to_decimal a buflen = do
  scratch ← atom_limbs a
  if is_zero scratch then ok (if ltb buflen 1 then [] else 48 ∷ []) else do
    tmp ← collect decimal_fuel scratch []
    ok (if ltb buflen (length tmp) then [] else tmp)

-- What the division leaves.
pub record Divides (l : List ℕ) (r : List ℕ × ℕ) : Type 0 where
  pub exact : value l ≡ 10 * value r.0 + r.1
  pub small : r.1 < 10
  pub limbs : IsLimbs r.0
  pub same_length : length r.0 ≡ length l

div10_inplace-Divides : (l : List ℕ) → IsLimbs l → Divides l (div10_inplace l)
unfolding div10_inplace
div10_inplace-Divides [] h = record {
  exact = refl;
  small = omega arith;
  limbs = tt;
  same_length = refl;
}
div10_inplace-Divides (x ∷ l) h =
    let d = div10_inplace-Divides l h.1 in
    record {
      exact = omega (arith, d.exact, d.small, h.0);
      small = omega arith;
      limbs = (omega arith, d.limbs);
      same_length = ap suc d.same_length;
    }

number-add : (n : ℕ) (buf : List ℕ) → number n buf ≡ n * 10 ^ length buf + number 0 buf
number-add n [] = omega arith
number-add n (c ∷ buf) = omega (
  arith,
  number-add (n * 10 + (c - 48)) buf,
  number-add (0 * 10 + (c - 48)) buf,
  ap (λ (t : ℕ). n * t) (pow-suc 10 (length buf)),
)

Normal-pos : (l : List ℕ) → Normal l → 0 < length l → is_zero l ≡ false → 0 < value l
Normal-pos [] n p z = absurd (omega arith)
Normal-pos (x ∷ []) n p z = ground arith
Normal-pos (x ∷ (y ∷ l)) (inl e) p z = absurd (omega (arith, e))
Normal-pos (x ∷ (y ∷ l)) (inr t) p z = Trimmed-pos (x ∷ (y ∷ l)) t

-- A scratch array of the loop.
pub record IsScratchOf (v : ℕ) (l : List ℕ) : Type 0 where
  pub limbs : IsLimbs l
  pub nonempty : 0 < length l
  pub normal : Normal l
  pub value_eq : value l ≡ v

trimmed-IsScratchOf : (l : List ℕ) → IsLimbs l → 0 < length l → IsScratchOf (value l) (trimmed l)
trimmed-IsScratchOf l h p = record {
  limbs = IsLimbs-take (trim l (length l)) l h;
  nonempty = omega (arith, length-take (trim l (length l)) l, b.0, b.1 p, p);
  normal = normal_of (length l) refl p;
  value_eq = value-trim l (length l) ∙ ap value (take_of_le (length l) l (omega arith));
}
  where
    b : (trim l (length l) ≤ length l) × (0 < length l → 0 < trim l (length l))
    b = trim_bounds l (length l)

    normal_of : (n : ℕ) → n ≡ length l → 0 < n → Normal (take (trim l n) l)
    normal_of zero e q = absurd (omega arith)
    normal_of (suc k) e q = elim (trim-Trimmed l k (omega (arith, e))) [
      | inl o ↦ inl (omega (arith, length-take (trim l (suc k)) l, o, e))
      | inr t ↦ inr t
    ]

-- The text of the digits before `tmp` and of `tmp`.
pub record Text (v : ℕ) (tmp : List ℕ) (o : Outcome (List ℕ)) : Type 0 where
  pub text : List ℕ
  pub returns : o ≡ ok text
  pub meaning : number 0 text ≡ v * 10 ^ length tmp + number 0 tmp
  pub digits : AllDigits text
  pub short : length text ≤ decimal_max

-- A digit more in front.
more-Text :
    (v w r : ℕ) (tmp : List ℕ) (o : Outcome (List ℕ))
    → v ≡ 10 * w + r
    → Text w ((48 + r) ∷ tmp) o
    → Text v tmp o
more-Text v w r tmp o e t = record {
  text = t.text;
  returns = t.returns;
  meaning = omega (
    arith,
    t.meaning,
    number-add (0 * 10 + (48 + r - 48)) tmp,
    ap (λ (k : ℕ). w * k) (pow-suc 10 (length tmp)),
    ap (λ (k : ℕ). k * 10 ^ length tmp) e,
    ap (λ (k : ℕ). k * 10 ^ length tmp) (digit r),
  );
  digits = t.digits;
  short = t.short;
}
  where
    digit : (r : ℕ) → 0 * 10 + (48 + r - 48) ≡ r
    digit r = omega arith

-- The claim of `collect-Text` at one fuel.
abbrev Collects : ℕ → Type 0
Collects fuel =
    (d v : ℕ) (l tmp : List ℕ)
    → d < fuel
    → v < 10 ^ d
    → length tmp + d ≤ decimal_max
    → IsScratchOf v l
    → AllDigits tmp
    → Text v tmp (collect fuel l tmp)

-- One round of the loop, where a digit is left.
collect_round :
    (f d v : ℕ) (l tmp : List ℕ)
    → Collects f
    → d < suc f
    → v < 10 ^ d
    → length tmp + d ≤ decimal_max
    → IsScratchOf v l
    → AllDigits tmp
    → 0 < v
    → Text v tmp (
        collect f
          (trimmed (div10_inplace l).0)
          (if ltb (length tmp) decimal_max then (48 + (div10_inplace l).1) ∷ tmp else tmp))
collect_round f zero v l tmp ih hf hv hs s t p = absurd (omega (arith, hv))
collect_round f (suc d) v l tmp ih hf hv hs s t p =
    let q = div10_inplace-Divides l s.limbs in
    let exact : v ≡ 10 * value (div10_inplace l).0 + (div10_inplace l).1 =
      sym s.value_eq ∙ q.exact in
    if-cases (λ tmp'. Text v tmp (collect f (trimmed (div10_inplace l).0) tmp'))
      (ltb (length tmp) decimal_max)
      (λ e. more-Text v (value (div10_inplace l).0) (div10_inplace l).1 tmp _ exact (
        ih d (value (div10_inplace l).0) (trimmed (div10_inplace l).0)
          ((48 + (div10_inplace l).1) ∷ tmp) (omega arith) (omega (arith, pow-suc 10 d, exact, hv))
          (omega (arith, hs))
          (trimmed-IsScratchOf (div10_inplace l).0 q.limbs
            (omega (arith, q.same_length, s.nonempty)))
          ((omega arith, omega (arith, q.small)), t)))
      (λ e. absurd (ground (arith, hs)))

collect-Text : (fuel : ℕ) → Collects fuel
unfolding collect
collect-Text zero d v l tmp hf hv hs s t = absurd (omega arith)
collect-Text (suc f) d v l tmp hf hv hs s t =
    if-cases (Text v tmp) (is_zero l)
      (λ z. record {
        text = tmp;
        returns = refl;
        meaning =
            omega
              (arith, ap (λ (k : ℕ). k * 10 ^ length tmp) (sym (is_zero-value l z) ∙ s.value_eq));
        digits = t;
        short = omega (arith, hs);
      })
      (λ z.
        collect_round f d v l tmp (collect-Text f) hf hv hs s t
          (subst (λ k. 0 < k) s.value_eq (Normal-pos l s.normal s.nonempty z)))

-- The text of a number below 10 ^ 512, in a buffer of BN_DECIMAL_MAX bytes.
to_decimal-Text :
    (a : Noun)
    → Fits a
    → val a < 10 ^ decimal_max
    → (text : List ℕ) × (bn_to_decimal a decimal_max ≡ ok text)
      × (number 0 text ≡ val a)
      × AllDigits text
unfolding bn_to_decimal
to_decimal-Text a h small =
    let s = scratch_of-IsScratch a h in
    let t =
      collect-Text decimal_fuel decimal_max (val a) (scratch_of a) [] (omega arith) small
        (omega arith)
        (record {
          limbs = s.limbs;
          nonempty = s.nonempty;
          normal = scratch_of-Normal a h;
          value_eq = s.value_eq;
        })
        tt in
    rw (atom_limbs-eq-ok a h) (
      if-cases (λ o. (text : List ℕ) × (o ≡ ok text) × (number 0 text ≡ val a) × AllDigits text)
        (is_zero (scratch_of a))
        (λ z. (
          48 ∷ [],
          refl,
          sym (is_zero-value (scratch_of a) z) ∙ s.value_eq,
          ((omega arith, omega arith), tt),
        ))
        (λ z. rw t.returns (
          if-cases
            (λ l. (text : List ℕ) × (ok l ≡ ok text) × (number 0 text ≡ val a) × AllDigits text)
            (ltb decimal_max (length t.text))
            (λ e. absurd (omega (arith, t.short, ltb→lt decimal_max (length t.text) e)))
            (λ e. (t.text, refl, t.meaning ∙ omega arith, t.digits)))))

-- Every canonical atom below 10 ^ 512 is printed by `bn_to_decimal` into a buffer of 512 bytes, in decimal
-- digits that mean its value, and `bn_from_decimal` reads them back as the same atom.
pub bn_from_decimal-bn_to_decimal :
    (a : Noun)
    → Fits a
    → val a < 10 ^ decimal_max
    → (text : List ℕ) × (bn_to_decimal a decimal_max ≡ ok text)
      × (number 0 text ≡ val a)
      × AllDigits text
      × (bn_from_decimal text ≡ ok a)
bn_from_decimal-bn_to_decimal a h small =
    let t = to_decimal-Text a h small in
    let y = bn_from_decimal-Yields t.0 t.3 (omega (arith, t.2, small)) in
    (t.0, t.1, t.2, t.3, y.1 ∙ ap ok (IsAtom-val_injective y.0 a y.2 (Fits-IsAtom a h) (y.3 ∙ t.2)))
