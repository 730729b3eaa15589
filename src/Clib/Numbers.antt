-- ===== src/Clib/Numbers.antt =====
-- `fill_numbuf` of shared/lib.c: the digits of a number, written downwards from a buffer's end.
use memory_management.Base.{
  ℕ, zero, suc, ◌+◌, ◌-◌, ◌*◌, ◌/◌, ◌%◌, ◌^◌, ◌≤◌, ◌<◌, ◌≡◌, refl, sym, ◌∙◌, inl, inr, Bool, false,
  ◌==◌, ltb, leb, if◌then◌else◌, dec_lt, update, Bool-cases, eq_of_==, ne_of_==, arith,
}
use memory_management.Base.Run.{Run, ok, out_of_fuel, Returns, returns, Returns-weaken}
use native.Mathlib.Nat.{div-lt_iff_lt-mul, mod-lt, div-add-mod', pow-zero}
use native.Mathlib.Numerals.{unary_clauses}
use memory_management.Clib.Memory.{Memory}

-- `upper_digits[d]` and `lower_digits[d]`
abbrev digit : (lower : Bool) → ℕ → ℕ
digit lower d = if ltb d 10 then 48 + d else if lower then 87 + d else 55 + d

-- The loop: the digit of the last place goes in front of those written, as long as the quotient is
-- not 0.
unfoldable fill_loop : ℕ → (lower : Bool) → (base p val : ℕ) → Memory → Run (ℕ × Memory)
fill_loop zero lower base p val m = out_of_fuel
fill_loop (suc fuel) lower base p val m =
    let m' = update m (p - 1) (digit lower (val % base)) in
    let rest = fill_loop fuel lower base (p - 1) (val / base) m' in
    if val / base == 0 then ok (p - 1, m') else rest

-- `-base` for a negative `base`, given by its bit pattern
abbrev magnitude : ℕ → ℕ
magnitude base = if leb (2 ^ 31) base then 2 ^ 32 - base else base

-- `fill_numbuf`; `base` is the bit pattern of an `int`, negative for lower-case digits. A base of
-- 2 or more leaves a 64-bit number at most 64 digits.
unfoldable pub fill_numbuf : (numbuf_end val base : ℕ) → Memory → Run (ℕ × Memory)
unfolding fill_loop
fill_numbuf numbuf_end val base m =
    fill_loop 64 (leb (2 ^ 31) base) (magnitude base) (numbuf_end - 1) val
      (update m (numbuf_end - 1) 0)

-- The value of a digit character.
abbrev digit_value : ℕ → ℕ
digit_value c = if ltb c 58 then c - 48 else if ltb c 71 then c - 55 else c - 87

-- The number that `n` digits from `p` on spell out, the first digit first.
abbrev number_at : (base n p : ℕ) → Memory → ℕ
number_at base zero p m = 0
number_at base (suc n) p m = number_at base n p m * base + digit_value (m (p + n))

-- Digits written below `p`: at least `least` and at most `k`, which spell `val`; nothing else
-- changes, and no digit is a NUL.
pub record Filled (base least p val k : ℕ) (m : Memory) (r : ℕ × Memory) : Type 0 where
  pub count : ℕ
  pub at : r.0 + count ≡ p
  pub some_digits : least ≤ count
  pub places : count ≤ k
  pub spells : number_at base count r.0 r.1 ≡ val
  pub above : (q : ℕ) → p ≤ q → r.1 q ≡ m q
  pub below : (q : ℕ) → q < r.0 → r.1 q ≡ m q
  pub unterminated : (q : ℕ) → r.0 ≤ q → q < p → 0 < r.1 q

digit_value-digit : (lower : Bool) (d : ℕ) → d < 16 → digit_value (digit lower d) ≡ d
digit_value-digit lower d h = ground arith

digit_pos : (lower : Bool) (d : ℕ) → 0 < digit lower d
digit_pos lower d = ground arith

div-lt-pow : (val base k : ℕ) → 2 ≤ base → val < base ^ suc k → val / base < base ^ k
div-lt-pow val base k two h =
    (div-lt_iff_lt-mul {k = base} {x = val} {y = base ^ k} (omega arith)).1
      (simp unary_clauses at h)

module _ (lower : Bool) (base : ℕ) (two : 2 ≤ base) (sixteen : base ≤ 16) where
  nothing_written : (p val k : ℕ) (m : Memory) → 0 ≡ val → Filled base 0 p val k m (p, m)
  nothing_written p val k m e = record {
    count = 0;
    at = omega arith;
    some_digits = omega arith;
    places = omega arith;
    spells = e;
    above = λ q h. refl;
    below = λ q h. refl;
    unterminated = λ q h i. absurd (omega arith);
  }

  module _ (p val k : ℕ) (m : Memory) (r : ℕ × Memory) (room : 0 < p) where
    -- The digit of the last place, with those of the quotient in front of it.
    last_digit :
        Filled base 0 (p - 1) (val / base) k (update m (p - 1) (digit lower (val % base))) r
        → Filled base 1 p val (suc k) m r
    last_digit f =
        let d = digit lower (val % base) in
        let small_digit : val % base < 16 = omega (arith, mod-lt val {m = base} (omega arith)) in
        let end_eq : r.0 + f.count ≡ p - 1 = f.at in
        let at_end : r.1 (p - 1) ≡ d = f.above (p - 1) (omega arith) ∙ ground arith in
        record {
          count = suc f.count;
          at = omega (arith, end_eq);
          some_digits = omega arith;
          places = omega (arith, f.places);
          spells =
              rw (f.spells, end_eq, at_end, digit_value-digit lower (val % base) small_digit)
                (div-add-mod' val base);
          above = λ q h. f.above q (omega arith) ∙ ground arith;
          below = λ q h. f.below q h ∙ ground (arith, end_eq);
          unterminated = λ q h i. elim (dec_lt q (p - 1)) [
            | yes lt ↦ f.unterminated q h lt
            | no ge ↦
                let q_eq : q ≡ p - 1 = omega arith in
                rw (q_eq, at_end) (digit_pos lower (val % base))
          ];
        }

  some_place : (k v : ℕ) → v < base ^ k → (v == 0) ≡ false → 0 < k
  some_place zero v h e = absurd (ground (arith, ne_of_== v 0 e, pow-zero base))
  some_place (suc k) v h e = omega arith

  fill_loop-Filled :
      (fuel k p val : ℕ) (m : Memory)
      → val < base ^ k
      → 0 < k
      → k ≤ fuel
      → k ≤ p
      → Returns (Filled base 1 p val k m) (fill_loop fuel lower base p val m)
  unfolding fill_loop
  fill_loop-Filled zero k p val m small pos enough room = absurd (omega arith)
  fill_loop-Filled (suc fuel) zero p val m small pos enough room = absurd (omega arith)
  fill_loop-Filled (suc fuel) (suc k) p val m small pos enough room =
      let m' = update m (p - 1) (digit lower (val % base)) in
      let left = div-lt-pow val base k two small in
      elim (Bool-cases (val / base == 0)) [
        | inl e ↦ rw e (
            returns (
              last_digit p val k m (p - 1, m') (omega arith)
                (nothing_written (p - 1) (val / base) k m' (sym (eq_of_== _ _ e)))))
        | inr e ↦ rw e (
            Returns-weaken
              (fill_loop-Filled fuel k (p - 1) (val / base) m' left
                (some_place k (val / base) left e) (omega arith) (omega arith))
              λ r f. last_digit p val k m r (omega arith) (record {
                count = f.count;
                at = f.at;
                some_digits = omega arith;
                places = f.places;
                spells = f.spells;
                above = f.above;
                below = f.below;
                unterminated = f.unterminated;
              }))
      ]

-- For a base from 2 to 16, either sign, `fill_numbuf` returns the start of a string that ends in
-- a NUL before `numbuf_end`, has at least one digit and at most `k` for a number below `base ^ k`,
-- and spells the number; it writes nothing else.
pub fill_numbuf-Filled :
    (numbuf_end val base k : ℕ) (m : Memory)
    → 2 ≤ magnitude base
    → magnitude base ≤ 16
    → val < magnitude base ^ k
    → 0 < k
    → k ≤ 64
    → k < numbuf_end
    → Returns
        (Filled (magnitude base) 1 (numbuf_end - 1) val k (update m (numbuf_end - 1) 0))
        (fill_numbuf numbuf_end val base m)
unfolding fill_numbuf
fill_numbuf-Filled numbuf_end val base k m two sixteen small pos enough room =
    fill_loop-Filled (leb (2 ^ 31) base) (magnitude base) two sixteen 64 k (numbuf_end - 1) val
      (update m (numbuf_end - 1) 0) small pos enough (omega arith)
