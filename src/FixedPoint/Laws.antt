-- ===== src/FixedPoint/Laws.antt =====
-- How the conversions and operations of lib/fixed_floating_point.c undo one another.
use pint_os_assignment.Common.{
  ℕ, ◌+◌, ◌-◌, ◌*◌, ◌/◌, ◌^◌, ◌<◌, ◌≤◌, ◌≡◌, ◌≢◌, sym, ap, ◌∙◌, arith, ltb, if◌then◌else◌,
  if_of_true, if_of_false, inl, inr, Bool-cases,
}
use pint_os_assignment.Common.Int.{
  ℤ, pos, pos_part, neg_part, ◌+ℤ◌, ◌-ℤ◌, ◌*ℤ◌, ◌≤ℤ◌, ltb_ℤ, +ℤ_parts, -ℤ_parts, one_part, to_int,
  to_int_fits, *ℤ-pos_parts, /ℤ-pos_parts, eq_of_parts,
}
use pint_os_assignment.FixedPoint.{ff_f, convert_ff, convert_down, convert_nearest, add_ff, sub_ff}

-- Whole numbers whose fixed point number is an `int`, with their fractions.
pub record IsSmall (n : ℤ) : Type 0 where
  pub high : pos_part n < 2 ^ 15 - 1
  pub low : neg_part n < 2 ^ 15 - 1

-- The fixed point number of n and the fraction r, away from zero.
module _ (n : ℤ) (r : ℕ) (v : IsSmall n) (h : r < ff_f) where
  above-exact : pos 0 ≤ℤ n → add_ff (convert_ff n) (pos r) ≡ pos (pos_part n * ff_f + r)
  unfolding convert_ff add_ff
  above-exact p =
      let a = *ℤ-pos_parts n ff_f in
      let b = +ℤ_parts (n *ℤ pos ff_f) (pos r) in
      let c = one_part (n *ℤ pos ff_f +ℤ pos r) in
      let d = one_part n in
      rw
        (
          to_int_fits (n *ℤ pos ff_f) (omega (arith, a, v.high)) (omega (arith, a, v.low)),
          to_int_fits (n *ℤ pos ff_f +ℤ pos r) (omega (arith, a, b, c, d, v.high, v.low))
              (omega (arith, a, b, c, d, v.high, v.low)),
        )
        (eq_of_parts _ _ (omega (arith, a, b, c, d)))

  below-exact :
      n ≤ℤ pos 0
      → (pos_part (sub_ff (convert_ff n) (pos r)) ≡ 0)
        × (neg_part (sub_ff (convert_ff n) (pos r)) ≡ neg_part n * ff_f + r)
  unfolding convert_ff sub_ff
  below-exact p =
      let a = *ℤ-pos_parts n ff_f in
      let b = -ℤ_parts (n *ℤ pos ff_f) (pos r) in
      let c = one_part (n *ℤ pos ff_f -ℤ pos r) in
      let d = one_part n in
      rw
        (
          to_int_fits (n *ℤ pos ff_f) (omega (arith, a, v.high)) (omega (arith, a, v.low)),
          to_int_fits (n *ℤ pos ff_f -ℤ pos r) (omega (arith, a, b, c, d, v.high, v.low))
              (omega (arith, a, b, c, d, v.high, v.low)),
        )
        (omega (arith, a, b, c, d), omega (arith, a, b, c, d))

-- A fixed point number with an integer part n, of at most 2^15 - 2 in absolute value, and a
-- fraction r below one, for either sign: the fraction is cut off, towards zero.
pub convert_down_truncates :
    (n : ℤ) (r : ℕ)
    → IsSmall n
    → r < ff_f
    → (pos 0 ≤ℤ n → convert_down (add_ff (convert_ff n) (pos r)) ≡ n)
      × (n ≤ℤ pos 0 → convert_down (sub_ff (convert_ff n) (pos r)) ≡ n)
unfolding convert_down
convert_down_truncates n r v h = (
  λ p. eq_of_parts _ n (
      omega (
        arith,
        ap pos_part (above-exact n r v h p),
        ap neg_part (above-exact n r v h p),
        one_part n,
        /ℤ-pos_parts (add_ff (convert_ff n) (pos r)) ff_f,
      )),
  λ p. eq_of_parts _ n (
      omega (
        arith,
        below-exact n r v h p,
        one_part n,
        /ℤ-pos_parts (sub_ff (convert_ff n) (pos r)) ff_f,
      )),
)

-- What convert_nearest makes of a number, by its sign.
nearest_above : (m : ℕ) → m + 32768 < 2 ^ 31 → convert_nearest (pos m) ≡ pos (m + 32768)
unfolding convert_nearest ◌+ℤ◌
nearest_above m h = ground (arith, to_int_fits (pos (m + 32768)) h (omega arith))

nearest_below :
    (x : ℤ)
    → pos_part x ≡ 0
    → 0 < neg_part x
    → neg_part x + 32768 < 2 ^ 31
    → (pos_part (convert_nearest x) ≡ 0) × (neg_part (convert_nearest x) ≡ neg_part x + 32768)
unfolding convert_nearest
nearest_below x p q h =
    let b = -ℤ_parts x (pos 32768) in
    let c = one_part (x -ℤ pos 32768) in
    let e =
      if_of_true (ltb_ℤ x (pos 0)) (to_int (x -ℤ pos 32768)) (to_int (x +ℤ pos 32768))
        (ground arith)
      ∙ to_int_fits (x -ℤ pos 32768) (omega (arith, b, c)) (omega (arith, b, c)) in
    (ap pos_part e ∙ omega (arith, b, c), ap neg_part e ∙ omega (arith, b, c))

-- convert_nearest of a fixed point number with an integer part n, of at most 2^15 - 2 in absolute
-- value, and a fraction r below one stays in fixed point: convert_down of it is the nearest integer,
-- n, or from one half on the next away from zero, but itself it is neither of the two integers.
pub convert_down-convert_nearest :
    (n : ℤ) (r : ℕ)
    → IsSmall n
    → r < ff_f
    → (pos 0 ≤ℤ n
        → let y = convert_nearest (add_ff (convert_ff n) (pos r)) in
          (convert_down y ≡ (if ltb r (ff_f / 2) then n else n +ℤ pos 1))
          × (y ≢ n)
          × (y ≢ n +ℤ pos 1))
      × (n ≤ℤ pos 0
          → 0 < neg_part n + r
          → let y = convert_nearest (sub_ff (convert_ff n) (pos r)) in
            (convert_down y ≡ (if ltb r (ff_f / 2) then n else n -ℤ pos 1))
            × (y ≢ n)
            × (y ≢ n -ℤ pos 1))
unfolding convert_down
convert_down-convert_nearest n r v h = (
  λ p.
      let m = pos_part n * ff_f + r in
      let e =
        ap convert_nearest (above-exact n r v h p) ∙ nearest_above m (omega (arith, v.high)) in
      let y = convert_nearest (add_ff (convert_ff n) (pos r)) in
      let a = +ℤ_parts n (pos 1) in
      let c = one_part (n +ℤ pos 1) in
      let f = ap pos_part e in
      let g = ap neg_part e in
      let w = /ℤ-pos_parts y ff_f in
      (
        elim (Bool-cases (ltb r (ff_f / 2))) [
          | inl b ↦
              let b' : r < 32768 = ground arith in
              eq_of_parts _ n (omega (arith, w, f, g, one_part n)) ∙ sym (if_of_true _ _ _ b)
          | inr b ↦
              let b' : 32768 ≤ r = ground arith in
              eq_of_parts _ (n +ℤ pos 1) (omega (arith, w, f, g, a, c, one_part n))
              ∙ sym (if_of_false _ _ _ b)
        ],
        λ q. omega (arith, f, g, ap pos_part q, ap neg_part q),
        λ q. omega (arith, f, g, a, c, ap pos_part q, ap neg_part q),
      ),
  λ p z.
      let x = sub_ff (convert_ff n) (pos r) in
      let b = below-exact n r v h p in
      let (f, g) = nearest_below x b.0 (omega (arith, b)) (omega (arith, b, v.low)) in
      let y = convert_nearest x in
      let a = -ℤ_parts n (pos 1) in
      let c = one_part (n -ℤ pos 1) in
      let w = /ℤ-pos_parts y ff_f in
      (
        elim (Bool-cases (ltb r (ff_f / 2))) [
          | inl d ↦
              let d' : r < 32768 = ground arith in
              eq_of_parts _ n (omega (arith, w, f, g, b, one_part n)) ∙ sym (if_of_true _ _ _ d)
          | inr d ↦
              let d' : 32768 ≤ r = ground arith in
              eq_of_parts _ (n -ℤ pos 1) (omega (arith, w, f, g, b, a, c, one_part n))
              ∙ sym (if_of_false _ _ _ d)
        ],
        λ q. omega (arith, f, g, b, ap pos_part q, ap neg_part q),
        λ q. omega (arith, f, g, b, a, c, ap pos_part q, ap neg_part q),
      ),
)
