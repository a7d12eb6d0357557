-- ===== src/Mini/Signals/Sets.antt =====
-- HW3/libmini.c: what the functions on sets of signals do to each signal.
use advanced_programmin.Prelude.{
  ==_iff, leb→le, inr, sym, ◌∙◌, Bool-cases, inl, ◌⊎◌, subst, ℕ, zero, suc, ◌+◌, ◌-◌, ◌/◌, ◌%◌, ◌^◌,
  ◌≤◌, ◌<◌, ◌≡◌, refl, ap, ◌==◌, leb, ltb, if◌then◌else◌, arith,
}
use advanced_programmin.Mini.Signals.{some, valid_signum, sigismember, sigaddset}
use Prim.Native.Nat.{max, bit_and, bit_or}
use native.Mathlib.Nat.{pow-le-pow_right, two-pow-succ}
use advanced_programmin.Prelude.Bits.{
  halved, doubled, bit_and_digit, bit_or_digit, bit_and-zero, bit_and_ones, bit_and-doubled,
}
use advanced_programmin.Prelude.Int.{ℤ, pos, bits, to_int}
use advanced_programmin.Mini.{World}

-- The digit of signal `k + 1`.
abbrev pub bit_at : ℕ → ℕ → ℕ
bit_at k x = halved k x % 2

bit_at-or : (k x y : ℕ) → bit_at k (bit_or x y) ≡ max (bit_at k x) (bit_at k y)
bit_at-or zero x y = omega (arith, bit_or_digit x y)
bit_at-or (suc k) x y =
    let e : bit_or x y / 2 ≡ bit_or (x / 2) (y / 2) = omega (arith, bit_or_digit x y) in
    rw e (bit_at-or k (x / 2) (y / 2))

bit_at-zero : (k : ℕ) → bit_at k 0 ≡ 0
bit_at-zero zero = refl
bit_at-zero (suc k) = bit_at-zero k

bit_at-pow : (k m : ℕ) → bit_at k (2 ^ m) ≡ (if k == m then 1 else 0)
bit_at-pow zero zero = refl
bit_at-pow zero (suc m) = ground (arith, two-pow-succ m)
bit_at-pow (suc k) zero = ground (arith, bit_at-zero k)
bit_at-pow (suc k) (suc m) =
    let e : 2 ^ suc m / 2 ≡ 2 ^ m = omega (arith, two-pow-succ m) in
    rw e (ground (arith, bit_at-pow k m))

bit_at-below : (k x : ℕ) → bit_at k x < 2
bit_at-below k x = omega arith

pow-doubled : (m : ℕ) → 2 ^ m ≡ doubled m 1
pow-doubled zero = refl
pow-doubled (suc m) = omega (arith, two-pow-succ m, pow-doubled m)

doubled_zero : (m d : ℕ) → (doubled m d == 0) ≡ (d == 0)
doubled_zero zero d = refl
doubled_zero (suc m) d = ground (arith, doubled_zero m d)

pow_above : (k : ℕ) → 2 ^ (k + 32) % 2 ^ 32 ≡ 0
pow_above zero = refl
pow_above (suc k) =
    let e : suc k + 32 ≡ suc (k + 32) = omega arith in
    rw e (omega (arith, two-pow-succ (k + 32), pow_above k))

pow_below : (m : ℕ) → m ≤ 30 → 2 ^ m < 2 ^ 31
pow_below m h = let e : 2 ^ m ≤ 2 ^ 30 = pow-le-pow_right {n = 2} (omega arith) h in omega arith

bit_and_one : (x : ℕ) → bit_and x 1 ≡ x % 2
bit_and_one x = omega (arith, bit_and_digit x 1, bit_and-zero (x / 2) (x / 2))

masked : (m x : ℕ) → bit_and x (2 ^ m) ≡ doubled m (bit_at m x)
masked m x = rw (pow-doubled m, bit_and-doubled m x 1) (ap (doubled m) (bit_and_one (halved m x)))

-- The mask as `sigismember` has it.
narrowed : ℕ → ℕ
narrowed m = bits 64 (to_int (2 ^ m))

narrowed_low : (m : ℕ) → m ≤ 30 → narrowed m ≡ 2 ^ m
unfolding narrowed
narrowed_low m h = ground (arith, pow_below m h)

narrowed_high : (k : ℕ) → narrowed (k + 32) ≡ 0
unfolding narrowed
narrowed_high k = ground (arith, pow_above k)

pub valid_lem : (n : ℕ) → 0 < n → n ≤ 64 → valid_signum (pos n) ≡ some n
valid_lem n h0 h = ground arith

-- `sigismember` as it is: right up to signal 31; at 32 it tells whether the set has that signal or
-- a later one; above, it is always 0.
abbrev pub told : ℕ → ℕ → ℤ
told n set =
    if leb n 31
    then pos (bit_at (n - 1) set)
    else if n == 32
    then (if ltb set (2 ^ 31) then pos 0 else pos 1)
    else pos 0

-- the answer from the bits that are left of the set
abbrev answer : ℕ → ℤ
answer x = if x == 0 then pos 0 else pos 1

answer_low : (m set : ℕ) → m ≤ 30 → answer (bit_and set (narrowed m)) ≡ pos (bit_at m set)
answer_low m set h =
    rw (narrowed_low m h, masked m set)
      (ground (arith, doubled_zero m (bit_at m set), bit_at-below m set))

answer_mid : (set : ℕ) → set < 2 ^ 64 → answer (bit_and set (narrowed 31)) ≡ answer (halved 31 set)
unfolding narrowed
answer_mid set h = rw (bit_and-doubled 31 set (2 ^ 33 - 1)) (
    rw (bit_and_ones 33 (halved 31 set) (omega arith))
      (ap (λ b. if b then pos 0 else pos 1) (doubled_zero 31 (halved 31 set))))

answer_high : (k set : ℕ) → answer (bit_and set (narrowed (k + 32))) ≡ pos 0
answer_high k set = rw (narrowed_high k, bit_and-zero set set (omega arith)) refl

range_cases : (m : ℕ) → (m ≤ 30) ⊎ ((m ≡ 31) ⊎ ((k : ℕ) × (m ≡ k + 32)))
range_cases m = elim (Bool-cases (leb m 30)) [
  | inl h ↦ inl (leb→le m 30 h)
  | inr h ↦ elim (Bool-cases (m == 31)) [
    | inl e ↦ inr (inl ((==_iff m 31).0 e))
    | inr e ↦ inr (inr (m - 32, ground arith))
  ]
]

told_low : (m set : ℕ) → m ≤ 30 → told (suc m) set ≡ pos (bit_at m set)
told_low m set h = ground arith

told_mid : (set : ℕ) → told 32 set ≡ answer (halved 31 set)
told_mid set = ground arith

told_high : (k set : ℕ) → told (suc (k + 32)) set ≡ pos 0
told_high k set = ground arith

answer_lem : (m set : ℕ) → set < 2 ^ 64 → answer (bit_and set (narrowed m)) ≡ told (suc m) set
answer_lem m set h = elim (range_cases m) [
  | inl hl ↦ answer_low m set hl ∙ sym (told_low m set hl)
  | inr (inl hm) ↦ rw hm (answer_mid set h ∙ sym (told_mid set))
  | inr (inr (k, hk)) ↦ rw hk (answer_high k set ∙ sym (told_high k set))
]

module _ {K : Type 0} (w : World K) where
  -- For a signal from 1 to 64, `sigaddset` returns 0, sets the digit of this signal, and keeps every
  -- other and `errno`.
  pub sigaddset_lem :
      (set : ℕ) (n : ℕ)
      → 0 < n
      → n ≤ 64
      → ((sigaddset set (pos n) w).0.0 ≡ pos 0)
        × ((sigaddset set (pos n) w).1 ≡ w)
        × ((k : ℕ)
            → bit_at k (sigaddset set (pos n) w).0.1 ≡ (if k == n - 1 then 1 else bit_at k set))
  unfolding sigaddset
  sigaddset_lem set n h0 h = (
    rw (sigaddset, valid_lem n h0 h) refl,
    rw (sigaddset, valid_lem n h0 h) refl,
    λ k.
        rw (sigaddset, valid_lem n h0 h)
          (rw (bit_at-or k set (2 ^ (n - 1)), bit_at-pow k (n - 1))
            (ground (arith, bit_at-below k set))),
  )

  -- For a set of 64 digits and a signal from 1 to 64, `sigismember` keeps `errno` and tells the digit
  -- of the signal up to signal 31; of signal 32 it tells whether the set has that signal or a later
  -- one; of a later signal it always tells that the set does not have it.
  pub sigismember_lem :
      (set : ℕ) (n : ℕ)
      → set < 2 ^ 64
      → 0 < n
      → n ≤ 64
      → sigismember set (pos n) w ≡ (told n set, w)
  unfolding sigismember narrowed
  sigismember_lem set n hs h0 h =
      let e : n ≡ suc (n - 1) = omega arith in
      rw (sigismember, valid_lem n h0 h)
        (ap (λ x. (x, w))
          (subst (λ m. answer (bit_and set (narrowed (n - 1))) ≡ told m set) (sym e)
            (answer_lem (n - 1) set hs)))
