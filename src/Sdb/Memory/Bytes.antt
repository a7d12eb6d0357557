-- ===== src/Sdb/Memory/Bytes.antt =====
-- Words of memory and their bytes.
use advanced_programmin.Prelude.{
  ℕ, zero, suc, ◌+◌, ◌-◌, ◌*◌, ◌/◌, ◌%◌, ◌^◌, ◌<◌, ◌≡◌, ap, ◌∙◌, arith, inl, inr, Bool-cases, ◌&&◌,
  ◌==◌, ltb, if◌then◌else◌,
}
use native.Mathlib.Nat.{add-zero}
use advanced_programmin.Sdb.Os.{word, nth_byte, written}

written_low :
    (g : ℕ → ℕ) (a w v b : ℕ)
    → w % 256 ≡ v
    → ((i : ℕ) → suc i < 8 → nth_byte (suc i) w ≡ g (a + suc i))
    → written g a w b ≡ (if b == a then v else g b)
written_low g a w v b low high = elim (Bool-cases (ltb a b && ltb b (a + 8))) [
  | inl e ↦ ground (
    arith,
    ap (λ (t : ℕ). nth_byte t w) (let q : b - a ≡ suc (b - a - 1) = ground arith in q)
        ∙ high (b - a - 1) (ground arith)
        ∙ ap g (let q : a + suc (b - a - 1) ≡ b = ground arith in q),
  )
  | inr e ↦ elim (Bool-cases (b == a)) [
    | inl q ↦ let z : b - a ≡ 0 = ground arith in rw z (ground (arith, low))
    | inr q ↦ ground arith
  ]
]

module _ (f : ℕ → ℕ) (f_lt : (a : ℕ) → f a < 256) where
  pub word-lt : (a : ℕ) → word 8 f a < 2 ^ 64
  word-lt a = omega (
    arith,
    f_lt a,
    f_lt (suc a),
    f_lt (suc (suc a)),
    f_lt (suc (suc (suc a))),
    f_lt (suc (suc (suc (suc a)))),
    f_lt (suc (suc (suc (suc (suc a))))),
    f_lt (suc (suc (suc (suc (suc (suc a)))))),
    f_lt (suc (suc (suc (suc (suc (suc (suc a))))))),
  )

  nth_byte-word : (n i a : ℕ) → i < n → nth_byte i (word n f a) ≡ f (a + i)
  nth_byte-word zero i a h = absurd (omega arith)
  nth_byte-word (suc n) zero a h = rw add-zero (omega (arith, f_lt a))
  nth_byte-word (suc n) (suc i) a h =
      let e : (f a + 256 * word n f (suc a)) / 256 ≡ word n f (suc a) = omega (arith, f_lt a) in
      rw e (nth_byte-word n i (suc a) (omega arith) ∙ ap f (omega arith))

  -- The bytes of a word with another low byte.
  nth_byte-put_low :
      (i a v : ℕ)
      → suc i < 8
      → v < 256
      → nth_byte (suc i) (word 8 f a / 256 * 256 + v) ≡ f (a + suc i)
  nth_byte-put_low i a v hi hv =
      let e : (word 8 f a / 256 * 256 + v) / 256 ≡ word 7 f (suc a) = omega (arith, f_lt a) in
      rw e (nth_byte-word 7 i (suc a) (omega arith) ∙ ap f (omega arith))

  -- A word with another low byte differs from the memory in that byte only.
  pub written_low_byte :
      (a v b : ℕ)
      → v < 256
      → written f a (word 8 f a / 256 * 256 + v) b ≡ (if b == a then v else f b)
  written_low_byte a v b h =
      written_low f a _ v b (omega arith) (λ i hi. nth_byte-put_low i a v hi h)
