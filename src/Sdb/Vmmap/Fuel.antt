-- ===== src/Sdb/Vmmap/Fuel.antt =====
-- HW4/ins.cpp, the loop of vmmap: each round takes a character, so the loop ends.
use Prim.Native.Char.{code}
use advanced_programmin.Prelude.{
  ℕ, zero, suc, ◌+◌, ◌*◌, ◌==◌, ◌≤◌, ◌<◌, ◌≡◌, refl, subst, arith, String, Option, none, some, inl,
  inr, Option-cases, Bool-cases,
}
use advanced_programmin.Prelude.Strings.{chars}
use advanced_programmin.Sdb.Os.{Os}
use advanced_programmin.Sdb.Exec.{World, ◌>>=◌}
use advanced_programmin.Sdb.Scan.{is_space, digit_value, skip_spaces}
use advanced_programmin.Sdb.Vmmap.{
  hex_run, hex_at, scan_hex, word_run, word_at, scan_word, line_run, Row, scan_inode, scan_device,
  scan_offset, scan_premission, scan_endaddr, scan_row, scan_filename, print_maps, dash_at,
}

-- The text behind a conversion, where there is one, has fewer than `n` characters.
abbrev Below {ℓ} : {A : Type ℓ} → ℕ → Option (A × String) → Type 0
Below n none = Unit
Below n (some (a, rest)) = chars rest < n

chars-skip_spaces : (s : String) → chars (skip_spaces s) ≤ chars s
unfolding skip_spaces
chars-skip_spaces String.[] = omega arith
chars-skip_spaces (String.◌∷◌ c s) = ground (arith, chars-skip_spaces s)

chars-hex_run : (acc : ℕ) (s : String) → chars (hex_run acc s).1 ≤ chars s
unfolding hex_run
chars-hex_run acc String.[] = omega arith
chars-hex_run acc (String.◌∷◌ c s) = elim (Option-cases (digit_value 16 (code c))) [
  | inl e ↦ rw (e, chars) (omega arith)
  | inr (d, e) ↦ rw (e, chars) (let h = chars-hex_run (acc * 16 + d) s in omega arith)
]

chars-word_run : (s : String) → chars (word_run s).1 ≤ chars s
unfolding word_run
chars-word_run String.[] = omega arith
chars-word_run (String.◌∷◌ c s) = elim (Bool-cases (is_space (code c))) [
  | inl e ↦ rw (e, chars) (omega arith)
  | inr e ↦ rw (e, chars) (let h = chars-word_run s in omega arith)
]

chars-line_run : (s : String) → chars (line_run s).1 ≤ chars s
unfolding line_run
chars-line_run String.[] = omega arith
chars-line_run (String.◌∷◌ c s) = elim (Bool-cases (code c == 10)) [
  | inl e ↦ rw (e, chars) (omega arith)
  | inr e ↦ rw (e, chars) (let h = chars-line_run s in omega arith)
]

Below-hex_at : (s : String) → Below (chars s) (hex_at s)
Below-hex_at String.[] = tt
Below-hex_at (String.◌∷◌ c s) = elim (Option-cases (digit_value 16 (code c))) [
  | inl e ↦ rw (e, Below) tt
  | inr (d, e) ↦ rw (e, Below) (let h = chars-hex_run d s in omega arith)
]

Below-word_at : (s : String) → Below (suc (chars s)) (word_at s)
Below-word_at String.[] = tt
Below-word_at (String.◌∷◌ c s) = let h = chars-word_run (String.◌∷◌ c s) in omega arith

Below-dash_at : (s : String) (t : String) → dash_at s ≡ some t → chars t ≤ chars s
Below-dash_at String.[] t e = cc
Below-dash_at (String.◌∷◌ c s) t e = ground (arith, chars)

-- a number takes a character, a word none perhaps
scan_hex-shorter :
    (s : String) (n : ℕ) (rest : String) → scan_hex s ≡ some (n, rest) → chars rest < chars s
unfolding scan_hex
scan_hex-shorter s n rest e =
    let h : Below (chars (skip_spaces s)) (some (n, rest)) =
      subst (Below (chars (skip_spaces s))) e (Below-hex_at (skip_spaces s)) in
    omega (arith, chars-skip_spaces s)

scan_word-shorter : (s w rest : String) → scan_word s ≡ some (w, rest) → chars rest ≤ chars s
unfolding scan_word
scan_word-shorter s w rest e =
    let h : Below (suc (chars (skip_spaces s))) (some (w, rest)) =
      subst (Below (suc (chars (skip_spaces s)))) e (Below-word_at (skip_spaces s)) in
    omega (arith, chars-skip_spaces s)

chars-scan_inode : (row : Row) (s : String) → chars (scan_inode row s).1 ≤ chars s
unfolding scan_inode
chars-scan_inode row s = elim (Option-cases (scan_hex s)) [
  | inl e ↦ rw (e, chars) (omega arith)
  | inr ((n, rest), e) ↦ rw (e, chars) (omega (arith, scan_hex-shorter s n rest e))
]

chars-scan_device : (row : Row) (s : String) → chars (scan_device row s).1 ≤ chars s
unfolding scan_device
chars-scan_device row s = elim (Option-cases (scan_word s)) [
  | inl e ↦ rw (e, chars) (omega arith)
  | inr ((w, rest), e) ↦
      rw (e, chars)
        (let h = chars-scan_inode (record row { device = w }) rest in
          omega (arith, scan_word-shorter s w rest e))
]

chars-scan_offset : (row : Row) (s : String) → chars (scan_offset row s).1 ≤ chars s
unfolding scan_offset
chars-scan_offset row s = elim (Option-cases (scan_hex s)) [
  | inl e ↦ rw (e, chars) (omega arith)
  | inr ((n, rest), e) ↦
      rw (e, chars)
        (let h = chars-scan_device (record row { offset = n }) rest in
          omega (arith, scan_hex-shorter s n rest e))
]

chars-scan_premission : (row : Row) (s : String) → chars (scan_premission row s).1 ≤ chars s
unfolding scan_premission
chars-scan_premission row s = elim (Option-cases (scan_word s)) [
  | inl e ↦ rw (e, chars) (omega arith)
  | inr ((w, rest), e) ↦
      rw (e, chars)
        (let h = chars-scan_offset (record row { premission = w }) rest in
          omega (arith, scan_word-shorter s w rest e))
]

chars-scan_endaddr : (row : Row) (s : String) → chars (scan_endaddr row s).1 ≤ chars s
unfolding scan_endaddr
chars-scan_endaddr row s = elim (Option-cases (dash_at s)) [
  | inl e ↦ rw (e, chars) (omega arith)
  | inr (t, e) ↦ elim (Option-cases (scan_hex t)) [
    | inl q ↦ rw (e, q, chars) (Below-dash_at s t e)
    | inr ((n, rest), q) ↦
        rw (e, q, chars)
          (let h = chars-scan_premission (record row { endaddr = n }) rest in
            omega (arith, scan_hex-shorter t n rest q, Below-dash_at s t e))
  ]
]

Below-scan_row : (row : Row) (s : String) → Below (chars s) (scan_row row s)
unfolding scan_row
Below-scan_row row s = elim (Option-cases (scan_hex s)) [
  | inl e ↦ rw (e, Below) tt
  | inr ((n, rest), e) ↦
      rw (e, Below)
        (let h = chars-scan_endaddr (record row { addr = n }) rest in
          omega (arith, scan_hex-shorter s n rest e))
]

chars-scan_filename : (row : Row) (s : String) → chars (scan_filename row s).1 ≤ chars s
unfolding scan_filename
chars-scan_filename row s = elim (Option-cases (scan_word s)) [
  | inl e ↦ rw (e, chars) (omega arith)
  | inr ((w, rest), e) ↦
      rw (e, chars) (let h = chars-line_run rest in omega (arith, scan_word-shorter s w rest e))
]

module _ (os : Os) where
  -- The loop of vmmap ends: from one more unit of fuel than the file has characters on, how much
  -- there is makes no difference, so the loop has stopped by itself.
  pub print_maps_lem :
      (fuel more : ℕ) (row : Row) (s : String) (w : World os.Kernel)
      → chars s < fuel
      → chars s < more
      → print_maps os fuel row s w ≡ print_maps os more row s w
  unfolding print_maps ◌>>=◌
  print_maps_lem zero more row s w lt lt' = absurd (omega arith)
  print_maps_lem (suc fuel) zero row s w lt lt' = absurd (omega arith)
  print_maps_lem (suc fuel) (suc more) row s w lt lt' = elim (Option-cases (scan_row row s)) [
    | inl e ↦ rw e refl
    | inr ((r, rest), e) ↦
        let h : chars rest < chars s = subst (Below (chars s)) e (Below-scan_row row s) in
        let shorter = chars-scan_filename r rest in
        elim (Option-cases (scan_filename r rest).0.filename) [
          | inl q ↦ rw (e, q) refl
          | inr (name, q) ↦ rw (e, q) (print_maps_lem fuel more _ _ _ (omega arith) (omega arith))
        ]
  ]
