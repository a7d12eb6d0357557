-- ===== src/Sdb/Disasm/Dump.antt =====
-- HW4/ins.cpp, `insdump`: what a row shows.
use advanced_programmin.Prelude.{
  ℕ, zero, suc, ◌+◌, ◌*◌, ◌/◌, ◌%◌, ◌^◌, ◌<◌, ◌≡◌, ◌∙◌, refl, ap, arith, List, [], ◌∷◌, ◌++◌,
}
use advanced_programmin.Sdb.Os.{Os, Ptrace, word}
use advanced_programmin.Sdb.Exec.{World, done, ◌>>=◌}
use advanced_programmin.Sdb.Memory.{add64}
use advanced_programmin.Sdb.Disasm.{bytes_of, read_row}

-- The bytes of the memory from `a` on.
abbrev pub bytes_from : ℕ → (ℕ → ℕ) → ℕ → List ℕ
bytes_from zero f a = []
bytes_from (suc n) f a = f a ∷ bytes_from n f (suc a)

bytes_of-word :
    (n : ℕ) (f : ℕ → ℕ) (a : ℕ) → ((b : ℕ) → f b < 256) → bytes_of n (word n f a) ≡ bytes_from n f a
bytes_of-word zero f a lt = refl
bytes_of-word (suc n) f a lt =
    let low : (f a + 256 * word n f (suc a)) % 256 ≡ f a = omega (arith, lt a) in
    let high : (f a + 256 * word n f (suc a)) / 256 ≡ word n f (suc a) = omega (arith, lt a) in
    rw low (rw high (ap (λ l. f a ∷ l) (bytes_of-word n f (suc a) lt)))

bytes_from-append :
    (m n : ℕ) (f : ℕ → ℕ) (a : ℕ)
    → bytes_from m f a ++ bytes_from n f (a + m) ≡ bytes_from (m + n) f a
bytes_from-append zero n f a =
    let e : a + 0 ≡ a = omega arith in let e' : 0 + n ≡ n = omega arith in rw (e, e') refl
bytes_from-append (suc m) n f a =
    let shift : a + suc m ≡ suc a + m = omega arith in
    let e : suc m + n ≡ suc (m + n) = omega arith in
    rw (shift, e) (ap (λ l. f a ∷ l) (bytes_from-append m n f (suc a)))

module _ (os : Os) (pt : Ptrace os) where
  -- Where both words of a row are mapped, `dump` shows the sixteen bytes of the process's memory
  -- from the base address plus the address of the row, in memory order.
  pub read_row_lem :
      (addr : ℕ) (w : World os.Kernel)
      → w.program.base_address + addr + 16 < 2 ^ 64
      → pt.Mapped w.program.pid w.kernel (w.program.base_address + addr)
      → pt.Mapped w.program.pid w.kernel (w.program.base_address + addr + 8)
      → read_row os addr w
        ≡ done (bytes_from 16 (pt.byte w.program.pid w.kernel) (w.program.base_address + addr)) w
  unfolding read_row ◌>>=◌
  read_row_lem addr w lt low high =
      let pid = w.program.pid in
      let f = pt.byte pid w.kernel in
      let a = w.program.base_address + addr in
      let e : add64 w.program.base_address addr ≡ a = omega arith in
      let e' : add64 a 8 ≡ a + 8 = omega arith in
      let lt = pt.byte_lt pid w.kernel in
      let join : bytes_of 8 (word 8 f a) ++ bytes_of 8 (word 8 f (a + 8)) ≡ bytes_from 16 f a =
        ap (λ l. l ++ bytes_of 8 (word 8 f (a + 8))) (bytes_of-word 8 f a lt)
        ∙ ap (λ l. bytes_from 8 f a ++ l) (bytes_of-word 8 f (a + 8) lt)
        ∙ bytes_from-append 8 8 f a in
      rw e (
        rw e' (
          rw (pt.peek_word pid w.kernel a low)
            (rw (pt.peek_word pid w.kernel (a + 8) high) (ap (λ l. done l w) join))))
