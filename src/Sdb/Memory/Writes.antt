-- ===== src/Sdb/Memory/Writes.antt =====
-- HW4/util.cpp, `change_byte`, over memory that behaves as `ptrace` documents.
use advanced_programmin.Prelude.{
  ℕ, ◌+◌, ◌*◌, ◌/◌, ◌%◌, ◌^◌, ◌<◌, ◌≡◌, ◌∙◌, refl, arith, ◌==◌, if◌then◌else◌,
}
use advanced_programmin.Prelude.Bits.{put_low_byte}
use advanced_programmin.Sdb.Os.{Os, Ptrace, word}
use advanced_programmin.Sdb.Exec.{World, done, ◌>>=◌}
use advanced_programmin.Sdb.Memory.{change_byte}
use advanced_programmin.Sdb.Memory.Bytes.{word-lt, written_low_byte}

-- The kernel after a write of one byte: that byte is `v`, and the rest of the memory, what is
-- mapped and the registers are as before.
pub record ByteWritten (os : Os) (pt : Ptrace os) (pid : ℕ) (k k' : os.Kernel) (a v : ℕ)
    : Type 0 where
  pub bytes : (b : ℕ) → pt.byte pid k' b ≡ (if b == a then v else pt.byte pid k b)
  pub mapped : (b : ℕ) → pt.Mapped pid k b → pt.Mapped pid k' b
  pub regs : os.getregs pid k' ≡ os.getregs pid k

module _ (os : Os) (pt : Ptrace os) where
  -- At a mapped address `change_byte` returns the byte that stood there, and writes that one byte.
  pub change_byte_lem :
      (a v : ℕ) (w : World os.Kernel)
      → v < 256
      → pt.Mapped w.program.pid w.kernel a
      → (k : os.Kernel) × (change_byte os a v w
          ≡ done (pt.byte w.program.pid w.kernel a) (record w { kernel = k }))
        × ByteWritten os pt w.program.pid w.kernel k a v
  unfolding change_byte ◌>>=◌
  change_byte_lem a v w hv m =
      let pid = w.program.pid in
      let f = pt.byte pid w.kernel in
      let x : ℕ = word 8 f a / 256 * 256 + v in
      let (k, poked) = pt.poke_total pid w.kernel a x m in
      let low : word 8 f a % 256 ≡ f a = omega (arith, pt.byte_lt pid w.kernel a) in
      let x_lt : x < 2 ^ 64 = omega (arith, word-lt f (pt.byte_lt pid w.kernel) a) in
      (
        k,
        rw (pt.peek_word pid w.kernel a m) (
            rw (put_low_byte (word 8 f a) v (word-lt f (pt.byte_lt pid w.kernel) a) hv)
              (rw poked (rw low refl))),
        record {
          bytes = λ b.
              pt.poke_word pid w.kernel k a x m x_lt poked b
              ∙ written_low_byte f (pt.byte_lt pid w.kernel) a v b hv;
          mapped = pt.poke_mapped pid w.kernel k a x poked;
          regs = pt.poke_regs pid w.kernel k a x poked;
        },
      )
