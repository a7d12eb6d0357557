-- ===== src/Sdb/Disasm/Range.antt =====
-- HW4/ins.cpp and HW4/disasm.cpp: which part of the text the disassembler reads.
use advanced_programmin.Prelude.{
  ℕ, ◌+◌, ◌-◌, ◌^◌, ◌≤◌, ◌<◌, ◌≡◌, refl, arith, true, false, Bool-cases, inl, inr, Bool, ◌&&◌,
  String, List, [], ◌∷◌, map, length, take, drop, leb, ltb, ◌||◌, if◌then◌else◌,
}
use advanced_programmin.Prelude.Int.{pos}
use advanced_programmin.Sdb.Os.{Os}
use advanced_programmin.Sdb.Exec.{Out, text, err, insn_line, say_all, World, done, ◌>>=◌}
use advanced_programmin.Sdb.Breakpoints.{success, failure}
use advanced_programmin.Sdb.Memory.{add64}
use advanced_programmin.Sdb.Disasm.{sub64, disasm_code, capstone_disasm, disasm_at}

-- The text has the bytes that its size says, and ends below 2 ^ 64.
pub record TextFits {K : Type 0} (w : World K) : Type 0 where
  pub size_eq : length w.program.text.bytes ≡ w.program.text.size
  pub end_lt : w.program.text.entry + w.program.text.size < 2 ^ 64

abbrev out_of_range : String
out_of_range = "** the address is out of the range of the text segment.\n"

say_all-done :
    {K : Type 0} (os : List Out) (w : World K) → (v : World K) × (say_all os w ≡ done tt v)
unfolding ◌>>=◌
say_all-done [] w = (w, refl)
say_all-done (o ∷ os) w = say_all-done os (record w { out = o ∷ w.out })

module _ (os : Os) where
  disasm_code_lem :
      (code : List ℕ) (offset size start num : ℕ) (w : World os.Kernel)
      → offset + size ≤ length code
      → (v : World os.Kernel) × (disasm_code os code offset size start num w
          ≡ done (pos (length (os.cs_disasm (take size (drop offset code)) size start num))) v)
  unfolding disasm_code ◌>>=◌
  disasm_code_lem code offset size start num w h =
      let fits : leb (offset + size) (length code) ≡ true = ground arith in
      let insns = os.cs_disasm (take size (drop offset code)) size start num in
      elim (Bool-cases (ltb 0 (length insns))) [
        | inl e ↦
            let (v, q) = say_all-done (map insn_line insns) w in (v, rw fits (rw e (rw q refl)))
        | inr e ↦ (
          record w { out = text "** ERROR: Failed to disassemble given code!\n" ∷ w.out },
          rw fits (rw e refl),
        )
      ]

  -- The instructions that capstone finds from `addr` to the end of the text.
  abbrev pub found_from : World os.Kernel → ℕ → ℕ
  found_from w addr =
      let t = w.program.text in
      length (
        os.cs_disasm (take (t.entry + t.size - addr) (drop (addr - t.entry) t.bytes))
          (t.entry + t.size - addr) addr 10)

  abbrev pub in_text : World os.Kernel → ℕ → Bool
  in_text w addr =
      leb w.program.text.entry addr && leb addr (w.program.text.entry + w.program.text.size)

  capstone_inside :
      (addr : ℕ) (w : World os.Kernel)
      → os.cs_open ≡ true
      → TextFits w
      → w.program.text.entry ≤ addr
      → addr ≤ w.program.text.entry + w.program.text.size
      → (v : World os.Kernel) × (capstone_disasm os addr
            (sub64 w.program.text.size (sub64 addr w.program.text.entry))
            10
            w
          ≡ done (pos (found_from w addr)) v)
  unfolding capstone_disasm ◌>>=◌ disasm_code
  capstone_inside addr w opens h lo hi =
      let t = w.program.text in
      let e_lt : t.entry < 2 ^ 64 = omega (arith, h.end_lt) in
      let a_lt : addr < 2 ^ 64 = omega (arith, h.end_lt) in
      let s_lt : t.size < 2 ^ 64 = omega (arith, h.end_lt) in
      let offset_eq : sub64 addr t.entry ≡ addr - t.entry = omega arith in
      let size_eq : sub64 t.size (addr - t.entry) ≡ t.entry + t.size - addr = omega arith in
      rw opens (
        rw offset_eq (
          rw size_eq (
            disasm_code_lem t.bytes (addr - t.entry) (t.entry + t.size - addr) addr 10 w
              (omega (arith, h.size_eq)))))

  -- With capstone at hand and a text that fits, `disasm` at any 64-bit address returns: it reads
  -- no byte outside the text, and succeeds exactly where the address is in the text (or just behind
  -- it) and ten instructions are found from there on.
  pub disasm_at_lem :
      (addr : ℕ) (w : World os.Kernel)
      → os.cs_open ≡ true
      → TextFits w
      → addr < 2 ^ 64
      → (v : World os.Kernel) × (disasm_at os addr w
          ≡ done (if in_text w addr && leb 10 (found_from w addr) then success else failure) v)
  unfolding disasm_at ◌>>=◌
  disasm_at_lem addr w opens h lt = elim (Bool-cases (in_text w addr)) [
    | inl e ↦
        let t = w.program.text in
        let lo : ltb addr t.entry ≡ false = ground arith in
        let hi : ltb (add64 t.entry t.size) addr ≡ false = ground (arith, h.end_lt) in
        let (v, q) = capstone_inside addr w opens h (ground arith) (ground arith) in
        elim (Bool-cases (leb 10 (found_from w addr))) [
          | inl c ↦ (v, rw e (rw lo (rw hi (rw q (rw c refl)))))
          | inr c ↦
              (record v { out = err out_of_range ∷ v.out }, rw e (rw lo (rw hi (rw q (rw c refl)))))
        ]
    | inr e ↦
        let t = w.program.text in
        let away : (ltb addr t.entry || ltb (add64 t.entry t.size) addr) ≡ true =
          ground (arith, h.end_lt) in
        (record w { out = err out_of_range ∷ w.out }, rw e (rw away refl))
  ]
