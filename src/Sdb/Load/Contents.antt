-- ===== src/Sdb/Load/Contents.antt =====
-- HW4/load.cpp: the bytes that `parse_elf` keeps of the section.
use advanced_programmin.Prelude.{
  ◌∙◌, true, false, some, ◌++◌, ◌==◌, All, String, leb, get_elem?, ◌*◌, ℕ, zero, suc, ◌+◌, ◌-◌, ◌%◌,
  ◌≤◌, ◌≡◌, refl, ap, arith, List, [], ◌∷◌, length, take, drop,
}
use advanced_programmin.Sdb.Os.{Os}
use advanced_programmin.Sdb.Exec.{World, done, ◌>>=◌}
use advanced_programmin.Sdb.Breakpoints.{success}
use advanced_programmin.Sdb.Load.{
  Shdr, Ehdr, ehdr, shdrs, dot_text, strcmp_eq, find_text, et_dyn, found, filled, take_text,
  parse_bytes, parse_elf,
}

filled-take : (n u : ℕ) (bs : List ℕ) → n ≤ length bs → filled n u bs ≡ take n bs
filled-take zero u bs h = refl
filled-take (suc n) u [] h = absurd (omega arith)
filled-take (suc n) u (b ∷ bs) h = ap (λ l. b ∷ l) (filled-take n u bs (omega arith))

length-drop : (n : ℕ) (bs : List ℕ) → length (drop n bs) ≡ length bs - n
length-drop zero bs = omega arith
length-drop (suc n) [] = omega arith
length-drop (suc n) (b ∷ bs) = omega (arith, length-drop n bs)

-- the section found, its part of the file
take_text_lem :
    (os : Os) (file : List ℕ) (sh : Shdr) (w : World os.Kernel)
    → sh.sh_offset + sh.sh_size ≤ length file
    → take_text os file (found sh) w
      ≡ done success (record w {
        program = record w.program {
          text = record w.program.text {
            size = sh.sh_size;
            entry = sh.sh_addr;
            bytes = take sh.sh_size (drop sh.sh_offset file);
          };
        };
      })
unfolding take_text ◌>>=◌
take_text_lem os file sh w h =
    let u = os.indeterminate w.kernel in
    rw
      (filled-take sh.sh_size (u % 256) (drop sh.sh_offset file)
        (omega (arith, length-drop sh.sh_offset file)))
      refl

-- Two texts that are the same up to a place where both have a letter, and not the same one.
pub record Differs (s t : List ℕ) : Type 0 where
  pub prefix : List ℕ
  pub c : ℕ
  pub cs : List ℕ
  pub d : ℕ
  pub ds : List ℕ
  pub left : s ≡ prefix ++ (c ∷ cs)
  pub right : t ≡ prefix ++ (d ∷ ds)
  pub other : (c == d) ≡ false

same : (c : ℕ) → (c == c) ≡ true
same c = ground arith

strcmp_eq-append : (cs rest : List ℕ) → strcmp_eq cs (cs ++ rest) ≡ some true
unfolding strcmp_eq
strcmp_eq-append [] rest = refl
strcmp_eq-append (c ∷ cs) rest = rw (same c) (strcmp_eq-append cs rest)

strcmp_eq-prefix :
    (prefix : List ℕ) (c : ℕ) (cs : List ℕ) (d : ℕ) (ds : List ℕ)
    → (c == d) ≡ false
    → strcmp_eq (prefix ++ (c ∷ cs)) (prefix ++ (d ∷ ds)) ≡ some false
unfolding strcmp_eq
strcmp_eq-prefix [] c cs d ds other = rw other refl
strcmp_eq-prefix (p ∷ prefix) c cs d ds other =
    rw (same p) (strcmp_eq-prefix prefix c cs d ds other)

strcmp_eq-Differs : (s t : List ℕ) → Differs s t → strcmp_eq s t ≡ some false
strcmp_eq-Differs s t h = rw (h.left, h.right) (strcmp_eq-prefix h.prefix h.c h.cs h.d h.ds h.other)

find_text_lem :
    (strsec : List ℕ) (before after : List Shdr) (sh : Shdr) (rest : List ℕ)
    → All (λ s. Differs dot_text (drop s.sh_name strsec)) before
    → drop sh.sh_name strsec ≡ dot_text ++ rest
    → find_text strsec (before ++ (sh ∷ after)) ≡ found sh
unfolding find_text
find_text_lem strsec [] after sh rest others named =
    let e : strcmp_eq dot_text (drop sh.sh_name strsec) ≡ some true =
      ap (strcmp_eq dot_text) named ∙ strcmp_eq-append dot_text rest in
    rw e refl
find_text_lem strsec (s ∷ before) after sh rest others named =
    rw (strcmp_eq-Differs dot_text (drop s.sh_name strsec) others.0)
      (find_text_lem strsec before after sh rest others.1 named)

-- the header, the table of the sections, and the names in the section for them
abbrev pub header : List ℕ → Ehdr
header file = ehdr (take 64 file)

abbrev pub table : List ℕ → List Shdr
table file =
    shdrs (header file).e_shnum
      (take (64 * (header file).e_shnum) (drop (header file).e_shoff file))

abbrev pub names_of : List ℕ → Shdr → List ℕ
names_of file strtab = take strtab.sh_size (drop strtab.sh_offset file)

-- A file with a section ".text": the header, the table, the names and the section lie in the file,
-- and the names of the sections before it are others.
pub record HasText (file : List ℕ) (sh : Shdr) : Type 0 where
  pub strtab : Shdr
  pub before : List Shdr
  pub after : List Shdr
  pub rest : List ℕ
  pub header_fits : 64 ≤ length file
  pub table_fits : (header file).e_shoff + 64 * (header file).e_shnum ≤ length file
  pub strtab_at : get_elem? (table file) (header file).e_shstrndx ≡ some strtab
  pub names_fit : strtab.sh_offset + strtab.sh_size ≤ length file
  pub sections : table file ≡ before ++ (sh ∷ after)
  pub others : All (λ s. Differs dot_text (drop s.sh_name (names_of file strtab))) before
  pub named : drop sh.sh_name (names_of file strtab) ≡ dot_text ++ rest
  pub text_fits : sh.sh_offset + sh.sh_size ≤ length file

fits : (m n : ℕ) → m ≤ n → leb m n ≡ true
fits m n h = ground arith

-- Where the path is that of a file with a section ".text", that has its header, its table of
-- sections, their names and that section inside it, `parse_elf` succeeds, and the debugger has then
-- the part of the file that the section's header names, at the address that it gives, and whether
-- the file is to be moved in memory.
pub parse_elf_lem :
    (os : Os) (path : String) (file : List ℕ) (sh : Shdr) (w : World os.Kernel)
    → os.open_file path w.kernel ≡ some file
    → HasText file sh
    → parse_elf os path w
      ≡ done success (record w {
        program = record w.program {
          dynamic = (header file).e_type == et_dyn;
          text = record w.program.text {
            size = sh.sh_size;
            entry = sh.sh_addr;
            bytes = take sh.sh_size (drop sh.sh_offset file);
          };
        };
      })
unfolding parse_elf parse_bytes ◌>>=◌
parse_elf_lem os path file sh w opened h =
    let e1 = fits 64 (length file) h.header_fits in
    let e2 = fits _ _ h.table_fits in
    let e3 = fits _ _ h.names_fit in
    let e4 : find_text (names_of file h.strtab) (table file) ≡ found sh =
      ap (find_text (names_of file h.strtab)) h.sections
      ∙ find_text_lem (names_of file h.strtab) h.before h.after sh h.rest h.others h.named in
    rw opened (
      rw e1 (
        rw e2 (
          rw h.strtab_at (
            rw e3 (
              rw e4 (
                take_text_lem os file sh
                  (record w {
                    program = record w.program { dynamic = (header file).e_type == et_dyn };
                  })
                  h.text_fits))))))
