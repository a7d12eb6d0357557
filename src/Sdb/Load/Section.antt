-- ===== src/Sdb/Load/Section.antt =====
-- HW4/load.cpp: which section `parse_elf` takes.
use advanced_programmin.Prelude.{
  ℕ, ◌≡◌, refl, ap, arith, Bool, true, false, Option, none, some, List, [], ◌∷◌, ◌++◌, All, drop,
}
use advanced_programmin.Sdb.Load.{
  Shdr, strcmp_eq, dot_text, Search, found, absent, overrun, picked, find_text,
}

strcmp_eq-true : (cs s : List ℕ) → strcmp_eq cs s ≡ some true → (rest : List ℕ) × (s ≡ cs ++ rest)
unfolding strcmp_eq
strcmp_eq-true [] s e = (s, refl)
strcmp_eq-true (c ∷ cs) [] e = cc
strcmp_eq-true (c ∷ cs) (d ∷ s) e =
    let h : strcmp_eq cs s ≡ some true = ground arith in
    let q : c ≡ d = ground arith in let (rest, p) = strcmp_eq-true cs s h in (rest, cc)

-- The comparison of the loop, for one section.
abbrev pub compared : List ℕ → Shdr → Option Bool
compared strsec sh = strcmp_eq dot_text (drop sh.sh_name strsec)

-- What the result of the search says: the section found is the first whose name in the string
-- table is ".text" and a zero, and where none is found every name was compared and differs.
abbrev pub Searched : List ℕ → List Shdr → Search → Type 0
Searched strsec shs (found sh) =
    (before after : List Shdr) × (shs ≡ before ++ (sh ∷ after))
    × All (λ s. compared strsec s ≡ some false) before
    × ((rest : List ℕ) × (drop sh.sh_name strsec ≡ dot_text ++ rest))
Searched strsec shs absent = All (λ s. compared strsec s ≡ some false) shs
Searched strsec shs overrun =
    (before after : List Shdr) × (sh : Shdr) × (shs ≡ before ++ (sh ∷ after))
    × All (λ s. compared strsec s ≡ some false) before
    × (compared strsec sh ≡ none)

Searched-cons :
    (strsec : List ℕ) (sh : Shdr) (shs : List Shdr) (r : Search)
    → compared strsec sh ≡ some false
    → Searched strsec shs r
    → Searched strsec (sh ∷ shs) r
Searched-cons strsec sh shs (found x) e (before, after, p, all, named) =
    (sh ∷ before, after, ap (λ l. sh ∷ l) p, (e, all), named)
Searched-cons strsec sh shs absent e h = (e, h)
Searched-cons strsec sh shs overrun e (before, after, x, p, all, named) =
    (sh ∷ before, after, x, ap (λ l. sh ∷ l) p, (e, all), named)

Searched-picked :
    (strsec : List ℕ) (sh : Shdr) (shs : List Shdr) (o : Option Bool) (r : Search)
    → compared strsec sh ≡ o
    → Searched strsec shs r
    → Searched strsec (sh ∷ shs) (picked o sh r)
Searched-picked strsec sh shs none r e h = ([], shs, sh, refl, tt, e)
Searched-picked strsec sh shs (some true) r e h =
    ([], shs, refl, tt, strcmp_eq-true dot_text (drop sh.sh_name strsec) e)
Searched-picked strsec sh shs (some false) r e h = Searched-cons strsec sh shs r e h

-- The section that the loop of `parse_elf` takes is the first whose name in the string table is
-- ".text"; where it takes none, every name was compared and differs; and it runs past the table
-- only at a section whose name has no end in it, behind others that differ.
pub find_text-Searched :
    (strsec : List ℕ) (shs : List Shdr) → Searched strsec shs (find_text strsec shs)
unfolding find_text
find_text-Searched strsec [] = tt
find_text-Searched strsec (sh ∷ shs) =
    Searched-picked strsec sh shs (compared strsec sh) (find_text strsec shs) refl
      (find_text-Searched strsec shs)
