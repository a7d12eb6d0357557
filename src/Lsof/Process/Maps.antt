-- ===== src/Lsof/Process/Maps.antt =====
-- HW1/hw1.cpp, `parse_maps`: the rows that the mapped files add.
use text.Mathlib.TextPositions.{eq_refl}
use advanced_programmin.Prelude.{
  sym, subst, ◌∙◌, ◌≡◌, refl, ap, String, Bool, true, false, ◌||◌, List, [], ◌∷◌, ◌++◌, str_eq,
  Bool-cases, inl, inr,
}
use advanced_programmin.Sdb.Scan.{words}
use advanced_programmin.Lsof.File.{FileInfo}
use advanced_programmin.Lsof.Process.{has_node, nth_word, mapped, map_line, parse_lines}

-- The rows in order, each with a node that no row before it has, of a regular file that is mapped.
abbrev pub Added : List FileInfo → List FileInfo → Type 0
Added before [] = Unit
Added before (info ∷ infos) =
    (has_node info.node before ≡ false)
    × (str_eq info.node "0" ≡ false)
    × (info.kind ≡ "REG")
    × Added (before ++ (info ∷ [])) infos

-- Every line's inode is a node of the list, or it is "0".
abbrev pub Covers : List FileInfo → List String → Type 0
Covers infos [] = Unit
Covers infos (line ∷ lines) =
    ((str_eq (nth_word (words line) 4) "0" || has_node (nth_word (words line) 4) infos) ≡ true)
    × Covers infos lines

or-true : (b : Bool) → (b || true) ≡ true
or-true true = refl
or-true false = refl

or-false : (b c : Bool) → (b || c) ≡ false → (b ≡ false) × (c ≡ false)
or-false true c e = cc
or-false false c e = (refl, e)

or-left : (b : Bool) {c d : Bool} → (b || c) ≡ true → (c ≡ true → d ≡ true) → (b || d) ≡ true
or-left true e f = refl
or-left false e f = f e

has_node-append :
    (n : String) (xs ys : List FileInfo) → has_node n (xs ++ ys) ≡ (has_node n xs || has_node n ys)
unfolding has_node
has_node-append n [] ys = refl
has_node-append n (x ∷ xs) ys = elim (Bool-cases (str_eq x.node n)) [
  | inl e ↦ rw e refl
  | inr e ↦ rw e (has_node-append n xs ys)
]

pub append_assoc : (xs ys zs : List FileInfo) → (xs ++ ys) ++ zs ≡ xs ++ (ys ++ zs)
append_assoc [] ys zs = refl
append_assoc (x ∷ xs) ys zs = ap (λ l. x ∷ l) (append_assoc xs ys zs)

append_nil : (xs : List FileInfo) → xs ++ [] ≡ xs
append_nil [] = refl
append_nil (x ∷ xs) = ap (λ l. x ∷ l) (append_nil xs)

has_node-left :
    (n : String) (xs ys : List FileInfo) → has_node n xs ≡ true → has_node n (xs ++ ys) ≡ true
has_node-left n xs ys h = rw (has_node-append n xs ys) (rw h refl)

-- the new row is found
has_node-new :
    (infos : List FileInfo) (info : FileInfo) → has_node info.node (infos ++ (info ∷ [])) ≡ true
unfolding has_node
has_node-new infos info =
    rw (has_node-append info.node infos (info ∷ []))
      (rw (eq_refl info.node) (or-true (has_node info.node infos)))

-- What `infos` has become when the lines are read.
abbrev pub Read : List FileInfo → List String → List FileInfo → Type 0
Read infos lines out =
    (added : List FileInfo) × (out ≡ infos ++ added) × Added infos added × Covers out lines

Read-skipped :
    (infos : List FileInfo) (line : String) (lines : List String) (out : List FileInfo)
    → (str_eq (nth_word (words line) 4) "0" || has_node (nth_word (words line) 4) infos) ≡ true
    → Read infos lines out
    → Read infos (line ∷ lines) out
Read-skipped infos line lines out e (added, p, new, all) =
    let n = nth_word (words line) 4 in
    let h : (str_eq n "0" || has_node n (infos ++ added)) ≡ true =
      or-left (str_eq n "0") e (has_node-left n infos added) in
    (added, p, new, (rw p h, all))

Read-added :
    (infos : List FileInfo) (line : String) (lines : List String) (out : List FileInfo)
    → (str_eq (nth_word (words line) 4) "0" || has_node (nth_word (words line) 4) infos) ≡ false
    → Read (infos ++ (mapped (words line) ∷ [])) lines out
    → Read infos (line ∷ lines) out
Read-added infos line lines out e (added, p, new, all) =
    let m = mapped (words line) in
    let (not_zero, old) = or-false (str_eq m.node "0") (has_node m.node infos) e in
    let h : has_node m.node out ≡ true =
      rw p (has_node-left m.node (infos ++ (m ∷ [])) added (has_node-new infos m)) in
    (
      m ∷ added,
      p ∙ append_assoc infos (m ∷ []) added,
      (old, not_zero, refl, new),
      (rw h (or-true (str_eq m.node "0")), all),
    )

-- `parse_maps` keeps the rows that were there and adds rows behind them, each of a regular file
-- whose inode is not "0" and is that of no row before it; and every line of the file that has
-- another inode than "0" has a row with this inode in the end.
pub parse_lines_lem :
    (infos : List FileInfo) (lines : List String) → Read infos lines (parse_lines infos lines)
unfolding parse_lines map_line
parse_lines_lem infos [] = ([], sym (append_nil infos), tt, tt)
parse_lines_lem infos (line ∷ lines) =
    let n = nth_word (words line) 4 in
    let m = mapped (words line) in
    elim (Bool-cases (str_eq n "0" || has_node n infos)) [
      | inl e ↦
          let same : map_line infos (words line) ≡ infos = rw e refl in
          subst (λ l. Read infos (line ∷ lines) (parse_lines l lines)) (sym same)
            (Read-skipped infos line lines (parse_lines infos lines) e
              (parse_lines_lem infos lines))
      | inr e ↦
          let more : map_line infos (words line) ≡ infos ++ (m ∷ []) = rw e refl in
          subst (λ l. Read infos (line ∷ lines) (parse_lines l lines)) (sym more)
            (Read-added infos line lines (parse_lines (infos ++ (m ∷ [])) lines) e
              (parse_lines_lem (infos ++ (m ∷ [])) lines))
    ]
