-- ===== src/Mini/Text/Messages.antt =====
-- HW3/libmini.c: what `perror` shows.
use advanced_programmin.Prelude.{
  ℕ, zero, suc, ◌≡◌, inl, inr, refl, sym, ap, subst, String, Bool, true, false, Option, none, some,
  List, [], ◌∷◌, ◌++◌, length, take, get_elem?, ◌==◌, ltb, if◌then◌else◌, Bool-cases, arith,
}
use Prim.Native.Char.{code}
use mathlib.Core.List.{append_assoc}
use advanced_programmin.Prelude.Int.{ℤ, pos, negsuc}
use advanced_programmin.Mini.{System, World, num, bytes}
use advanced_programmin.Mini.Calls.{write, retval, to_ssize}
use advanced_programmin.Mini.Text.{
  strlen, literal, errmsg, message, in_table, put, ◌>=>◌, put_prefix, put_message, perror,
}

-- A kernel whose descriptor 2 takes every text whole, and a record of what it took.
pub record Terminal (sys : System) : Type 0 where
  pub shown : sys.Kernel → List ℕ
  pub accepts :
      (s : List ℕ) (n : ℕ) (k : sys.Kernel)
      → (sys.syscall 1 (num (pos 2) ∷ bytes s ∷ num (pos n) ∷ []) k).0 ≡ pos n
  pub shows :
      (s : List ℕ) (n : ℕ) (k : sys.Kernel)
      → shown (sys.syscall 1 (num (pos 2) ∷ bytes s ∷ num (pos n) ∷ []) k).1 ≡ shown k ++ take n s

-- A text holds no zero, so that its bytes with one at the end are a string.
abbrev pub clean : List ℕ → Bool
clean [] = true
clean (b ∷ p) = if b == 0 then false else clean p

abbrev pub zero_ended : List ℕ → List ℕ
zero_ended p = p ++ (0 ∷ [])

strlen_lem : (p : List ℕ) → clean p ≡ true → strlen (zero_ended p) ≡ some (length p)
unfolding strlen
strlen_lem [] h = refl
strlen_lem (b ∷ p) h = ground (arith, strlen_lem p)

take_text : (p : List ℕ) → take (length p) (zero_ended p) ≡ p
take_text [] = refl
take_text (b ∷ p) = rw (take_text p) refl

-- The bytes of the texts in the source.
abbrev pub text : String → List ℕ
text String.[] = []
text (String.◌∷◌ c s) = code c ∷ text s

literal_lem : (s : String) → literal s ≡ zero_ended (text s)
literal_lem String.[] = refl
literal_lem (String.◌∷◌ c s) = rw (literal_lem s) refl

-- The message of a number, and what `perror` is to show; `none` is a read past the table's end.
abbrev pub described : ℤ → List ℕ
described e = elim (message e) [ none ↦ text "Unknown" | some s ↦ text s ]

abbrev pub report : Option (List ℕ) → ℤ → Option (List ℕ)
report none e = some (described e ++ text "\n")
report (some p) e =
    if in_table e then some (p ++ (text ": " ++ (described e ++ text "\n"))) else none

all_clean : List String → Bool
all_clean [] = true
all_clean (s ∷ ss) = if clean (text s) then all_clean ss else false

clean_at :
    (ss : List String) (i : ℕ) (s : String)
    → all_clean ss ≡ true
    → get_elem? ss i ≡ some s
    → clean (text s) ≡ true
unfolding all_clean
clean_at [] i s h e = absurd (ground arith)
clean_at (x ∷ ss) zero s h e = ground arith
clean_at (x ∷ ss) (suc i) s h e = clean_at ss i s (ground arith) e

inside :
    {A : Type 0} (xs : List A) (i : ℕ)
    → ltb i (length xs) ≡ true
    → (a : A) × (get_elem? xs i ≡ some a)
inside [] i h = absurd (ground arith)
inside (x ∷ xs) zero h = (x, refl)
inside (x ∷ xs) (suc i) h = inside xs i (ground arith)

outside : {A : Type 0} (xs : List A) (i : ℕ) → ltb i (length xs) ≡ false → get_elem? xs i ≡ none
outside [] i h = refl
outside (x ∷ xs) zero h = absurd (ground arith)
outside (x ∷ xs) (suc i) h = outside xs i (ground arith)

retval_pos :
    {K : Type 0} (cast : ℤ → ℤ) (r : ℤ × K) (n : ℕ) (w : World K)
    → r.0 ≡ pos n
    → retval cast r w ≡ (cast (pos n), record w { errno = pos 0; kernel = r.1 })
retval_pos cast (pos m, k) n w h = rw h refl
retval_pos cast (negsuc m, k) n w h = absurd (ground arith)

reassociated : (a b c d e : List ℕ) → ((((a ++ b) ++ c) ++ d) ++ e) ≡ (a ++ (b ++ (c ++ (d ++ e))))
reassociated a b c d e = simp append_assoc refl

module _ (sys : System) (t : Terminal sys) where
  -- The run has no fault, leaves `errno` 0, and the text is what the terminal has then.
  Prints : Option (World sys.Kernel) → List ℕ → Type 0
  Prints r o = (w : World sys.Kernel) × (r ≡ some w) × (w.errno ≡ pos 0) × (t.shown w.kernel ≡ o)

  put-Prints :
      (p : List ℕ) (w : World sys.Kernel)
      → clean p ≡ true
      → Prints (put sys (zero_ended p) w) (t.shown w.kernel ++ p)
  unfolding Prints put write
  put-Prints p w h =
      let wrote =
        retval_pos (to_ssize)
          (sys.syscall 1 (num (pos 2) ∷ bytes (zero_ended p) ∷ num (pos (length p)) ∷ []) w.kernel)
          (length p) w (t.accepts (zero_ended p) (length p) w.kernel) in
      rw (put, strlen_lem p h)
        (
          _,
          refl,
          rw wrote refl,
          rw wrote (rw (t.shows (zero_ended p) (length p) w.kernel, take_text p) refl),
        )

  literal-Prints :
      (s : String) (w : World sys.Kernel)
      → clean (text s) ≡ true
      → Prints (put sys (literal s) w) (t.shown w.kernel ++ text s)
  literal-Prints s w h = rw (literal_lem s) (put-Prints (text s) w h)

  then_ :
      (r : Option (World sys.Kernel)) (f : World sys.Kernel → Option (World sys.Kernel))
      → (before after : List ℕ) → Prints r before
      → ((w : World sys.Kernel) → w.errno ≡ pos 0 → Prints (f w) (t.shown w.kernel ++ after))
      → Prints (◌>=>◌ sys r f) (before ++ after)
  unfolding Prints
  then_ r f before after (w, e, e0, es) step = rw (e, sym es) (step w e0)

  message-Prints :
      (e : ℤ) (w : World sys.Kernel)
      → in_table w.errno ≡ true
      → in_table e ≡ true
      → Prints (put_message sys e w) (t.shown w.kernel ++ described e)
  unfolding put_message all_clean
  message-Prints (negsuc i) w h hi = absurd (ground arith)
  message-Prints (pos i) w h hi =
      let (s, e) = inside errmsg i (ground arith) in
      rw (h, e) (literal-Prints s w (clean_at errmsg i s refl e))

  unknown-Prints :
      (e : ℤ) (w : World sys.Kernel)
      → in_table w.errno ≡ false
      → message e ≡ none
      → Prints (put_message sys e w) (t.shown w.kernel ++ described e)
  unfolding put_message
  unknown-Prints e w h m =
      rw (h, ap {B = List ℕ} (λ m. elim m [ none ↦ text "Unknown" | some s ↦ text s ]) m)
        (literal-Prints "Unknown" w refl)

  no_message : (e : ℤ) → in_table e ≡ false → message e ≡ none
  no_message (negsuc i) h = refl
  no_message (pos i) h = outside errmsg i (ground arith)

  -- The successful writes have reset the number that is tested.
  fault :
      (e : ℤ) (w : World sys.Kernel)
      → w.errno ≡ pos 0
      → message e ≡ none
      → put_message sys e w ≡ none
  unfolding put_message
  fault e w h m = rw (h, m) refl

  first-Prints :
      (w : World sys.Kernel)
      → Prints (put_message sys w.errno w) (t.shown w.kernel ++ described w.errno)
  first-Prints w = elim (Bool-cases (in_table w.errno)) [
    | inl h ↦ message-Prints w.errno w h h
    | inr h ↦ unknown-Prints w.errno w h (no_message w.errno h)
  ]

  line-Prints :
      (o : List ℕ) (r : Option (World sys.Kernel))
      → Prints r o
      → Prints (◌>=>◌ sys r (put sys (literal "\n"))) (o ++ text "\n")
  line-Prints o r h =
      then_ r (put sys (literal "\n")) o (text "\n") h (λ w h0. literal-Prints "\n" w refl)

  prefix-Prints :
      (p : List ℕ) (w : World sys.Kernel)
      → clean p ≡ true
      → Prints (put_prefix sys (some (zero_ended p)) w) ((t.shown w.kernel ++ p) ++ text ": ")
  unfolding put_prefix
  prefix-Prints p w h =
      then_ (put sys (zero_ended p) w) (put sys (literal ": ")) (t.shown w.kernel ++ p) (text ": ")
        (put-Prints p w h) (λ w h0. literal-Prints ": " w refl)

  -- The run shows the text and leaves `errno` 0, or it has a fault where no text is given.
  abbrev pub Shows : Option (World sys.Kernel) → Option (List ℕ) → List ℕ → Type 0
  Shows r none start = r ≡ none
  Shows r (some o) start =
      (w : World sys.Kernel) × (r ≡ some w) × (w.errno ≡ pos 0) × (t.shown w.kernel ≡ start ++ o)

  perror_null :
      (w : World sys.Kernel) → Shows (perror sys none w) (report none w.errno) (t.shown w.kernel)
  unfolding Prints perror put_prefix
  perror_null w =
      subst (Prints (perror sys none w))
        (append_assoc (t.shown w.kernel) (described w.errno) (text "\n"))
        (line-Prints (t.shown w.kernel ++ described w.errno) (put_message sys w.errno w)
          (first-Prints w))

  perror_prefixed :
      (p : List ℕ) (w : World sys.Kernel)
      → clean p ≡ true
      → Shows (perror sys (some (zero_ended p)) w) (report (some p) w.errno) (t.shown w.kernel)
  unfolding Prints perror
  perror_prefixed p w h =
      let start = t.shown w.kernel in
      let e = w.errno in
      let prefixed = put_prefix sys (some (zero_ended p)) w in
      elim (Bool-cases (in_table e)) [
        | inl ht ↦ rw ht (
            subst (Prints (perror sys (some (zero_ended p)) w))
              (reassociated start p (text ": ") (described e) (text "\n"))
              (line-Prints (((start ++ p) ++ text ": ") ++ described e)
                (◌>=>◌ sys prefixed (put_message sys e))
                (then_ prefixed (put_message sys e) ((start ++ p) ++ text ": ") (described e)
                  (prefix-Prints p w h) (λ w' h0. message-Prints e w' (rw h0 refl) ht))))
        | inr ht ↦ rw ht (
            let (w', ew, e0, es) = prefix-Prints p w h in
            rw ew (rw (fault e w' e0 (no_message e ht)) refl))
      ]

  abbrev pub prefix_clean : Option (List ℕ) → Bool
  prefix_clean none = true
  prefix_clean (some p) = clean p

  abbrev pub ended : Option (List ℕ) → Option (List ℕ)
  ended none = none
  ended (some p) = some (zero_ended p)

  -- On a terminal that takes every text whole, `perror` without a prefix shows the message of the
  -- number in `errno`, or `Unknown` for one outside the table, and a line's end. With a prefix, a
  -- text without zeros, it shows the prefix, `: `, the message and a line's end where the number is
  -- in the table; where it is not, the message is read past the table's end, a fault. Without a
  -- fault `errno` is 0 at the end.
  pub perror_lem :
      (prefix : Option (List ℕ)) (w : World sys.Kernel)
      → prefix_clean prefix ≡ true
      → Shows (perror sys (ended prefix) w) (report prefix w.errno) (t.shown w.kernel)
  perror_lem none w h = perror_null w
  perror_lem (some p) w h = perror_prefixed p w h
