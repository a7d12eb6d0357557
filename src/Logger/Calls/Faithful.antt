-- ===== src/Logger/Calls/Faithful.antt =====
-- HW2/logger.c: a call that the library stands before is the real call, and one line.
use advanced_programmin.Prelude.{
  subst, none, ℕ, ◌*◌, ◌^◌, ◌≡◌, refl, ap, sym, ◌∙◌, Bool, true, false, Option, some, List, ◌==◌,
  ltb, if◌then◌else◌, arith,
}
use advanced_programmin.Prelude.Int.{ℤ, pos, negsuc, to_int, to_i32}
use advanced_programmin.Logger.{
  Libc, World, Line, Field, Symbol, s_chmod, s_chown, s_close, s_creat, s_fclose, s_fopen, s_fread,
  s_fwrite, s_open, s_read, s_remove, s_rename, s_tmpfile, s_write, excerpt, ◌>>=◌,
}
use advanced_programmin.Logger.Hooks
use advanced_programmin.Logger.Calls.Output.{
  to_i32_lem, to_int_lem, small_lem, wide, small_readable, excerpt_lem, filename_lem, log_lem,
  taken, bound,
}
use advanced_programmin.Logger.Calls.{
  Call, Answer, answers, filled_pair, items_pair, symbol, result_of, hook, real, safe, readable,
  small, Ready, Transparent, chmod, chown, close, creat, fclose, fopen, fread, fwrite, open_file,
  read, remove, rename, tmpfile, write, int, size, stream, filled, items,
}

pub both : (p q : Bool) → (if p then false else q) ≡ true → (p ≡ false) × (q ≡ true)
both true q h = absurd (ground arith)
both false q h = (refl, h)

pub both_true : (p q : Bool) → (if p then q else false) ≡ true → (p ≡ true) × (q ≡ true)
both_true true q h = (refl, h)
both_true false q h = absurd (ground arith)

module _ (c : Libc) where
  finish :
      {A : Type 0} {s : Symbol} {a : A} {k : c.Kernel} {r : Option (Answer × World c.Kernel)}
      → (fields : List Field) (result : Field) (f : A → Answer) (call : Call) (w : World c.Kernel)
      → Ready c w k
      → r ≡ answers f (Hooks.told c s fields result a (record w { kernel = k }))
      → s ≡ symbol call
      → result ≡ result_of (f a)
      → real c call w.kernel ≡ (f a, k)
      → Transparent c call w r
  unfolding Hooks.told
  finish {s = s} {a = a} {k = k} fields result f call w h run named last same =
      let line : Line = record { function = s; arguments = fields; result = result } in
      let (next, e, logged) =
        log_lem c line (record w { kernel = k }) (record { found = h.found; output = h.output }) in
      record {
        after = next;
        line = line;
        returned = rw same (run ∙ ap (λ o. answers f (o >>= λ w'. some (a, w'))) e);
        same_kernel = logged.kernel ∙ sym (ap (λ x. x.1) same);
        logged = logged.lines;
        named = named;
        shown = last ∙ ap (λ x. result_of x.0) (sym same);
        still = logged.still;
      }

  fread_lem :
      (n nmemb file : ℕ) (w : World c.Kernel)
      → Ready c w (real c (fread n nmemb file) w.kernel).1
      → safe c (fread n nmemb file) (real c (fread n nmemb file) w.kernel).0 ≡ true
      → Transparent c (fread n nmemb file) w (hook c (fread n nmemb file) w)
  unfolding hook Hooks.fread
  fread_lem n nmemb file w h safe_ =
      let ((got, object), k) = c.fread n nmemb file w.kernel in
      let (there, r) = both (file == 0) (readable got object) safe_ in
      let (str, es) = excerpt_lem c got object r in
      let (name, en) = filename_lem c file k there in
      let same = wide got (small_readable c got object r) in
      finish _ _ items_pair (fread n nmemb file) w h
        (ap (answers items_pair) (
          taken _ (h.found s_fread)
          ∙ bound _ (
              ap (λ x. excerpt c (to_int x) object) same
              ∙ (ap (λ z. excerpt c z object) (to_int_lem got (small_readable c got object r))
                  ∙ es))
          ∙ bound _ en))
        refl refl (ap (λ x. (items x object, k)) (sym same))

  fwrite_lem :
      (object : List ℕ) (n nmemb file : ℕ) (w : World c.Kernel)
      → Ready c w (real c (fwrite object n nmemb file) w.kernel).1
      → safe c (fwrite object n nmemb file) (real c (fwrite object n nmemb file) w.kernel).0 ≡ true
      → Transparent c (fwrite object n nmemb file) w (hook c (fwrite object n nmemb file) w)
  unfolding hook Hooks.fwrite
  fwrite_lem object n nmemb file w h safe_ =
      let (put, k) = c.fwrite object n nmemb file w.kernel in
      let (there, rest) =
        both (file == 0) (if ltb put (2 ^ 31) then readable (n * nmemb) object else false) safe_ in
      let (fits, r) = both_true (ltb put (2 ^ 31)) (readable (n * nmemb) object) rest in
      let (str, es) = excerpt_lem c (n * nmemb) object r in
      let (name, en) = filename_lem c file k there in
      finish _ _ size (fwrite object n nmemb file) w h
        (ap (answers size) (
          taken _ (h.found s_fwrite)
          ∙ bound _ (
              ap (λ z. excerpt c z object)
                (to_int_lem (n * nmemb) (small_readable c (n * nmemb) object r))
              ∙ es)
          ∙ bound _ en))
        refl refl (ap (λ x. (size x, k)) (sym (wide put fits)))

  read_result :
      (fd z : ℤ) (count : ℕ) (object : List ℕ)
      → safe c (read fd count) (filled z object) ≡ true
      → (n : ℕ) × (z ≡ pos n) × (readable n object ≡ true)
  read_result fd (pos n) count object h = (n, refl, h)
  read_result fd (negsuc n) count object h = absurd (ground arith)

  read_lem :
      (fd : ℤ) (count : ℕ) (w : World c.Kernel)
      → Ready c w (real c (read fd count) w.kernel).1
      → safe c (read fd count) (real c (read fd count) w.kernel).0 ≡ true
      → Transparent c (read fd count) w (hook c (read fd count) w)
  unfolding hook Hooks.read
  read_lem fd count w h safe_ =
      let ((ret, object), k) = c.read fd count w.kernel in
      let (n, e, r) = read_result fd ret count object safe_ in
      let (str, es) = excerpt_lem c n object r in
      let once : to_i32 ret ≡ pos n = ap (to_i32) e ∙ to_i32_lem n (small_readable c n object r) in
      let twice : to_i32 (to_i32 ret) ≡ pos n =
        ap (to_i32) once ∙ to_i32_lem n (small_readable c n object r) in
      finish _ _ filled_pair (read fd count) w h
        (ap (answers filled_pair)
          (taken _ (h.found s_read) ∙ bound _ (ap (λ z. excerpt c z object) twice ∙ es)))
        refl refl (ap (λ z. (filled z object, k)) (e ∙ sym once))

  write_lem :
      (fd : ℤ) (object : List ℕ) (count : ℕ) (w : World c.Kernel)
      → Ready c w (real c (write fd object count) w.kernel).1
      → safe c (write fd object count) (real c (write fd object count) w.kernel).0 ≡ true
      → Transparent c (write fd object count) w (hook c (write fd object count) w)
  unfolding hook Hooks.write
  write_lem fd object count w h safe_ =
      let (ret, k) = c.write fd object count w.kernel in
      let (fits, r) = both_true (small ret) (readable count object) safe_ in
      let (str, es) = excerpt_lem c count object r in
      finish _ _ int (write fd object count) w h
        (ap (answers int) (
          taken _ (h.found s_write)
          ∙ bound _ (
              ap (λ z. excerpt c z object) (to_int_lem count (small_readable c count object r))
              ∙ es)))
        refl refl (ap (λ z. (int z, k)) (sym (small_lem ret fits)))

  -- A call of the library where it is out of the way.
  pub hook_lem :
      (call : Call) (w : World c.Kernel)
      → Ready c w (real c call w.kernel).1
      → safe c call (real c call w.kernel).0 ≡ true
      → Transparent c call w (hook c call w)
  unfolding hook Hooks.chmod Hooks.chown Hooks.close Hooks.creat Hooks.fclose Hooks.fopen
      Hooks.open_file Hooks.remove Hooks.rename Hooks.tmpfile
  hook_lem (chmod pathname mode) w h safe_ =
      finish _ _ int (chmod pathname mode) w h (ap (answers int) (taken _ (h.found s_chmod))) refl
        refl refl
  hook_lem (chown pathname owner group) w h safe_ =
      finish _ _ int (chown pathname owner group) w h (ap (answers int) (taken _ (h.found s_chown)))
        refl refl refl
  hook_lem (close fd) w h safe_ =
      finish _ _ int (close fd) w h (ap (answers int) (taken _ (h.found s_close))) refl refl refl
  hook_lem (creat pathname mode) w h safe_ =
      finish _ _ int (creat pathname mode) w h (ap (answers int) (taken _ (h.found s_creat))) refl
        refl refl
  hook_lem (fclose file) w h safe_ =
      let (name, e) = filename_lem c file w.kernel (ground arith) in
      finish _ _ int (fclose file) w h (ap (answers int) (taken _ (h.found s_fclose) ∙ bound _ e))
        refl refl refl
  hook_lem (fopen pathname mode) w h safe_ =
      finish _ _ stream (fopen pathname mode) w h (ap (answers stream) (taken _ (h.found s_fopen)))
        refl refl refl
  hook_lem (fread n nmemb file) w h safe_ = fread_lem n nmemb file w h safe_
  hook_lem (fwrite object n nmemb file) w h safe_ = fwrite_lem object n nmemb file w h safe_
  hook_lem (open_file pathname flags mode) w h safe_ =
      let e : c.needs_mode flags ≡ false = ground arith in
      let h' : Ready c w (c.open_file pathname flags none w.kernel).1 =
        subst
          (λ b. Ready c w (c.open_file pathname flags (if b then some mode else none) w.kernel).1) e
          h in
      finish _ _ int (open_file pathname flags mode) w h'
        (ap (answers int) (taken _ (h.found s_open))) refl refl (rw e refl)
  hook_lem (read fd count) w h safe_ = read_lem fd count w h safe_
  hook_lem (remove pathname) w h safe_ =
      finish _ _ int (remove pathname) w h (ap (answers int) (taken _ (h.found s_remove))) refl refl
        refl
  hook_lem (rename oldpath newpath) w h safe_ =
      finish _ _ int (rename oldpath newpath) w h (ap (answers int) (taken _ (h.found s_rename)))
        refl refl refl
  hook_lem tmpfile w h safe_ =
      let (name, e) = filename_lem c (c.tmpfile w.kernel).0 (c.tmpfile w.kernel).1 (ground arith) in
      finish _ _ stream tmpfile w h (ap (answers stream) (taken _ (h.found s_tmpfile) ∙ bound _ e))
        refl refl refl
  hook_lem (write fd object count) w h safe_ = write_lem fd object count w h safe_
