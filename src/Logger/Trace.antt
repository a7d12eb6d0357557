-- ===== src/Logger/Trace.antt =====
-- HW2/logger.c: a traced program is a sequence of calls.
use advanced_programmin.Prelude.{
  ◌≡◌, refl, ap, sym, ◌∙◌, Bool, true, false, Option, some, List, [], ◌∷◌, ◌++◌, map, if◌then◌else◌,
}
use mathlib.Core.List.{append_assoc, append-nil}
use advanced_programmin.Logger.{Libc, World, Line, ◌>>=◌}
use advanced_programmin.Logger.Calls.{Call, Answer, symbol, result_of, hook, real, safe, Ready}
use advanced_programmin.Logger.Calls.Output.{bound}
use advanced_programmin.Logger.Calls.Faithful.{hook_lem, both_true}

module _ (c : Libc) where
  -- A program's calls in order, with the library and without.
  unfoldable pub trace : List Call → World c.Kernel → Option (List Answer × World c.Kernel)
  trace [] w = some ([], w)
  trace (call ∷ calls) w =
      hook c call w >>= λ r. trace calls r.1 >>= λ rest. some (r.0 ∷ rest.0, rest.1)

  abbrev pub untraced : List Call → c.Kernel → List Answer × c.Kernel
  untraced [] k = ([], k)
  untraced (call ∷ calls) k =
      let (a, k') = real c call k in let (rest, k'') = untraced calls k' in (a ∷ rest, k'')

  -- the kernel at which the log is opened, behind the first call
  abbrev pub first_kernel : List Call → c.Kernel → c.Kernel
  first_kernel [] k = k
  first_kernel (call ∷ calls) k = (real c call k).1

  abbrev pub all_safe : List Call → c.Kernel → Bool
  all_safe [] k = true
  all_safe (call ∷ calls) k =
      let (a, k') = real c call k in if safe c call a then all_safe calls k' else false

  -- The run comes to its end with the answers and the kernel of the untraced one, and one line for
  -- each call, in order, with its name and its answer.
  pub record Followed (calls : List Call) (w : World c.Kernel) : Type 0 where
    pub after : World c.Kernel
    pub added : List Line
    pub returned : trace calls w ≡ some ((untraced calls w.kernel).0, after)
    pub same_kernel : after.kernel ≡ (untraced calls w.kernel).1
    pub logged : after.lines ≡ w.lines ++ added
    pub named : map (λ line. line.function) added ≡ map symbol calls
    pub shown : map (λ line. line.result) added ≡ map result_of (untraced calls w.kernel).0

  -- A program whose calls are all ones where the library is out of the way (no mode for `open`,
  -- results and sizes that an `int` holds, streams that are there, buffers with the bytes that are
  -- shown, no failing `read`), traced by a library that
  -- finds every function and has a file for its log, or can open it behind the first call, gets the answers that it gets untraced, in the
  -- same order, and leaves the same kernel; the log has one line more for each call, in order, under
  -- the call's name and with the answer.
  pub trace_lem :
      (calls : List Call) (w : World c.Kernel)
      → Ready c w (first_kernel calls w.kernel)
      → all_safe calls w.kernel ≡ true
      → Followed calls w
  unfolding trace
  trace_lem [] w h ok = record {
    after = w;
    added = [];
    returned = refl;
    same_kernel = refl;
    logged = sym (append-nil w.lines);
    named = refl;
    shown = refl;
  }
  trace_lem (call ∷ calls) w h ok =
      let (a_safe, rest_safe) =
        both_true (safe c call (real c call w.kernel).0) (all_safe calls (real c call w.kernel).1)
          ok in
      let t = hook_lem c call w h a_safe in
      let u =
        trace_lem calls t.after (t.still (first_kernel calls t.after.kernel))
          (ap (all_safe calls) t.same_kernel ∙ rest_safe) in
      record {
        after = u.after;
        added = t.line ∷ u.added;
        returned =
            bound _ t.returned
            ∙ (bound _ u.returned
                ∙ ap (λ k. some ((real c call w.kernel).0 ∷ (untraced calls k).0, u.after))
                    t.same_kernel);
        same_kernel = u.same_kernel ∙ ap (λ k. (untraced calls k).1) t.same_kernel;
        logged =
            u.logged
            ∙ (ap (λ ls. ls ++ u.added) t.logged ∙ append_assoc w.lines (t.line ∷ []) u.added);
        named = rw (t.named, u.named) refl;
        shown =
            rw (t.shown, u.shown)
              (ap (λ k. result_of (real c call w.kernel).0 ∷ map result_of (untraced calls k).0)
                t.same_kernel);
      }
