-- ===== src/Sdb/Exec/Maintains.antt =====
-- What an action keeps: a rule for each way to build an action. `Maintains P m` says that `m` leaves
-- `P` true of the debugger's program, however `m` ends.
use advanced_programmin.Prelude.{
  ◌≡◌, refl, sym, subst, String, Bool, true, false, Option, none, some, List, [], ◌∷◌,
  if◌then◌else◌,
}
use advanced_programmin.Sdb.Types.{Program}
use advanced_programmin.Sdb.Exec.{
  Out, World, Stop, Outcome, done, stopped, Exec, pure, stop, get_program, get_kernel, call,
  errquit, set_program, act, attempted, attempt, say, say_all, continue, case_option, ◌>>=◌,
}

-- The world that an action leaves.
abbrev pub after : {K A : Type 0} → Outcome K A → World K
after (done a w) = w
after (stopped s w) = w

pub record Maintains {K A : Type 0} (P : Program → Type 0) (m : Exec K A) : Type 0 where
  pub at : (w : World K) → P w.program → P (after (m w)).program

module _ {K A : Type 0} {P : Program → Type 0} where
  pub Maintains-pure : (a : A) → Maintains {K = K} P (pure a)
  unfolding ◌>>=◌
  Maintains-pure a = record { at = λ w h. h }

  pub Maintains-stop : (s : Stop) → Maintains {K = K} {A = A} P (stop s)
  unfolding ◌>>=◌
  Maintains-stop s = record { at = λ w h. h }

  pub Maintains-get_kernel : (f : K → A) → Maintains P (get_kernel f)
  unfolding ◌>>=◌
  Maintains-get_kernel f = record { at = λ w h. h }

  pub Maintains-call : (f : K → A × K) → Maintains P (call f)
  unfolding ◌>>=◌
  Maintains-call f = record { at = λ w h. h }

  pub Maintains-errquit : (s : String) → Maintains {K = K} {A = A} P (errquit s)
  unfolding ◌>>=◌
  Maintains-errquit s = record { at = λ w h. h }

  -- Each branch may use what the test says.
  pub Maintains-if :
      {yes no : Exec K A} (test : Bool)
      → (test ≡ false → Maintains P no)
      → (test ≡ true → Maintains P yes)
      → Maintains P (if test then yes else no)
  Maintains-if false other one = other refl
  Maintains-if true other one = one refl

program-attempted :
    {K : Type 0} (w : World K) (o : Option K) → (after (attempted w o)).program ≡ w.program
program-attempted w none = refl
program-attempted w (some k) = refl

module _ {K : Type 0} {P : Program → Type 0} where
  pub Maintains-act : (f : K → K) → Maintains P (act f)
  unfolding ◌>>=◌
  Maintains-act f = record { at = λ w h. h }

  pub Maintains-attempt : (f : K → Option K) → Maintains P (attempt f)
  unfolding ◌>>=◌
  Maintains-attempt f = record { at = λ w h. subst P (sym (program-attempted w (f w.kernel))) h }

  pub Maintains-say : (o : Out) → Maintains {K = K} P (say o)
  unfolding ◌>>=◌
  Maintains-say o = record { at = λ w h. h }

  pub Maintains-say_all : (os : List Out) → Maintains {K = K} P (say_all os)
  unfolding ◌>>=◌
  Maintains-say_all [] = record { at = λ w h. h }
  Maintains-say_all (o ∷ os) = record { at = λ w h. (Maintains-say_all os).at _ h }

  pub Maintains-set_program :
      (f : Program → Program)
      → ((p : Program) → P p → P (f p))
      → Maintains {K = K} P (set_program f)
  unfolding ◌>>=◌
  Maintains-set_program f kf = record { at = λ w h. kf w.program h }

module _ {K A B : Type 0} {P : Program → Type 0} where
  pub Maintains-continue :
      (r : Outcome K A) (f : A → Exec K B)
      → ((a : A) → Maintains P (f a))
      → P (after r).program
      → P (after (continue r f)).program
  Maintains-continue (done a w) f kf h = (kf a).at w h
  Maintains-continue (stopped s w) f kf h = h

  pub Maintains-case_option :
      (o : Option A) (m : Exec K B) (f : A → Exec K B)
      → Maintains P m
      → ((a : A) → Maintains P (f a))
      → Maintains P (case_option o m f)
  unfolding ◌>>=◌
  Maintains-case_option none m f km kf = km
  Maintains-case_option (some a) m f km kf = kf a

  pub Maintains-bind :
      (go : A → Exec K B) {first : Exec K A}
      → ((a : A) → Maintains P (go a))
      → Maintains P first
      → Maintains P (first >>= go)
  unfolding ◌>>=◌
  Maintains-bind go {first} later now = record {
    at = λ w h. Maintains-continue (first w) go later (now.at w h);
  }

  pub Maintains-bind-get_program :
      (g : Program → A) (f : A → Exec K B)
      → ((a : A) → Maintains P (f a))
      → Maintains P (get_program g >>= f)
  unfolding ◌>>=◌
  Maintains-bind-get_program g f kf = record { at = λ w h. (kf (g w.program)).at w h }

pub ruleset maintains_rules = (
  Maintains-pure, Maintains-stop, Maintains-get_kernel, Maintains-call, Maintains-errquit,
  Maintains-if, Maintains-act, Maintains-attempt, Maintains-say, Maintains-say_all,
  Maintains-bind-get_program, Maintains-bind, Maintains-case_option,
)
