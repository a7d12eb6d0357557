-- ===== src/Sdb/Registers/SetGet.antt =====
-- HW4/ins.cpp: get after set.
use advanced_programmin.Prelude.{
  inl, inr, subst, Bool-cases, ℕ, ◌≡◌, ◌∙◌, refl, sym, ap, Bool, if◌then◌else◌, true, false, String,
  Option, none, some, [], ◌∷◌, str_eq,
}
use mathlib.Core.Option.{some-injective}
use text.Mathlib.TextEquality.{eq_iff}
use advanced_programmin.Sdb.Types.{Regs, running}
use advanced_programmin.Sdb.Os.{Os, Ptrace}
use advanced_programmin.Sdb.Exec.{World, done, reg_line, ◌>>=◌, ◌>>◌}
use advanced_programmin.Sdb.Scan.{sscanf_0x}
use advanced_programmin.Sdb.Breakpoints.{success}
use advanced_programmin.Sdb.Registers.{
  get_reg, set_reg, print_reg, insget, scan_addr, put_regs, write_reg, insset,
}

-- One name of the two conditionals.
pick :
    (b : Bool) (x : Regs) (field : Regs → ℕ) (rest : Option Regs) (shown : Option ℕ) (v : ℕ)
    (r' : Regs)
    → field x ≡ v
    → (rest ≡ some r' → shown ≡ some v)
    → (if b then some x else rest) ≡ some r'
    → (if b then some (field r') else shown) ≡ some v
pick true x field rest shown v r' q h e = ap some (ap field (sym (some-injective _ _ e)) ∙ q)
pick false x field rest shown v r' q h e = h e

get_reg-set_reg :
    (name : String) (v : ℕ) (r r' : Regs) → set_reg name v r ≡ some r' → get_reg name r' ≡ some v
unfolding get_reg set_reg
get_reg-set_reg name v r r' =
    (pick (str_eq name "rax") (record r { rax = v }) (λ r. r.rax) _ _ v r' refl
      (pick (str_eq name "rbx") (record r { rbx = v }) (λ r. r.rbx) _ _ v r' refl
        (pick (str_eq name "rcx") (record r { rcx = v }) (λ r. r.rcx) _ _ v r' refl
          (pick (str_eq name "rdx") (record r { rdx = v }) (λ r. r.rdx) _ _ v r' refl
            (pick (str_eq name "r8") (record r { r8 = v }) (λ r. r.r8) _ _ v r' refl
              (pick (str_eq name "r9") (record r { r9 = v }) (λ r. r.r9) _ _ v r' refl
                (pick (str_eq name "r10") (record r { r10 = v }) (λ r. r.r10) _ _ v r' refl
                  (pick (str_eq name "r11") (record r { r11 = v }) (λ r. r.r11) _ _ v r' refl
                    (pick (str_eq name "r12") (record r { r12 = v }) (λ r. r.r12) _ _ v r' refl
                      (pick (str_eq name "r13") (record r { r13 = v }) (λ r. r.r13) _ _ v r' refl
                        (pick (str_eq name "r14") (record r { r14 = v }) (λ r. r.r14) _ _ v r' refl
                          (pick (str_eq name "r15") (record r { r15 = v }) (λ r. r.r15) _ _ v r'
                            refl
                            (pick (str_eq name "rdi") (record r { rdi = v }) (λ r. r.rdi) _ _ v r'
                              refl
                              (pick (str_eq name "rsi") (record r { rsi = v }) (λ r. r.rsi) _ _ v r'
                                refl
                                (pick (str_eq name "rbp") (record r { rbp = v }) (λ r. r.rbp) _ _ v
                                  r' refl
                                  (pick (str_eq name "rsp") (record r { rsp = v }) (λ r. r.rsp) _ _
                                    v r' refl
                                    (pick (str_eq name "rip") (record r { rip = v }) (λ r. r.rip) _
                                      _ v r' refl
                                      (pick (str_eq name "flags") (record r { eflags = v })
                                        (λ r. r.eflags) none none v r' refl
                                        (λ e. cc)))))))))))))))))))

-- A name that is not the one that is set is not the key of the branch that is taken.
apart :
    (other name key : String)
    → str_eq other name ≡ false
    → str_eq name key ≡ true
    → str_eq other key ≡ false
apart other name key ne h = subst (λ t. str_eq other t ≡ false) ((eq_iff name key).0 h) ne

pick_other :
    (Kept : Regs → Type 0) (other name : String) (r' : Regs)
    → str_eq other name ≡ false
    → (key : String) (x : Regs) (rest : Option Regs) → (str_eq other key ≡ false → Kept x)
    → (rest ≡ some r' → Kept r')
    → (if str_eq name key then some x else rest) ≡ some r'
    → Kept r'
pick_other Kept other name r' ne key x rest here later e = elim (Bool-cases (str_eq name key)) [
  | inl t ↦
      let same : some x ≡ some r' = subst (λ b. (if b then some x else rest) ≡ some r') t e in
      subst Kept (some-injective _ _ same) (here (apart other name key ne t))
  | inr n ↦ later (subst (λ b. (if b then some x else rest) ≡ some r') n e)
]

get_reg-kept :
    (other name : String) (v : ℕ) (r r' : Regs)
    → str_eq other name ≡ false
    → set_reg name v r ≡ some r'
    → get_reg other r' ≡ get_reg other r
unfolding get_reg set_reg
get_reg-kept other name v r r' ne =
    let one = pick_other (λ x. get_reg other x ≡ get_reg other r) other name r' ne in
    one "rax" (record r { rax = v }) _ (λ e. rw e refl)
      (one "rbx" (record r { rbx = v }) _ (λ e. rw e refl)
        (one "rcx" (record r { rcx = v }) _ (λ e. rw e refl)
          (one "rdx" (record r { rdx = v }) _ (λ e. rw e refl)
            (one "r8" (record r { r8 = v }) _ (λ e. rw e refl)
              (one "r9" (record r { r9 = v }) _ (λ e. rw e refl)
                (one "r10" (record r { r10 = v }) _ (λ e. rw e refl)
                  (one "r11" (record r { r11 = v }) _ (λ e. rw e refl)
                    (one "r12" (record r { r12 = v }) _ (λ e. rw e refl)
                      (one "r13" (record r { r13 = v }) _ (λ e. rw e refl)
                        (one "r14" (record r { r14 = v }) _ (λ e. rw e refl)
                          (one "r15" (record r { r15 = v }) _ (λ e. rw e refl)
                            (one "rdi" (record r { rdi = v }) _ (λ e. rw e refl)
                              (one "rsi" (record r { rsi = v }) _ (λ e. rw e refl)
                                (one "rbp" (record r { rbp = v }) _ (λ e. rw e refl)
                                  (one "rsp" (record r { rsp = v }) _ (λ e. rw e refl)
                                    (one "rip" (record r { rip = v }) _ (λ e. rw e refl)
                                      (one "flags" (record r { eflags = v }) _ (λ e. rw e refl)
                                        (λ e. cc))))))))))))))))))

-- a register that is set, and every other
get_reg_lem :
    (other name : String) (v : ℕ) (r r' : Regs)
    → set_reg name v r ≡ some r'
    → get_reg other r' ≡ (if str_eq other name then some v else get_reg other r)
get_reg_lem other name v r r' set = elim (Bool-cases (str_eq other name)) [
  | inl t ↦
      rw t (ap (λ n. get_reg n r') ((eq_iff other name).0 t) ∙ get_reg-set_reg name v r r' set)
  | inr n ↦ rw n (get_reg-kept other name v r r' n set)
]

-- In a running process whose registers can be read and written, where the kernel writes the new
-- registers as they are (it need not: it masks bits of the flags), set of a named register to a text
-- that scans, and then get of it, prints that number under the name; the process and the debugger's
-- copy have the new registers, which are the old ones but for the one of that name, and nothing else
-- has changed.
pub insget-insset :
    (os : Os) (pt : Ptrace os) (name text : String) (v : ℕ) (r r' : Regs) (w : World os.Kernel)
    (k : os.Kernel)
    → w.program.state ≡ running
    → os.getregs w.program.pid w.kernel ≡ some r
    → sscanf_0x text ≡ some v
    → set_reg name v r ≡ some r'
    → pt.Taken w.program.pid w.kernel r'
    → os.setregs w.program.pid r' w.kernel ≡ some k
    → ((insset os (name ∷ text ∷ []) >> insget os (name ∷ [])) w
        ≡ done success (record w {
          program = record w.program { regs = r' };
          kernel = k;
          out = reg_line name v ∷ w.out;
        }))
      × ((other : String)
          → get_reg other r' ≡ (if str_eq other name then some v else get_reg other r))
unfolding insset write_reg scan_addr put_regs insget print_reg ◌>>=◌
insget-insset os pt name text v r r' w k run regs scan set taken sets = (
  rw run (
      rw regs (
        rw scan (
          rw set (
            rw sets (
              rw (pt.setregs_regs w.program.pid r' w.kernel k taken sets)
                (rw (get_reg-set_reg name v r r' set) refl)))))),
  λ other. get_reg_lem other name v r r' set,
)
