-- ===== src/Sdb/Invariant/Writes.antt =====
-- The invariant and the writes of single variables.
use advanced_programmin.Prelude.{ℕ, Bool, String}
use advanced_programmin.Sdb.Types.{Argv, loaded, running, Regs, Program}
use advanced_programmin.Sdb.Exec.{set_program}
use advanced_programmin.Sdb.Exec.Maintains.{Maintains, Maintains-set_program}
use advanced_programmin.Sdb.Invariant.{WellFormed}

pub regs-WellFormed : (p : Program) (r : Regs) → WellFormed p → WellFormed (record p { regs = r })
regs-WellFormed p r h = record {
  distinct = h.distinct;
  in_range = h.in_range;
  text_size = h.text_size;
  unloaded = h.unloaded;
}

-- The writes of variables that the invariant does not read, and of a state in which a program is
-- loaded.
module _ {K : Type 0} where
  pub pid-WellFormed :
      (n : ℕ) → Maintains {K = K} WellFormed (set_program (λ p. record p { pid = n }))
  pid-WellFormed n = Maintains-set_program _ (λ p h. record {
    distinct = h.distinct;
    in_range = h.in_range;
    text_size = h.text_size;
    unloaded = h.unloaded;
  })

  pub base-WellFormed :
      (n : ℕ) → Maintains {K = K} WellFormed (set_program (λ p. record p { base_address = n }))
  base-WellFormed n = Maintains-set_program _ (λ p h. record {
    distinct = h.distinct;
    in_range = h.in_range;
    text_size = h.text_size;
    unloaded = h.unloaded;
  })

  pub dynamic-WellFormed :
      (n : Bool) → Maintains {K = K} WellFormed (set_program (λ p. record p { dynamic = n }))
  dynamic-WellFormed n = Maintains-set_program _ (λ p h. record {
    distinct = h.distinct;
    in_range = h.in_range;
    text_size = h.text_size;
    unloaded = h.unloaded;
  })

  pub running-WellFormed :
      Maintains {K = K} WellFormed (set_program (λ p. record p { state = running }))
  running-WellFormed = Maintains-set_program _ (λ p h. record {
    distinct = h.distinct;
    in_range = h.in_range;
    text_size = h.text_size;
    unloaded = λ e. cc;
  })

  pub loaded-WellFormed :
      Maintains {K = K} WellFormed (set_program (λ p. record p { state = loaded }))
  loaded-WellFormed = Maintains-set_program _ (λ p h. record {
    distinct = h.distinct;
    in_range = h.in_range;
    text_size = h.text_size;
    unloaded = λ e. cc;
  })

  pub path-WellFormed :
      (s : String) (a : Argv)
      → Maintains {K = K} WellFormed (set_program (λ p. record p { path = s; argv = a }))
  path-WellFormed s a = Maintains-set_program _ (λ p h. record {
    distinct = h.distinct;
    in_range = h.in_range;
    text_size = h.text_size;
    unloaded = h.unloaded;
  })
