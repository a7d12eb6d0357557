-- ===== src/Logger/Excerpts.antt =====
-- HW2/logger.c: the part of a buffer that a line shows.
use advanced_programmin.Prelude.{ℕ, ◌≡◌, ◌⊎◌, true, List, All, ltb, if◌then◌else◌}
use advanced_programmin.Logger.{Libc}

-- `if (str_size > 32) str_size = 32`
abbrev pub cap : ℕ → ℕ
cap n = if ltb 32 n then 32 else n

module _ (c : Libc) where
  -- Every byte is printable, or a period.
  abbrev pub Shown : List ℕ → Type 0
  Shown str = All (λ b. (c.isprint b ≡ true) ⊎ (b ≡ 46)) str
