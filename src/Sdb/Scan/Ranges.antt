-- ===== src/Sdb/Scan/Ranges.antt =====
-- The range of what `stoul` returns.
use advanced_programmin.Prelude.{
  ℕ, ◌^◌, ◌<◌, ◌≡◌, arith, String, Bool, true, false, Option, none, some,
}
use advanced_programmin.Sdb.Scan.{value, to_unsigned, signed, skip_spaces, stoul16}

to_unsigned-lt : (o : Option (Bool × ℕ)) (n : ℕ) → to_unsigned o ≡ value n → n < 2 ^ 64
to_unsigned-lt none n e = cc
to_unsigned-lt (some (true, m)) n e = ground arith
to_unsigned-lt (some (false, m)) n e = ground arith

pub stoul16-lt : (s : String) (n : ℕ) → stoul16 s ≡ value n → n < 2 ^ 64
unfolding stoul16
stoul16-lt s n e = to_unsigned-lt (signed 16 (skip_spaces s)) n e
