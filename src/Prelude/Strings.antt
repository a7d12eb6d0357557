-- ===== src/Prelude/Strings.antt =====
-- Texts, character by character.
use Prim.Native.Nat.{ℕ, suc}
use Prim.Native.String.{String}

abbrev pub append : String → String → String
append String.[] t = t
append (String.◌∷◌ c s) t = String.◌∷◌ c (append s t)

abbrev pub chars : String → ℕ
chars String.[] = 0
chars (String.◌∷◌ c s) = suc (chars s)
