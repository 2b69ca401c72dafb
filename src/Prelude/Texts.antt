-- ===== src/Prelude/Texts.antt =====
-- Digits of texts.
use Prim.Native.Nat.{ℕ, zero, suc}
use Prim.Native.Char.{Char}
use Prim.Native.String.{String}

-- s[i], and some character past the end, where no caller looks
unfoldable pub nth_char : ℕ → String → Char
nth_char i String.[] = "0"
nth_char zero (String.◌∷◌ c s) = c
nth_char (suc i) (String.◌∷◌ c s) = nth_char i s
