-- ===== src/Base/Texts.antt =====
-- The length of a text.
use Prim.Native.Nat.{ℕ, suc}
use Prim.Native.String.{String}

-- `text.length`, for a text of ASCII characters.
abbrev pub text_length : String → ℕ
text_length String.[] = 0
text_length (String.◌∷◌ c s) = suc (text_length s)
