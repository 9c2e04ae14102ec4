-- ===== src/Modbus/Wire.antt =====
-- The wire format of Modbus registers, as an independent description: two bytes each, the high one
-- first; and what the byte order functions of a little-endian host do.
use railab_nuttx_code.Prelude.{
  ℕ, ◌+◌, ◌*◌, ◌/◌, ◌%◌, ◌^◌, ◌<◌, ◌≡◌, refl, List, [], ◌∷◌, length, ap₂, arith, All,
}

abbrev pub wire : List ℕ → List ℕ
wire [] = []
wire (w ∷ ws) = w / 256 ∷ w % 256 ∷ wire ws

-- The registers that a sequence of bytes stands for; an odd byte at the end stands for none.
abbrev pub unwire : List ℕ → List ℕ
unwire (hi ∷ lo ∷ bytes) = (hi * 256 + lo) ∷ unwire bytes
unwire _ = []

abbrev pub AreWords : List ℕ → Type 0
AreWords = All (λ w. w < 2 ^ 16)

abbrev pub AreBytes : List ℕ → Type 0
AreBytes = All (λ b. b < 2 ^ 8)

-- `htobe16` and `be16toh` on a little-endian host.
abbrev pub SwapsBytes : (ℕ → ℕ) → Type 0
SwapsBytes f = (x : ℕ) → x < 2 ^ 16 → f x ≡ x % 256 * 256 + x / 256

pub unwire-wire : (ws : List ℕ) → unwire (wire ws) ≡ ws
unwire-wire [] = refl
unwire-wire (w ∷ ws) = ap₂ ◌∷◌ (omega arith) (unwire-wire ws)

pub length-wire : (ws : List ℕ) → length (wire ws) ≡ 2 * length ws
length-wire [] = refl
length-wire (w ∷ ws) = omega (arith, length-wire ws)

pub wire-AreBytes : (ws : List ℕ) → AreWords ws → AreBytes (wire ws)
wire-AreBytes [] h = tt
wire-AreBytes (w ∷ ws) h = (omega arith, (omega arith, wire-AreBytes ws h.1))
