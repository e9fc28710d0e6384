-- ===== src/Examples/Types.antt =====
-- The theorem on hexadecimal text at an array of two bytes.
use rust_eth_playground.Prelude.{◌≡◌, [], ◌∷◌, false, ok, arith}
use rust_eth_playground.Types.Hex.{from_str, display, lower_hex, upper_hex, from_str-display}

from_str-display_example :
    (from_str 2 (display (0xab ∷ 0x07 ∷ [])) ≡ ok (0xab ∷ 0x07 ∷ []))
    × (from_str 2 (lower_hex false (0xab ∷ 0x07 ∷ [])) ≡ ok (0xab ∷ 0x07 ∷ []))
    × (from_str 2 (upper_hex false (0xab ∷ 0x07 ∷ [])) ≡ ok (0xab ∷ 0x07 ∷ []))
from_str-display_example = from_str-display 2 (0xab ∷ 0x07 ∷ []) false (omega arith)
