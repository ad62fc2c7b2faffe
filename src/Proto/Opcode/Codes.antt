-- ===== src/Proto/Opcode/Codes.antt =====
-- The two conversions of crates/lockframe-proto/src/opcodes.rs are inverse to each other.
use lockframe.Common.{ℕ, ◌<◌, ◌^◌, ◌≡◌, refl, some, arith}
use lockframe.Proto.Opcode.{Opcode, to_u16, from_u16}

pub to_u16-lt : (o : Opcode) → to_u16 o < 2 ^ 16
unfolding to_u16
to_u16-lt Opcode.hello = omega arith
to_u16-lt _ = omega arith

-- The code of an opcode reads back as that opcode.
pub from_u16-to_u16 : (o : Opcode) → from_u16 (to_u16 o) ≡ some o
unfolding to_u16 from_u16
from_u16-to_u16 Opcode.hello = refl
from_u16-to_u16 _ = refl

-- A number is read as an opcode only if it is the code of that opcode.
to_u16_of_from_u16 : (v : ℕ) (o : Opcode) → from_u16 v ≡ some o → to_u16 o ≡ v
unfolding to_u16 from_u16
to_u16_of_from_u16 v o h = ground arith
