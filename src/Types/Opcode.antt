-- ===== src/Types/Opcode.antt =====
-- core/types/src/opcode.rs and macros.rs: the table of opcodes.
use rust_eth_playground.Prelude.{ℕ, ◌==◌, if◌then◌else◌, Result, ok, err, ◌≡◌, refl, arith}

pub data Opcode : Type 0 where
  stop : Opcode
  add : Opcode
  mul : Opcode
  sub : Opcode
  sload : Opcode
  sstore : Opcode
  push1 : Opcode
  call : Opcode
  return : Opcode

pub data OpcodeError : Type 0 where
  unknown_opcode : ℕ → OpcodeError

unfoldable pub byte : Opcode → ℕ
byte stop = 0x00
byte add = 0x01
byte mul = 0x02
byte sub = 0x03
byte sload = 0x54
byte sstore = 0x55
byte push1 = 0x60
byte call = 0xf1
byte return = 0xf3

unfoldable pub from_byte : ℕ → Result OpcodeError Opcode
from_byte b =
    if b == 0x00
    then ok stop
    else if b == 0x01
    then ok add
    else if b == 0x02
    then ok mul
    else if b == 0x03
    then ok sub
    else if b == 0x54
    then ok sload
    else if b == 0x55
    then ok sstore
    else if b == 0x60
    then ok push1
    else if b == 0xf1
    then ok call
    else if b == 0xf3
    then ok return
    else err (unknown_opcode b)

-- An opcode is read back from its byte.
pub from_byte-byte : (o : Opcode) → from_byte (byte o) ≡ ok o
unfolding from_byte byte
from_byte-byte stop = refl
from_byte-byte add = refl
from_byte-byte mul = refl
from_byte-byte sub = refl
from_byte-byte sload = refl
from_byte-byte sstore = refl
from_byte-byte push1 = refl
from_byte-byte call = refl
from_byte-byte return = refl

-- A byte that is read as an opcode is the byte of that opcode.
pub byte-from_byte : (b : ℕ) (o : Opcode) → from_byte b ≡ ok o → byte o ≡ b
unfolding from_byte byte
byte-from_byte b o h = ground arith
