-- ===== src/Bits.antt =====
-- Binary digits of native numbers: what the machine words of the program are made of.
mod Step
mod Digit
mod Mask
pub use Step.{bit_and-halves, bit_or-halves, bit_xor-halves}
pub use Digit.*
pub use Mask.*
