-- ===== src/Compressed.antt =====
-- src/Core/ProcessorCDecompressor.cpp: `Processor::decompress`, a 16-bit instruction as the 32-bit one
-- that it stands for; 0xffffffff is the illegal instruction. One child for each quadrant.
mod Fields
pub mod Quadrant0
pub mod Quadrant1
pub mod Quadrant2
pub mod Width
pub mod Forms
pub mod Expand
use rv64i_simulator.Base.{ℕ, ◌==◌, if◌then◌else◌, bit_and}
use Quadrant0.{quadrant0}
use Quadrant1.{quadrant1}
use Quadrant2.{quadrant2}

unfoldable pub decompress : ℕ → ℕ
decompress c =
    let op = bit_and c 0x3 in
    if op == 0
    then quadrant0 c
    else if op == 1
    then quadrant1 c
    else if op == 2
    then quadrant2 c
    else 0xffff_ffff
