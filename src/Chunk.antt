-- ===== src/Chunk.antt =====
-- lua/ldump.c and lua/lundump.c: prototypes written as precompiled chunks and read back. The sizes are
-- those of an LP64 machine: 4 bytes for an int, 8 for a size_t, an Instruction and a lua_Number.
pub mod Memory
pub mod Dump
pub mod Load
pub mod Undump
pub mod Yields
pub mod Words
pub mod Dumpable
pub mod Parts
pub mod RoundTrip
pub mod Whole
pub mod Checked
pub mod Limits
mod Tests
