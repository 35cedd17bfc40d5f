-- ===== src/Libc.antt =====
-- a3/src/lib/libc: the string and memory functions that the kernel and the programs share.
-- A pointer into a buffer is the list of the bytes from there on, and a read or a write past the end
-- of the buffer is a fault, `panic`. A `char` is its code, below 256; it is signed, so
-- `strcmp` takes the codes from 128 on for negative numbers.
pub mod Str
pub mod Compare
pub mod Search
mod Tests
