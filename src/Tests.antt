-- ===== src/Tests.antt =====
-- The theorems at concrete inputs, on a file system in memory.
mod Disk
mod Linker
mod Parts
mod Open
mod Threads
mod Files
mod Untrusted
