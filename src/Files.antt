-- ===== src/Files.antt =====
-- deps/common/utilities/file_utils.cpp: reading, writing and replacing files. What the kernel
-- answers to each system call is an argument; a function returns the calls that it made with its
-- result. A loop that has used up its answers is still running.
pub mod Loops
pub mod Names
pub mod Replace
pub mod Laws
pub mod Cleanup
pub mod Tests
