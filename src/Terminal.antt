-- ===== src/Terminal.antt =====
-- The terminal of kernel/src/Terminal.cpp and kernel/include/kernel/Terminal.hpp: the buffer of lines,
-- the painting into the framebuffer, and the operations that use both.
pub mod LineBuffer
pub mod Framebuffer
pub mod Paint
