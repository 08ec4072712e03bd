-- ===== src/Kpp.antt =====
-- The kernel's library, kernel/lib/kpp.
pub mod CircularQueue
pub mod NonOwningStack
pub mod Optional
pub mod UniquePtr
pub mod Function
pub mod CString
pub mod Printf
