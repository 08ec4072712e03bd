-- ===== src/Paging.antt =====
-- Virtual memory: kernel/src/paging.cpp, PageTree.cpp and PageTreeNode.cpp, with their headers.
pub mod Address
pub mod PageTreeNode
pub mod PageTree
pub mod Mapping
pub mod Init
pub mod Allocate
pub mod FreeRegions
