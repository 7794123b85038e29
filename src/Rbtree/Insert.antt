-- ===== src/Rbtree/Insert.antt =====
-- rbtree_insert: the new entry gets its place in the order, and the tree stays red-black.
pub mod Attach
pub mod Sorted
pub mod Valid
pub mod Room
