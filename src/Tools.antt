-- ===== src/Tools.antt =====
-- The thread-safe containers (include/tools). Each method holds the container's lock from its first
-- line to its last, so a container is a state that the methods change one after the other.
pub mod Queue
pub mod Deque
pub mod Map
pub mod PriorityQueue
pub mod Set
