-- ===== src/Service.antt =====
-- include/rtservice.h: the intrusive doubly and singly linked lists of the kernel.
pub mod Node
pub mod Links
pub mod Pointers
pub mod Seg
pub mod Ring
pub mod Chain
pub mod Slist
