-- ===== src/PetAllocator.antt =====
-- src/allocator_pet.c: the allocator that keeps small blocks in pages with a bitmap.
pub mod Bitmap
pub mod Search
pub mod Cleanse
pub mod Sizes
pub mod State
pub mod Blocks
pub mod Interface
mod Tests
