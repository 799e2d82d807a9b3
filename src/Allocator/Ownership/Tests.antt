-- ===== src/Allocator/Ownership/Tests.antt =====
-- The debug allocator and the one of the standard library over a `malloc` that never runs out.
use libpussy.Allocator.Ownership.{Owns}
use libpussy.Allocator.Ownership.Bump.{bump_malloc, bump_malloc-IsMalloc}
use libpussy.Allocator.Ownership.Debug.{Holds, debug_allocator-Owns}
use libpussy.Allocator.Ownership.Stdlib.{stdlib_allocator-Owns}
use libpussy.Allocator.Ownership.Stdlib
use libpussy.DebugAllocator.{debug_allocator}
use libpussy.StdlibAllocator.{stdlib_allocator}

debug_allocator-Owns_example : Owns Holds (debug_allocator bump_malloc)
debug_allocator-Owns_example = debug_allocator-Owns bump_malloc bump_malloc-IsMalloc

stdlib_allocator-Owns_example : Owns Stdlib.Holds (stdlib_allocator bump_malloc)
stdlib_allocator-Owns_example = stdlib_allocator-Owns bump_malloc bump_malloc-IsMalloc
