-- ===== src/Align/Tests.antt =====
-- Runs of the alignment helpers, and the theorems at concrete inputs.
use libpussy.Base.{◌≡◌, refl, ◌-◌, ◌^◌}
use libpussy.Align.{align_unsigned, align_pointer}

rounds_up : align_unsigned 4097 4096 ≡ 8192
unfolding align_unsigned
rounds_up = refl

wraps_to_zero : align_unsigned (2 ^ 32 - 1) 4096 ≡ 0
unfolding align_unsigned
wraps_to_zero = refl

aligns_address : align_pointer 0x7fff_0001 16 ≡ 0x7fff_0010
unfolding align_pointer
aligns_address = refl
