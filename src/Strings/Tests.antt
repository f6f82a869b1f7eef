-- ===== src/Strings/Tests.antt =====
-- share/string.c at small blocks.
use xbook.Prelude.{◌≡◌, refl}
use xbook.Memory.{Memory}
use xbook.Strings.{memset, memcpy, memmove, copy_down}

-- Every address holds its own number.
abbrev numbered : Memory
numbered a = a

memset_run : memset numbered 100 7 4 103 ≡ 7
unfolding memset
memset_run = refl

memmove_run : memmove numbered 102 100 4 105 ≡ 103
unfolding memmove memcpy copy_down
memmove_run = refl
