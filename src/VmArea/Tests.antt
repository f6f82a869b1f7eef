-- ===== src/VmArea/Tests.antt =====
-- mm/vmarea.c with one area in use and two free.
use xbook.Prelude.{ℕ, ◌≡◌, refl, Bool, false, [], ◌∷◌, ltb}
use xbook.VmArea.{VmArea, Areas, vfree}
use xbook.VmArea.Freeing.{KeepsAreas, vfree_lem}

abbrev three_areas : Areas
three_areas = record {
  memory = λ (a : ℕ). 0;
  bitmap = record { bytes_len = 2; bits = 100 };
  base_address = 0x10_0000;
  using_list = record { addr = 0x10_0000; size = 0x3000 } ∷ [];
  free_list =
      record { addr = 0x10_3000; size = 0x2000 } ∷ record { addr = 0x10_5000; size = 0x4000 } ∷ [];
}

abbrev is_large : VmArea → Bool
is_large area = ltb 0x2000 area.size

vfree_lem_example :
    ((vfree 0x20_0000 0x10_0000 three_areas).0 ≡ false)
    × KeepsAreas is_large three_areas (vfree 0x20_0000 0x10_0000 three_areas).1
vfree_lem_example = vfree_lem is_large 0x20_0000 0x10_0000 three_areas refl
