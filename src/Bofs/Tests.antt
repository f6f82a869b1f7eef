-- ===== src/Bofs/Tests.antt =====
-- fs/bofs at a concrete volume.
use xbook.Prelude.{
  ◌*◌, ◌/◌, ◌≤◌, ℕ, ◌+◌, ◌-◌, ◌<◌, ◌≡◌, ◌≢◌, ◌⊎◌, refl, [], Bool, true, false, if◌then◌else◌, arith,
}
use xbook.Bitmap.{scan_test, set, scan, skip_full, skip_set}
use xbook.Bofs.{SuperBlock, Inode, Volume, done}
use xbook.Bofs.Layout.{make_super_block, make_super_block-IsMounted, make_super_block_overruns}
use xbook.Bofs.Sectors.{
  idx_to_lba, alloc_one_sector, alloc_bitmap, set_bits, sync_bitmap, sector_bits, words_at,
}
use xbook.Bofs.Inodes.{sync_inode, inode_word, load_inode_by_id}
use xbook.Bofs.Get.{slot_sector, word_sector, get_block_in_inderect2, get_inode_data}
use xbook.Bofs.Put.{put_block_by_block_index}
use xbook.Bofs.Places.{Place, slot, same, IsPlace, sector_at, IsTree, place_of}
use xbook.Bofs.Mounted.{IsMounted}
use xbook.Bofs.Trees.{empty-IsTree}
use xbook.Bofs.Found.{Promised, IsFound}
use xbook.Bofs.Blocks.{
  get_inode_data_lem, get_inode_data-IsFound, get_inode_data_apart, get_inode_data_done,
}
use xbook.Bofs.Table.{load_inode_by_id-sync_inode}
use xbook.Bofs.Freed.{put_block_dangles}
use xbook.Bofs.Direct.{put_block_direct}

-- 16 data sectors from 40 on, all free
abbrev sb : SuperBlock
sb = record {
  total_sectors = 64;
  super_block_lba = 1;
  sector_bitmap_lba = 2;
  sector_bitmap_sectors = 1;
  inode_bitmap_sectors = 1;
  inode_table_sectors = 2;
  max_inodes = 16;
  inode_bitmap_lba = 3;
  inode_table_lba = 4;
  data_start_lba = 40;
  inode_nr_in_sector = 8;
  block_size = 1024;
  sector_bitmap = record { bytes_len = 2; bits = 100 };
  inode_bitmap = record { bytes_len = 2; bits = 200 };
}

abbrev works : ℕ → Bool
works n = true

abbrev file : Inode
file = record {
  devno = 5;
  id = 9;
  mode = 19;
  links = 1;
  size = 100;
  crttime = 7;
  mdftime = 7;
  acstime = 8;
  flags = 0;
  blocks = λ (k : ℕ). 0;
  reserved = λ (k : ℕ). 0;
}

abbrev fresh : Volume
fresh = record {
  memory = λ (a : ℕ). 0;
  disk = λ (l : ℕ). λ (j : ℕ). 0;
  inode = file;
  forced = [];
  calls = 0;
}

fresh-IsMounted : IsMounted sb fresh
fresh-IsMounted = record {
  starts = omega arith;
  few = omega arith;
  fits = omega arith;
  bitmap_below = λ i lt. omega arith;
  inode_below = omega arith;
  are_bytes = λ a. omega arith;
}

fresh-IsTree : IsTree sb fresh
fresh-IsTree = empty-IsTree sb fresh (λ r. refl)

abbrev after_first : Volume
after_first = (get_inode_data sb works 268 fresh).1

first_block : get_inode_data sb works 268 fresh ≡ (done 42, after_first)
unfolding get_inode_data get_block_in_inderect2 slot_sector word_sector alloc_one_sector
    alloc_bitmap set_bits sync_bitmap sync_inode scan skip_full skip_set scan_test set inode_word
first_block = refl

abbrev after_second : Volume
after_second = (get_inode_data sb works 3 after_first).1

second_block : get_inode_data sb works 3 after_first ≡ (done 43, after_second)
unfolding get_inode_data get_block_in_inderect2 slot_sector word_sector alloc_one_sector
    alloc_bitmap set_bits sync_bitmap sync_inode scan skip_full skip_set scan_test set inode_word
second_block = refl

first-IsFound : IsFound sb fresh (place_of 268) 42 after_first
first-IsFound =
    get_inode_data-IsFound sb works fresh after_first 268 42 (omega arith) fresh-IsTree
      fresh-IsMounted first_block

after_second-IsFound : IsFound sb after_first (place_of 3) 43 after_second
after_second-IsFound =
    get_inode_data-IsFound sb works after_first after_second 3 43 (omega arith) first-IsFound.tree
      first-IsFound.mounted second_block

get_inode_data_lem_example :
    Promised sb works (get_inode_data sb works 268 fresh) (IsFound sb fresh (place_of 268))
get_inode_data_lem_example =
    get_inode_data_lem sb works fresh 268 (omega arith) fresh-IsTree fresh-IsMounted

get_inode_data_apart_example :
    (◌≢◌ {A = ℕ} 42 43)
    × (sector_at after_second (place_of 268) ≡ 42)
    × ((k : ℕ) → after_second.disk 42 k ≡ after_first.disk 42 k)
get_inode_data_apart_example =
    get_inode_data_apart sb works fresh after_first after_second 268 3 42 43 (omega arith)
      (omega arith) (omega arith) fresh-IsTree fresh-IsMounted first_block second_block

get_inode_data_done_example :
    ((x : ℕ) × ((get_inode_data sb works 268 fresh).0 ≡ done x))
    ⊎ ((i : ℕ)
        → i < 16
        → scan_test
            (get_inode_data sb works 268 fresh).1.memory
            (record { bytes_len = 2; bits = 100 })
            i
          ≡ true)
get_inode_data_done_example =
    get_inode_data_done sb works fresh 268 (omega arith) fresh-IsTree fresh-IsMounted (λ n. refl)

load_inode_by_id-sync_inode_example :
    (m : Inode) × ((load_inode_by_id sb works 9 (sync_inode sb works file fresh).1).0 ≡ done m)
    × (m.devno ≡ 5)
    × (m.id ≡ 9)
    × (m.mode ≡ 19)
    × (m.links ≡ 1)
    × (m.size ≡ 100)
    × (m.crttime ≡ 7)
    × (m.mdftime ≡ 7)
    × (m.acstime ≡ 8)
    × (m.flags ≡ 0)
    × ((k : ℕ) → k < 15 → m.blocks k ≡ 0)
    × ((k : ℕ) → k < 9 → m.reserved k ≡ 0)
load_inode_by_id-sync_inode_example =
    load_inode_by_id-sync_inode sb works fresh file (λ c. refl) (omega arith) (omega arith)
      (omega arith)

put_block_dangles_example :
    ((put_block_by_block_index sb works (268 + 0) after_first).0 ≡ done tt)
    × (scan_test
          (put_block_by_block_index sb works (268 + 0) after_first).1.memory
          (record { bytes_len = 2; bits = 100 })
          (sector_at after_first (place_of (268 + 0)) - 40)
        ≡ false)
    × (sector_at (put_block_by_block_index sb works (268 + 0) after_first).1 (place_of (268 + 0))
        ≡ sector_at after_first (place_of (268 + 0)))
put_block_dangles_example =
    put_block_dangles sb works after_first 0 (omega arith) first-IsFound.tree first-IsFound.mounted
      (λ n. refl) (omega (arith, first-IsFound.there)) (omega (arith, first-IsFound.there))

put_block_direct_example :
    IsTree sb (put_block_by_block_index sb works 3 after_second).1
    × IsMounted sb (put_block_by_block_index sb works 3 after_second).1
    × (scan_test
          (put_block_by_block_index sb works 3 after_second).1.memory
          (record { bytes_len = 2; bits = 100 })
          (after_second.inode.blocks 3 - 40)
        ≡ false)
    × ((q : Place)
        → IsPlace q
        → sector_at (put_block_by_block_index sb works 3 after_second).1 q
          ≡ (if same (slot 3) q then 0 else sector_at after_second q))
unfolding place_of sector_at
put_block_direct_example =
    put_block_direct sb works after_second 3 (omega arith) after_second-IsFound.tree
      after_second-IsFound.mounted (omega (arith, after_second-IsFound.there))
      (omega (arith, after_second-IsFound.there))

make_super_block-IsMounted_example : IsMounted (make_super_block 1 5000 1024 9182) fresh
make_super_block-IsMounted_example =
    make_super_block-IsMounted 1 5000 9182 fresh (omega arith) (omega arith) (omega arith)
      (omega arith) (omega arith) (λ a. omega arith)

make_super_block_overruns_example :
    let layout = make_super_block 1 5000 1024 9182 in
    let v' = (sync_bitmap layout works sector_bits 4999 fresh).1 in
    ((l j : ℕ) → 3 ≤ l → l < 3 + 1 → v'.disk l j ≡ fresh.disk l j)
    × ((l : ℕ) × (3 + 1 ≤ l)
        × ((j : ℕ) → v'.disk l j ≡ words_at fresh.memory (0 + 4999 / 4096 * 512) j))
    × (5001 ≤ idx_to_lba layout 4999)
unfolding make_super_block
make_super_block_overruns_example =
    make_super_block_overruns 1 5000 9182 works fresh (omega arith) (omega arith) (omega arith)
      (omega arith) refl
