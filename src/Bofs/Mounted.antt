-- ===== src/Bofs/Mounted.antt =====
-- fs/bofs/inode.c and fs/bofs/bitmap.c: where the parts of a mounted volume lie, and what
-- allocating and syncing leave as it was.
use xbook.Prelude.{
  ℕ, ◌+◌, ◌-◌, ◌*◌, ◌/◌, ◌%◌, ◌^◌, ◌≤◌, ◌<◌, ◌≡◌, ◌⊎◌, inl, inr, refl, Bool, true, false, ◌==◌,
  if◌then◌else◌, none, some, Bool-cases, Option-cases, arith,
}
use xbook.Memory.{Memory, AreBytes}
use xbook.Bitmap.{scan_test, scan, set}
use xbook.Bitmap.Change.{scan_test-set, set-AreBytes}
use xbook.Bitmap.Scan.{scan_sound, scan_complete}
use xbook.Bofs.{Block, SuperBlock, Volume, done, block_write}
use xbook.Bofs.Sectors.{
  Grant, none_left, uncleared, ready, sector_bits, alloc_one_sector, alloc_bitmap, set_bits,
  sync_bitmap, clear_sector, idx_to_lba,
}
use xbook.Bofs.Inodes.{sync_inode, table_lba}
use xbook.Bofs.Get.{sync}

-- The bitmap of the sectors and the inode's block of the table lie below the data sectors.
pub record IsMounted (sb : SuperBlock) (v : Volume) : Type 0 where
  pub starts : 0 < sb.data_start_lba
  pub few : sb.sector_bitmap.bytes_len * 8 < 2 ^ 31
  pub fits : sb.data_start_lba + sb.sector_bitmap.bytes_len * 8 ≤ 2 ^ 32
  pub bitmap_below :
      (i : ℕ)
      → i < sb.sector_bitmap.bytes_len * 8
      → (sb.sector_bitmap_lba + i / 4096) % 2 ^ 32 < sb.data_start_lba
  pub inode_below : table_lba sb v.inode.id < sb.data_start_lba
  pub are_bytes : AreBytes v.memory

-- Nothing that a file sees has changed.
pub record IsSame (sb : SuperBlock) (v v' : Volume) : Type 0 where
  pub memory : v'.memory ≡ v.memory
  pub inode : v'.inode ≡ v.inode
  pub disk : (l j : ℕ) → sb.data_start_lba ≤ l → v'.disk l j ≡ v.disk l j

pub IsSame-refl : (sb : SuperBlock) (v : Volume) → IsSame sb v v
IsSame-refl sb v = record { memory = refl; inode = refl; disk = λ l j high. refl }

block_write-IsSame :
    (sb : SuperBlock) (works : ℕ → Bool) (lba : ℕ) (b : Block) (v : Volume)
    → lba < sb.data_start_lba
    → IsSame sb v (block_write works lba b v).1
block_write-IsSame sb works lba b v low = record {
  memory = ground arith;
  inode = ground arith;
  disk = λ l j high. ground arith;
}

pub sync_lem :
    (sb : SuperBlock) (works : ℕ → Bool) (v : Volume)
    → IsMounted sb v
    → ((sync sb works v).0 ≡ done tt) × IsSame sb v (sync sb works v).1
unfolding sync_inode
sync_lem sb works v h = (
  ground arith,
  record { memory = ground arith; inode = ground arith; disk = λ l j high. ground arith },
)

pub sync_bitmap-IsSame :
    (sb : SuperBlock) (works : ℕ → Bool) (i : ℕ) (v : Volume)
    → (sb.sector_bitmap_lba + i / 4096) % 2 ^ 32 < sb.data_start_lba
    → IsSame sb v (sync_bitmap sb works sector_bits i v).1
unfolding sync_bitmap
sync_bitmap-IsSame sb works i v low = block_write-IsSame sb works _ _ v low

-- A sector given out was free and is now used and cleared; every other data sector is as before.
pub record IsGiven (sb : SuperBlock) (v : Volume) (x : ℕ) (v' : Volume) : Type 0 where
  pub above : sb.data_start_lba ≤ x
  pub below : x < sb.data_start_lba + sb.sector_bitmap.bytes_len * 8
  pub free : scan_test v.memory sb.sector_bitmap (x - sb.data_start_lba) ≡ false
  pub bits :
      (i : ℕ)
      → scan_test v'.memory sb.sector_bitmap i
        ≡ (if x - sb.data_start_lba == i then true else scan_test v.memory sb.sector_bitmap i)
  pub contents :
      (l j : ℕ) → sb.data_start_lba ≤ l → v'.disk l j ≡ (if x == l then 0 else v.disk l j)
  pub inode : v'.inode ≡ v.inode
  pub are_bytes : AreBytes v'.memory

-- Why an operation does not succeed: a call of `kmalloc`, `BlockRead` or `BlockWrite` fails, or
-- no sector is free.
unfoldable pub HasExcuse : SuperBlock → (ℕ → Bool) → Volume → Type 0
HasExcuse sb works v =
    ((n : ℕ) × (works n ≡ false))
    ⊎ ((i : ℕ) → i < sb.sector_bitmap.bytes_len * 8 → scan_test v.memory sb.sector_bitmap i ≡ true)

unfoldable pub Granted : SuperBlock → (ℕ → Bool) → Volume → Grant × Volume → Type 0
Granted sb works v (none_left, v') = HasExcuse sb works v'
Granted sb works v (uncleared x, v') = HasExcuse sb works v'
Granted sb works v (ready x, v') = IsGiven sb v x v'

clear_sector_lem :
    (sb : SuperBlock) (works : ℕ → Bool) (v w : Volume) (idx : ℕ)
    → IsMounted sb v
    → idx < sb.sector_bitmap.bytes_len * 8
    → scan_test v.memory sb.sector_bitmap idx ≡ false
    → w.memory ≡ set v.memory sb.sector_bitmap idx 1
    → w.inode ≡ v.inode
    → ((l j : ℕ) → sb.data_start_lba ≤ l → w.disk l j ≡ v.disk l j)
    → Granted sb works v (clear_sector works (idx_to_lba sb idx) w)
unfolding Granted HasExcuse
clear_sector_lem sb works v w idx h lt free memory inode disk = elim (Bool-cases (works w.calls)) [
  | inl ok ↦ elim (Bool-cases (works (w.calls + 1))) [
    | inl ok' ↦
        let e : idx_to_lba sb idx ≡ sb.data_start_lba + idx = omega (arith, h.fits) in
        rw (ok, ok', e)
          (record {
            above = omega arith;
            below = omega arith;
            free =
                let e' : sb.data_start_lba + idx - sb.data_start_lba ≡ idx = omega arith in
                rw e' free;
            bits = λ i. rw memory (rw scan_test-set (ground arith));
            contents = λ l j high. ground (arith, disk l j high);
            inode = inode;
            are_bytes = rw memory (set-AreBytes v.memory sb.sector_bitmap idx 1 h.are_bytes);
          })
    | inr bad ↦ rw (ok, bad) (inl (w.calls + 1, bad))
  ]
  | inr bad ↦ rw bad (inl (w.calls, bad))
]

alloc_bitmap_found :
    (sb : SuperBlock) (m : Memory) (idx : ℕ)
    → scan m sb.sector_bitmap 1 ≡ some idx
    → alloc_bitmap sb sector_bits 1 m ≡ (some idx, set m sb.sector_bitmap idx 1)
unfolding alloc_bitmap set_bits
alloc_bitmap_found sb m idx found = rw (alloc_bitmap, found) refl

alloc_bitmap_gone :
    (sb : SuperBlock) (m : Memory)
    → scan m sb.sector_bitmap 1 ≡ none
    → alloc_bitmap sb sector_bits 1 m ≡ (none, m)
unfolding alloc_bitmap
alloc_bitmap_gone sb m gone = rw (alloc_bitmap, gone) refl

pub alloc_one_sector_lem :
    (sb : SuperBlock) (works : ℕ → Bool) (v : Volume)
    → IsMounted sb v
    → Granted sb works v (alloc_one_sector sb works v)
unfolding alloc_one_sector Granted HasExcuse
alloc_one_sector_lem sb works v h = elim (Option-cases (scan v.memory sb.sector_bitmap 1)) [
  | inl gone ↦
      rw (alloc_one_sector, alloc_bitmap_gone sb v.memory gone)
        (inr (λ i lt. elim (Bool-cases (scan_test v.memory sb.sector_bitmap i)) [
          | inl hit ↦ hit
          | inr miss ↦ absurd (
              scan_complete v.memory sb.sector_bitmap 1 i h.are_bytes h.few (omega arith) gone lt
                (omega arith) (λ k u w. let e : k ≡ i = omega arith in rw e miss))
        ]))
  | inr (idx, found) ↦
      let (clear, below) =
        scan_sound v.memory sb.sector_bitmap 1 idx h.are_bytes h.few (omega arith) found in
      let low = h.bitmap_below idx (omega (arith, below)) in
      let s =
        sync_bitmap-IsSame sb works idx (record v { memory = set v.memory sb.sector_bitmap idx 1 })
          low in
      rw
        (
          alloc_one_sector,
          alloc_bitmap_found sb v.memory idx found,
          alloc_bitmap_found sb v.memory idx found,
        )
        (clear_sector_lem sb works v _ idx h (omega (arith, below))
          (clear idx (omega arith) (omega arith)) s.memory s.inode s.disk)
]
