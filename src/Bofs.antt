-- ===== src/Bofs.antt =====
-- fs/bofs and include/fs/bofs: a mounted volume of the Bofs file system and the calls it makes.
-- A block is its 32-bit words. Whether the n-th call of `kmalloc`, `BlockRead` or `BlockWrite`
-- succeeds is `works n`; a call that succeeds does what its name says.
pub mod Layout
pub mod Sectors
pub mod Inodes
pub mod Places
pub mod Mounted
pub mod Trees
pub mod Found
pub mod Walk
pub mod Lookup
pub mod Blocks
pub mod Table
pub mod Freed
pub mod Direct
mod Tests
pub mod Get
pub mod Put
pub mod Directory
pub mod Paths
pub mod Drives
use xbook.Prelude.{
  ℕ, ◌+◌, ◌*◌, ◌/◌, ◌%◌, ◌^◌, List, [], ◌∷◌, Bool, true, false, ◌==◌, if◌then◌else◌,
}
use xbook.Memory.{Memory}
use xbook.Bitmap.{Bitmap}

abbrev pub Block : Type 0
Block = ℕ → ℕ

-- `struct BOFS_SuperBlock`, less what only mounting and directories use
pub record SuperBlock : Type 0 where
  pub total_sectors : ℕ
  pub super_block_lba : ℕ
  pub sector_bitmap_lba : ℕ
  pub sector_bitmap_sectors : ℕ
  pub inode_bitmap_lba : ℕ
  pub inode_bitmap_sectors : ℕ
  pub inode_table_lba : ℕ
  pub inode_table_sectors : ℕ
  pub data_start_lba : ℕ
  pub inode_nr_in_sector : ℕ
  pub max_inodes : ℕ
  pub block_size : ℕ
  pub sector_bitmap : Bitmap
  pub inode_bitmap : Bitmap

-- `struct BOFS_Inode`
pub record Inode : Type 0 where
  pub devno : ℕ
  pub id : ℕ
  pub mode : ℕ
  pub links : ℕ
  pub size : ℕ
  pub crttime : ℕ
  pub mdftime : ℕ
  pub acstime : ℕ
  pub flags : ℕ
  pub blocks : ℕ → ℕ
  pub reserved : ℕ → ℕ

-- What the operations change: the memory that holds the bitmaps, the disk, the inode they are
-- called with, the signals forced on the caller, and how many calls were made.
pub record Volume : Type 0 where
  pub memory : Memory
  pub disk : ℕ → Block
  pub inode : Inode
  pub forced : List ℕ
  pub calls : ℕ

-- An `int` result of 0 is `done`, of -1 is `failed`. A write through a null pointer is `fault`.
pub data Result {ℓ} (A : Type ℓ) : Type ℓ where
  done : A → Result A
  failed fault : Result A

abbrev pub Action {ℓ} : Type ℓ → Type ℓ
Action A = Volume → Result A × Volume

abbrev pub proceed {ℓ κ} :
    {A : Type ℓ} {B : Type κ} → Result A × Volume → (A → Action B) → Result B × Volume
proceed (done a, v) f = f a v
proceed (failed, v) f = (failed, v)
proceed (fault, v) f = (fault, v)

infixl 5 ◌>>=◌ ◌>>◌
abbrev pub ◌>>=◌ {ℓ κ} : {A : Type ℓ} {B : Type κ} → Action A → (A → Action B) → Action B
(m >>= f) v = proceed (m v) f

abbrev pub ◌>>◌ {ℓ κ} : {A : Type ℓ} {B : Type κ} → Action A → Action B → Action B
(m >> k) v = proceed (m v) (λ _. k)

abbrev pub return {ℓ} : {A : Type ℓ} → A → Action A
return a v = (done a, v)

-- Calls an operation whose result the source drops.
abbrev pub drop_result {ℓ} : {A : Type ℓ} → Result A × Volume → Result (Unit {0}) × Volume
drop_result (fault, v) = (fault, v)
drop_result (_, v) = (done tt, v)

-- `kmalloc`, by its success alone: each buffer is a value of the operation that asked for it.
abbrev pub kmalloc : (ℕ → Bool) → Action Bool
kmalloc works v = (done (works v.calls), record v { calls = v.calls + 1 })

abbrev pub block_read : (ℕ → Bool) → ℕ → Action Block
block_read works lba v =
    (if works v.calls then done (v.disk lba) else failed, record v { calls = v.calls + 1 })

abbrev pub write_word : (ℕ → ℕ) → ℕ → ℕ → ℕ → ℕ
write_word buffer i x j = if i == j then x else buffer j

abbrev pub write_disk : (ℕ → Block) → ℕ → Block → ℕ → Block
write_disk disk lba buffer l = if lba == l then buffer else disk l

abbrev pub block_write : (ℕ → Bool) → ℕ → Block → Action (Unit {0})
block_write works lba buffer v =
    if works v.calls
    then (done tt, record v { disk = write_disk v.disk lba buffer; calls = v.calls + 1 })
    else (failed, record v { calls = v.calls + 1 })
