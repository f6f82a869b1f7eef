-- ===== src/Bofs/Get.antt =====
-- fs/bofs/inode.c: `BOFS_GetInodeData` finds the sector of a block of a file through the inode
-- and up to three levels of pointer blocks, and allocates what is missing on the way. Signal 25 is
-- SIGXFSZ.
use xbook.Prelude.{ℕ, ◌+◌, ◌-◌, ◌*◌, ◌/◌, ◌%◌, ◌∷◌, Bool, ltb, ◌==◌, if◌then◌else◌}
use xbook.Bofs.{
  Block, SuperBlock, Volume, Result, done, failed, fault, Action, ◌>>=◌, ◌>>◌, return, drop_result,
  kmalloc, block_read, block_write, write_word,
}
use xbook.Bofs.Sectors.{Grant, none_left, uncleared, ready, alloc_one_sector}
use xbook.Bofs.Inodes.{sync_inode, buffer_or_fail}

-- `inode->blocks[slot] = x`
abbrev pub set_slot : ℕ → ℕ → Volume → Volume
set_slot slot x v = record v {
  inode = record (v.inode) { blocks = write_word v.inode.blocks slot x };
}

abbrev pub sync : SuperBlock → (ℕ → Bool) → Action (Unit {0})
sync sb works v = drop_result (sync_inode sb works v.inode v)

abbrev pub fill_slot : SuperBlock → (ℕ → Bool) → ℕ → Grant × Volume → Result ℕ × Volume
fill_slot sb works slot (none_left, v) = (failed, v)
fill_slot sb works slot (uncleared x, v) = (failed, set_slot slot x v)
fill_slot sb works slot (ready x, v) = (sync sb works >> return x) (set_slot slot x v)

-- The sector that a slot of the inode points to: a missing one is allocated and the inode synced.
unfoldable pub slot_sector : SuperBlock → (ℕ → Bool) → ℕ → Action ℕ
slot_sector sb works slot v =
    if v.inode.blocks slot == 0
    then fill_slot sb works slot (alloc_one_sector sb works v)
    else (done (v.inode.blocks slot), v)

abbrev pub fill_word : (ℕ → Bool) → ℕ → Block → ℕ → Grant × Volume → Result ℕ × Volume
fill_word works lba buffer i (none_left, v) = (failed, v)
fill_word works lba buffer i (uncleared x, v) = (failed, v)
fill_word works lba buffer i (ready x, v) =
    (block_write works lba (write_word buffer i x) >> return x) v

-- The sector that word `i` of a pointer block points to: the block is read, a missing sector
-- allocated and the block written back.
unfoldable pub word_sector : SuperBlock → (ℕ → Bool) → ℕ → ℕ → Action ℕ
word_sector sb works lba i = block_read works lba >>= λ buffer v.
    if buffer i == 0
    then fill_word works lba buffer i (alloc_one_sector sb works v)
    else (done (buffer i), v)

unfoldable pub get_block_in_inderect1 : SuperBlock → (ℕ → Bool) → ℕ → Action ℕ
get_block_in_inderect1 sb works base = do
  buffer_or_fail works
  inderect1 ← slot_sector sb works 12
  word_sector sb works inderect1 base

unfoldable pub get_block_in_inderect2 : SuperBlock → (ℕ → Bool) → ℕ → Action ℕ
get_block_in_inderect2 sb works base = do
  buffer_or_fail works
  buffer_or_fail works
  inderect1 ← slot_sector sb works 13
  inderect2 ← word_sector sb works inderect1 (base / 256)
  word_sector sb works inderect2 (base % 256)

-- How the source splits the index of level 3, each with the three words in order
abbrev pub split3 : ℕ → ℕ × ℕ × ℕ
split3 base =
    if ltb base 256
    then (0, 0, base)
    else if ltb base (256 * 256)
    then (0, base / 256, base % 256)
    else if ltb base (256 * 256 * 256)
    then (
      base / (256 * 256),
      (base - base / (256 * 256) * (256 * 256)) / 256,
      (base - base / (256 * 256) * (256 * 256)) % 256,
    )
    else (0, 0, 0)

-- The null test after the third `kmalloc` is on the second buffer: without the third buffer the
-- sectors above it are still found, and then it is cleared through the null pointer.
unfoldable pub get_block_in_inderect3 : SuperBlock → (ℕ → Bool) → ℕ → Action ℕ
get_block_in_inderect3 sb works base = do
  buffer_or_fail works
  buffer_or_fail works
  has_buffer3 ← kmalloc works
  inderect1 ← slot_sector sb works 14
  inderect2 ← word_sector sb works inderect1 (split3 base).0
  inderect3 ← word_sector sb works inderect2 (split3 base).1
  if has_buffer3 then word_sector sb works inderect3 (split3 base).2 else (λ v. (fault, v))

unfoldable pub get_inode_data : SuperBlock → (ℕ → Bool) → ℕ → Action ℕ
get_inode_data sb works index =
    if ltb index 12
    then slot_sector sb works index
    else if ltb index (12 + 256)
    then get_block_in_inderect1 sb works (index - 12)
    else if ltb index (12 + 256 + 256 * 256)
    then get_block_in_inderect2 sb works (index - (12 + 256))
    else if ltb index (12 + 256 + 256 * 256 + 256 * 256 * 256)
    then get_block_in_inderect3 sb works (index - (12 + 256 + 256 * 256))
    else (λ v. (failed, record v { forced = 25 ∷ v.forced }))
