-- ===== src/Bofs/Put.antt =====
-- fs/bofs/inode.c: `PutBlockByBlockIndex` gives the sector of a block of a file back, with the
-- pointer blocks that are left empty. Signal 25 is SIGXFSZ.
use xbook.Prelude.{
  ℕ, zero, suc, ◌+◌, ◌-◌, ◌*◌, ◌/◌, ◌%◌, ◌^◌, ◌∷◌, Bool, ltb, ◌==◌, if◌then◌else◌, every,
}
use xbook.Bofs.{
  Block, SuperBlock, done, failed, Action, ◌>>=◌, ◌>>◌, return, block_read, block_write, write_word,
}
use xbook.Bofs.Sectors.{free_one_sector}
use xbook.Bofs.Inodes.{buffer_or_fail}
use xbook.Bofs.Get.{set_slot, sync, split3}

unfoldable pub is_emprty_block : Block → ℕ → Bool
is_emprty_block buf size = every (size / 4) (λ i. buf i == 0)

abbrev pub free : SuperBlock → (ℕ → Bool) → ℕ → Action (Unit {0})
free sb works lba v = (done tt, free_one_sector sb works lba v)

-- A slot of the inode is freed, set to 0 and the inode synced.
abbrev pub release_slot : SuperBlock → (ℕ → Bool) → ℕ → ℕ → Action (Unit {0})
release_slot sb works slot lba v = sync sb works (set_slot slot 0 (free_one_sector sb works lba v))

-- Word `i` of a pointer block becomes 0: an empty block is freed and the pointer to it released,
-- and any other is written back.
abbrev pub release_word :
    SuperBlock → (ℕ → Bool) → ℕ → Block → ℕ → Action (Unit {0}) → Action (Unit {0})
release_word sb works lba buffer i release_holder =
    if is_emprty_block (write_word buffer i 0) sb.block_size
    then release_holder
    else block_write works lba (write_word buffer i 0)

unfoldable pub put_block_in_inderect1 : SuperBlock → (ℕ → Bool) → ℕ → Action (Unit {0})
put_block_in_inderect1 sb works base = do
  buffer_or_fail works
  inode ← (λ v. (done v.inode, v))
  let inderect1 = inode.blocks 12
  if inderect1 == 0
      then return tt
      else block_read works inderect1 >>= λ buffer1.
          if buffer1 base == 0
          then return tt
          else free sb works (buffer1 base)
            >> release_word sb works inderect1 buffer1 base (release_slot sb works 12 inderect1)

-- After the sector is freed the source returns 0: neither the words on the disk nor the pointer
-- blocks are touched.
unfoldable pub put_block_in_inderect2 : SuperBlock → (ℕ → Bool) → ℕ → Action (Unit {0})
put_block_in_inderect2 sb works base = do
  buffer_or_fail works
  buffer_or_fail works
  inode ← (λ v. (done v.inode, v))
  let inderect1 = inode.blocks 13
  if inderect1 == 0
      then return tt
      else block_read works inderect1 >>= λ buffer1.
          if buffer1 (base / 256) == 0
          then return tt
          else block_read works (buffer1 (base / 256)) >>= λ buffer2.
              if buffer2 (base % 256) == 0 then return tt else free sb works (buffer2 (base % 256))

unfoldable pub put_block_in_inderect3 : SuperBlock → (ℕ → Bool) → ℕ → Action (Unit {0})
put_block_in_inderect3 sb works base = do
  buffer_or_fail works
  buffer_or_fail works
  buffer_or_fail works
  inode ← (λ v. (done v.inode, v))
  let inderect1 = inode.blocks 14
  let i = (split3 base).0
  let j = (split3 base).1
  let k = (split3 base).2
  if inderect1 == 0
      then return tt
      else block_read works inderect1 >>= λ buffer1.
          if buffer1 i == 0
          then return tt
          else block_read works (buffer1 i) >>= λ buffer2.
              if buffer2 j == 0
              then return tt
              else block_read works (buffer2 j) >>= λ buffer3.
                  if buffer3 k == 0
                  then return tt
                  else free sb works (buffer3 k)
                    >> release_word sb works (buffer2 j) buffer3 k (
                        free sb works (buffer2 j)
                        >> release_word sb works (buffer1 i) buffer2 j (
                            free sb works (buffer1 i)
                            >> release_word sb works inderect1 buffer1 i
                                (release_slot sb works 14 inderect1)))

unfoldable pub put_block_by_block_index : SuperBlock → (ℕ → Bool) → ℕ → Action (Unit {0})
put_block_by_block_index sb works index v =
    if ltb index 12
    then (if v.inode.blocks index == 0
        then (done tt, v)
        else release_slot sb works index (v.inode.blocks index) v)
    else if ltb index (12 + 256)
    then put_block_in_inderect1 sb works (index - 12) v
    else if ltb index (12 + 256 + 256 * 256)
    then put_block_in_inderect2 sb works (index - (12 + 256)) v
    else if ltb index (12 + 256 + 256 * 256 + 256 * 256 * 256)
    then put_block_in_inderect3 sb works (index - (12 + 256 + 256 * 256)) v
    else (failed, record v { forced = 25 ∷ v.forced })

-- The loop of `BOFS_ReleaseInodeData`: `left` blocks from `index` on
unfoldable pub release_blocks : SuperBlock → (ℕ → Bool) → ℕ → ℕ → Action (Unit {0})
release_blocks sb works zero index = return tt
release_blocks sb works (suc left) index =
    put_block_by_block_index sb works index >> release_blocks sb works left (index + 1)

-- `DIV_ROUND_UP(inode->size, sb->blockSize)` blocks
unfoldable pub release_inode_data : SuperBlock → (ℕ → Bool) → Action (Unit {0})
release_inode_data sb works v =
    if v.inode.size == 0
    then (done tt, v)
    else release_blocks sb works ((v.inode.size + sb.block_size - 1) % 2 ^ 32 / sb.block_size) 0 v
