-- ===== src/Bofs/Inodes.antt =====
-- fs/bofs/inode.c: inodes and the inode table.
use xbook.Prelude.{ℕ, ◌+◌, ◌-◌, ◌*◌, ◌/◌, ◌%◌, ◌^◌, Bool, ltb, ◌==◌, if◌then◌else◌}
use xbook.Bofs.{
  Block, SuperBlock, Inode, done, failed, Action, ◌>>=◌, ◌>>◌, return, block_read, block_write,
}

abbrev pub header_word : Inode → ℕ → ℕ
header_word n k =
    if k == 0
    then n.devno
    else if k == 1
    then n.id
    else if k == 2
    then n.mode + 2 ^ 16 * n.links
    else if k == 3
    then n.size
    else if k == 4
    then n.crttime
    else if k == 5
    then n.mdftime
    else if k == 6
    then n.acstime
    else n.flags

-- The 32 words of a packed inode
unfoldable pub inode_word : Inode → ℕ → ℕ
inode_word n k =
    if ltb k 8 then header_word n k else if ltb k 23 then n.blocks (k - 8) else n.reserved (k - 23)

-- The inode that starts at a word of a block
unfoldable pub inode_at : Block → ℕ → Inode
inode_at buffer w = record {
  devno = buffer w;
  id = buffer (w + 1);
  mode = buffer (w + 2) % 2 ^ 16;
  links = buffer (w + 2) / 2 ^ 16;
  size = buffer (w + 3);
  crttime = buffer (w + 4);
  mdftime = buffer (w + 5);
  acstime = buffer (w + 6);
  flags = buffer (w + 7);
  blocks = λ (k : ℕ). buffer (w + 8 + k);
  reserved = λ (k : ℕ). buffer (w + 23 + k);
}

-- The block with 32 words from word `w` on replaced
abbrev pub replace : Block → ℕ → (ℕ → ℕ) → Block
replace buffer w words j =
    if ltb j w then buffer j else if ltb j (w + 32) then words (j - w) else buffer j

abbrev pub table_lba : SuperBlock → ℕ → ℕ
table_lba sb id = (sb.inode_table_lba + id / sb.inode_nr_in_sector) % 2 ^ 32

abbrev pub first_word : SuperBlock → ℕ → ℕ
first_word sb id = 32 * (id % sb.inode_nr_in_sector)

abbrev pub buffer_or_fail : (ℕ → Bool) → Action (Unit {0})
buffer_or_fail works v =
    (if works v.calls then done tt else failed, record v { calls = v.calls + 1 })

unfoldable pub sync_inode : SuperBlock → (ℕ → Bool) → Inode → Action (Unit {0})
sync_inode sb works n = do
  buffer_or_fail works
  buffer ← block_read works (table_lba sb n.id)
  block_write works (table_lba sb n.id) (replace buffer (first_word sb n.id) (inode_word n))

unfoldable pub empty_inode : SuperBlock → (ℕ → Bool) → Inode → Action (Unit {0})
empty_inode sb works n = do
  buffer_or_fail works
  buffer ← block_read works (table_lba sb n.id)
  block_write works (table_lba sb n.id) (replace buffer (first_word sb n.id) (λ (_ : ℕ). 0))

unfoldable pub load_inode_by_id : SuperBlock → (ℕ → Bool) → ℕ → Action Inode
load_inode_by_id sb works id = do
  buffer_or_fail works
  buffer ← block_read works (table_lba sb id)
  return (inode_at buffer (first_word sb id))

-- `BOFS_CreateInode` at the time `now`
unfoldable pub create_inode : ℕ → ℕ → ℕ → ℕ → ℕ → Inode
create_inode now id mode flags devno = record {
  devno = devno;
  id = id;
  mode = mode % 2 ^ 16;
  links = 0;
  size = 0;
  crttime = now;
  mdftime = now;
  acstime = now;
  flags = flags;
  blocks = λ (_ : ℕ). 0;
  reserved = λ (_ : ℕ). 0;
}

unfoldable pub copy_inode : Inode → Inode
copy_inode src = record {
  devno = 0;
  id = src.id;
  mode = src.mode;
  links = src.links;
  size = src.size;
  crttime = src.crttime;
  mdftime = src.mdftime;
  acstime = src.acstime;
  flags = src.flags;
  blocks = λ (_ : ℕ). 0;
  reserved = λ (_ : ℕ). 0;
}
