-- ===== src/Bofs/Directory.antt =====
-- fs/bofs/dir_entry.c: the entries of a directory. Its data is a function from the number of a block
-- to the entries in it, those of a block that was never written being empty; a name is its
-- characters up to the 0. `reads` and `writes` say which blocks the device reads and writes, and
-- `BOFS_GetInodeData` finds each block.
pub mod Flat
pub mod Names
pub mod Changes
mod Tests
use xbook.Prelude.{
  ℕ, zero, suc, ◌+◌, ◌-◌, ◌*◌, ◌/◌, ◌^◌, Bool, true, false, not, ◌&&◌, Option, none, some, List, [],
  ◌∷◌, ◌++◌, ltb, ◌==◌, if◌then◌else◌, ◌%◌,
}
use xbook.Task.{write_at}

-- `struct BOFS_DirEntry`
pub record DirEntry : Type 0 where
  pub inode : ℕ
  pub type : ℕ
  pub name : List ℕ

-- `BOFS_FILE_TYPE_INVALID`
abbrev pub type_invalid : ℕ
type_invalid = 0x8000

abbrev pub is_valid : DirEntry → Bool
is_valid e = not (e.type == type_invalid)

-- `strcmp` of two names is 0.
abbrev pub same_name : List ℕ → List ℕ → Bool
same_name [] [] = true
same_name [] (d ∷ ds) = false
same_name (c ∷ cs) [] = false
same_name (c ∷ cs) (d ∷ ds) = c == d && same_name cs ds

-- `name[0] == '\0'`
abbrev pub is_nameless : DirEntry → Bool
is_nameless e = same_name e.name []

abbrev pub Blocks : Type 0
Blocks = ℕ → List DirEntry

-- One block of `BOFS_SearchDirEntry`: the entry, the end of the entries, or neither
pub data Search : Type 0 where
  found : DirEntry → Search
  last : Search
  pass : Search

unfoldable pub search_slots : List ℕ → List DirEntry → Search
search_slots name [] = pass
search_slots name (e ∷ slots) =
    if is_nameless e
    then last
    else if same_name e.name name && is_valid e
    then found e
    else search_slots name slots

-- What one block says, and what the later ones say
abbrev pub search_then : Search → Option DirEntry → Option DirEntry
search_then (found e) rest = some e
search_then last rest = none
search_then pass rest = rest

-- The blocks from `id` on
unfoldable pub search_blocks : (ℕ → Bool) → List ℕ → ℕ → ℕ → Blocks → Option DirEntry
search_blocks reads name id zero blocks = none
search_blocks reads name id (suc count) blocks =
    let rest = search_blocks reads name (id + 1) count blocks in
    if reads id then search_then (search_slots name (blocks id)) rest else none

unfoldable pub search_dir_entry : Bool → (ℕ → Bool) → ℕ → List ℕ → ℕ → Blocks → Option DirEntry
search_dir_entry granted reads block_size name size blocks =
    if granted
    then search_blocks reads name 0 ((size + block_size - 1) % 2 ^ 32 / block_size) blocks
    else none

-- `BOFS_LoadDirEntry` does not stop at an entry without a name.
unfoldable pub load_slots : List ℕ → List DirEntry → Option DirEntry
load_slots name [] = none
load_slots name (e ∷ slots) =
    if same_name e.name name && is_valid e then some e else load_slots name slots

abbrev pub or_else : Option DirEntry → Option DirEntry → Option DirEntry
or_else (some e) rest = some e
or_else none rest = rest

unfoldable pub load_blocks : (ℕ → Bool) → List ℕ → ℕ → ℕ → Blocks → Option DirEntry
load_blocks reads name id zero blocks = none
load_blocks reads name id (suc count) blocks =
    let rest = load_blocks reads name (id + 1) count blocks in
    if reads id then or_else (load_slots name (blocks id)) rest else none

-- `BOFS_SyncDirEntry` on an entry: what it returns where it writes the child over it
abbrev pub slot_result : DirEntry → DirEntry → Option ℕ
slot_result child e =
    if same_name e.name child.name && is_valid e
    then some 1
    else if not (is_valid e)
    then some 2
    else if not (is_nameless e) && (e.inode == child.inode && is_valid child)
    then some 1
    else if is_nameless e
    then some 1
    else none

abbrev pub after_slots : List DirEntry → Option (ℕ × List DirEntry) → Option (ℕ × List DirEntry)
after_slots slots none = none
after_slots slots (some (r, rest)) = some (r, slots ++ rest)

abbrev pub write_slot :
    DirEntry
    → DirEntry
    → List DirEntry
    → Option ℕ
    → Option (ℕ × List DirEntry)
    → Option (ℕ × List DirEntry)
write_slot child e slots (some r) rest = some (r, child ∷ slots)
write_slot child e slots none rest = after_slots (e ∷ []) rest

unfoldable pub sync_slots : DirEntry → List DirEntry → Option (ℕ × List DirEntry)
sync_slots child [] = none
sync_slots child (e ∷ slots) =
    write_slot child e slots (slot_result child e) (sync_slots child slots)

abbrev pub write_block : Bool → ℕ → Blocks → Option (ℕ × List DirEntry) → ℕ × Blocks → ℕ × Blocks
write_block writes id blocks none rest = rest
write_block writes id blocks (some (r, slots)) rest =
    if writes then (r, write_at blocks id slots) else (0, blocks)

unfoldable pub sync_blocks : (ℕ → Bool) → (ℕ → Bool) → DirEntry → ℕ → ℕ → Blocks → ℕ × Blocks
sync_blocks reads writes child id zero blocks = (0, blocks)
sync_blocks reads writes child id (suc count) blocks =
    let rest = sync_blocks reads writes child (id + 1) count blocks in
    if reads id
    then write_block (writes id) id blocks (sync_slots child (blocks id)) rest
    else (0, blocks)

-- One block more than the size says
unfoldable pub sync_dir_entry :
    Bool → (ℕ → Bool) → (ℕ → Bool) → ℕ → DirEntry → ℕ → Blocks → ℕ × Blocks
sync_dir_entry granted reads writes block_size child size blocks =
    if granted
    then sync_blocks reads writes child 0 ((size + block_size - 1) % 2 ^ 32 / block_size + 1) blocks
    else (0, blocks)

-- The end of `BOFS_RemoveDir`: the entry that was found is written back as an invalid one.
unfoldable pub remove_entry : (ℕ → Bool) → (ℕ → Bool) → ℕ → DirEntry → ℕ → Blocks → ℕ × Blocks
remove_entry reads writes block_size child size blocks =
    sync_dir_entry true reads writes block_size (record child { type = type_invalid }) size blocks
