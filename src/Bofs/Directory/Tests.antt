-- ===== src/Bofs/Directory/Tests.antt =====
-- fs/bofs/dir_entry.c with a directory of one block.
use xbook.Prelude.{◌≡◌, refl, true, none, some, [], ◌∷◌, ◌==◌, if◌then◌else◌, arith}
use xbook.Bofs.Directory.{
  DirEntry, Blocks, same_name, search_blocks, search_slots, sync_slots, sync_blocks, sync_dir_entry,
  remove_entry,
}
use xbook.Bofs.Directory.Flat.{flat}
use xbook.Bofs.Directory.Names.{is_stale}
use xbook.Bofs.Directory.Changes.{walked, search-sync, remove_entry_lem}

abbrev file : DirEntry
file = record { inode = 7; type = 1; name = b'b' ∷ [] }

abbrev removed : DirEntry
removed = record { inode = 5; type = 0x8000; name = b'a' ∷ [] }

abbrev unused : DirEntry
unused = record { inode = 0; type = 0; name = [] }

-- An entry that was removed, one file, and two empty entries
abbrev blocks : Blocks
blocks n = if n == 0 then removed ∷ file ∷ unused ∷ unused ∷ [] else unused ∷ unused ∷ []

abbrev newcomer : DirEntry
newcomer = record { inode = 8; type = 1; name = b'c' ∷ [] }

search-sync_example :
    let blocks' = (sync_dir_entry true (λ _. true) (λ _. true) 1024 newcomer 512 blocks).1 in
    search_blocks (λ _. true) (b'c' ∷ []) 0 (walked 1024 512) blocks' ≡ (
      if same_name (b'c' ∷ []) newcomer.name
      then some newcomer
      else search_blocks (λ _. true) (b'c' ∷ []) 0 (walked 1024 512) blocks)
unfolding sync_dir_entry sync_blocks sync_slots
search-sync_example =
    search-sync (λ _. true) (λ _. true) 1024 512 newcomer blocks (b'c' ∷ []) (λ _. refl) (λ _. refl)
      refl refl refl refl (λ e. omega (arith, e))

remove_entry_lem_example :
    search_blocks
      (λ _. true)
      file.name
      0
      (walked 1024 512)
      (remove_entry (λ _. true) (λ _. true) 1024 file 512 blocks).1
    ≡ (if is_stale file.name (flat 0 (walked 1024 512) blocks) then some file else none)
unfolding remove_entry sync_dir_entry sync_blocks sync_slots search_blocks search_slots
remove_entry_lem_example =
    remove_entry_lem (λ _. true) (λ _. true) 1024 512 file blocks (λ _. refl) (λ _. refl) refl refl
      (omega arith) (λ e. omega (arith, e))
