-- ===== src/Bofs/Directory/Changes.antt =====
-- fs/bofs/dir_entry.c: what a search finds after `BOFS_SyncDirEntry`.
use xbook.Prelude.{
  ℕ, ◌+◌, ◌-◌, ◌/◌, ◌≤◌, ◌≡◌, ◌≢◌, refl, ap, sym, ◌∙◌, Bool, true, false, none, some, List, [],
  if◌then◌else◌, Bool-cases, Option-cases, inl, inr, ◌%◌, ◌^◌,
}
use xbook.Bofs.Directory.{
  DirEntry, Blocks, is_nameless, is_valid, same_name, search_blocks, load_blocks, sync_slots,
  sync_dir_entry, remove_entry,
}
use xbook.Bofs.Directory.Names.{
  same_name_refl, same_name→eq, found_after, others_after, removed_after, load_flat, packed,
  keeps_names, count_name, is_stale, gone,
}
use xbook.Bofs.Directory.Flat.{
  flat, search_flat, Works, search_blocks-flat, load_blocks-flat, sync_blocks-flat,
  sync_blocks-none,
}

-- The number of blocks that `BOFS_SyncDirEntry` walks over
abbrev pub walked : ℕ → ℕ → ℕ
walked block_size size = (size + block_size - 1) % 2 ^ 32 / block_size + 1

-- Where the walk over the blocks ended
synced :
    (reads writes : ℕ → Bool) (block_size size : ℕ) (child : DirEntry) (blocks : Blocks)
    → Works reads
    → Works writes
    → (sync_dir_entry true reads writes block_size child size blocks).0 ≢ 0
    → (r : ℕ) × (after : List DirEntry) × (sync_slots child (flat 0 (walked block_size size) blocks)
        ≡ some (r, after))
      × (flat 0
            (walked block_size size)
            (sync_dir_entry true reads writes block_size child size blocks).1
          ≡ after)
unfolding sync_dir_entry
synced reads writes block_size size child blocks ok ok' done =
    let count = walked block_size size in
    elim (Option-cases (sync_slots child (flat 0 count blocks))) [
      | inl e ↦ absurd (done (sync_blocks-none reads writes child 0 count blocks ok e))
      | inr ((r, after), e) ↦
          (r, after, e, (sync_blocks-flat reads writes child 0 count blocks r after ok ok' e).1)
    ]

-- Where the device works and `BOFS_SyncDirEntry` reports success for a valid entry with a name, a
-- search in the blocks it has walked over finds the entry under its name; and under any other name
-- it finds what it found before, if no entry stands behind an empty one and no valid entry of
-- another name has the same inode.
pub search-sync :
    (reads writes : ℕ → Bool) (block_size size : ℕ) (child : DirEntry) (blocks : Blocks)
    (name : List ℕ)
    → Works reads
    → Works writes
    → is_valid child ≡ true
    → is_nameless child ≡ false
    → packed (flat 0 (walked block_size size) blocks) ≡ true
    → keeps_names child (flat 0 (walked block_size size) blocks) ≡ true
    → (sync_dir_entry true reads writes block_size child size blocks).0 ≢ 0
    → let blocks' = (sync_dir_entry true reads writes block_size child size blocks).1 in
      search_blocks reads name 0 (walked block_size size) blocks' ≡ (
        if same_name name child.name
        then some child
        else search_blocks reads name 0 (walked block_size size) blocks)
search-sync reads writes block_size size child blocks name ok ok' valid named pack keep done =
    let count = walked block_size size in
    let blocks' = (sync_dir_entry true reads writes block_size child size blocks).1 in
    let (r, after, e, eq) = synced reads writes block_size size child blocks ok ok' done in
    let now : search_blocks reads name 0 count blocks' ≡ search_flat name after =
      search_blocks-flat reads name 0 count blocks' ok ∙ (rw eq refl) in
    elim (Bool-cases (same_name name child.name)) [
      | inl s ↦ rw s (
          now
          ∙ ap (λ (n : List ℕ). search_flat n after) (same_name→eq name child.name s)
          ∙ found_after child (flat 0 count blocks) r after valid named e)
      | inr s ↦
          let ne : name ≢ child.name = λ q.
            let t : same_name name child.name ≡ true =
              ap (λ (n : List ℕ). same_name n child.name) q ∙ same_name_refl child.name in
            cc in
          rw s (
            now
            ∙ others_after child (flat 0 count blocks) r after name named ne pack keep e
            ∙ sym (search_blocks-flat reads name 0 count blocks ok))
    ]

-- Where the device works, removing an entry that a search finds, the only valid one of its name,
-- makes the search find none, except where an invalid entry stands before it: then
-- `BOFS_SyncDirEntry` writes over that one, and the search finds the entry as before.
pub remove_entry_lem :
    (reads writes : ℕ → Bool) (block_size size : ℕ) (child : DirEntry) (blocks : Blocks)
    → Works reads
    → Works writes
    → is_nameless child ≡ false
    → search_blocks reads child.name 0 (walked block_size size) blocks ≡ some child
    → count_name child.name (flat 0 (walked block_size size) blocks) ≤ 1
    → (remove_entry reads writes block_size child size blocks).0 ≢ 0
    → search_blocks reads child.name 0
        (walked block_size size)
        (remove_entry reads writes block_size child size blocks).1
      ≡ (if is_stale child.name (flat 0 (walked block_size size) blocks) then some child else none)
unfolding remove_entry
remove_entry_lem reads writes block_size size child blocks ok ok' named hit once done =
    let count = walked block_size size in
    let blocks' = (sync_dir_entry true reads writes block_size (gone child) size blocks).1 in
    let (r, after, e, eq) = synced reads writes block_size size (gone child) blocks ok ok' done in
    let before : search_flat child.name (flat 0 count blocks) ≡ some child =
      sym (search_blocks-flat reads child.name 0 count blocks ok) ∙ hit in
    search_blocks-flat reads child.name 0 count blocks' ok
    ∙ (rw eq (removed_after child (flat 0 count blocks) r after named before once e))

-- Where the device works and no entry stands behind an empty one, `BOFS_LoadDirEntry`, which looks
-- at all entries, finds the same under a name as `BOFS_SearchDirEntry`, which stops at an empty one.
load-search :
    (reads : ℕ → Bool) (name : List ℕ) (id count : ℕ) (blocks : Blocks)
    → Works reads
    → same_name [] name ≡ false
    → packed (flat id count blocks) ≡ true
    → load_blocks reads name id count blocks ≡ search_blocks reads name id count blocks
load-search reads name id count blocks ok named pack =
    load_blocks-flat reads name id count blocks ok
    ∙ load_flat name (flat id count blocks) named pack
    ∙ sym (search_blocks-flat reads name id count blocks ok)
