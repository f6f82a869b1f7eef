-- ===== src/Bofs/Table.antt =====
-- fs/bofs/inode.c: the inode table, what is stored in it and loaded from it.
use native.Mathlib.Decide.{ℕ_discrete}
use native.Mathlib.Nat.{div-add-mod'}
use xbook.Prelude.{
  ℕ, ◌+◌, ◌/◌, ◌%◌, ◌^◌, ◌≤◌, ◌<◌, ◌≡◌, ◌≢◌, ◌⊎◌, inl, inr, refl, sym, ◌∙◌, ap, Bool, true, false,
  ◌==◌, if◌then◌else◌, arith,
}
use xbook.Bofs.{SuperBlock, Inode, Volume, done}
use xbook.Bofs.Inodes.{
  inode_word, inode_at, table_lba, first_word, replace, sync_inode, empty_inode, load_inode_by_id,
}

-- Word `k` of what the table stores for an inode
abbrev pub stored : SuperBlock → Volume → ℕ → ℕ → ℕ
stored sb v id k = v.disk (table_lba sb id) (first_word sb id + k)

-- Two inodes do not overlap in the table.
entries_apart :
    (sb : SuperBlock) (id id' k : ℕ)
    → 0 < sb.inode_nr_in_sector
    → sb.inode_table_lba + id / sb.inode_nr_in_sector < 2 ^ 32
    → sb.inode_table_lba + id' / sb.inode_nr_in_sector < 2 ^ 32
    → id ≢ id'
    → table_lba sb id ≡ table_lba sb id'
    → k < 32
    → (first_word sb id' + k < first_word sb id) ⊎ (first_word sb id + 32 ≤ first_word sb id' + k)
entries_apart sb id id' k per h h' ne e lt =
    let row : id / sb.inode_nr_in_sector ≡ id' / sb.inode_nr_in_sector = omega arith in
    let column : id % sb.inode_nr_in_sector ≢ id' % sb.inode_nr_in_sector = λ c. ne (
      sym (div-add-mod' id sb.inode_nr_in_sector)
      ∙ rw (row, c) (div-add-mod' id' sb.inode_nr_in_sector)) in
    ground arith

replaced :
    (sb : SuperBlock) (v : Volume) (id id' k : ℕ) (words : ℕ → ℕ)
    → 0 < sb.inode_nr_in_sector
    → sb.inode_table_lba + id / sb.inode_nr_in_sector < 2 ^ 32
    → sb.inode_table_lba + id' / sb.inode_nr_in_sector < 2 ^ 32
    → k < 32
    → (if table_lba sb id == table_lba sb id'
          then replace (v.disk (table_lba sb id)) (first_word sb id) words
          else v.disk (table_lba sb id'))
        (first_word sb id' + k)
      ≡ (if id == id' then words k else stored sb v id' k)
replaced sb v id id' k words per h h' lt = elim (ℕ_discrete id id') [
  | yes e ↦
      let l : (table_lba sb id == table_lba sb id') ≡ true = ground (arith, ap (table_lba sb) e) in
      let f = ap (first_word sb) e in rw l (ground arith)
  | no ne ↦ elim (ℕ_discrete (table_lba sb id) (table_lba sb id')) [
    | yes l ↦
        let at = ap v.disk l in
        let c : (table_lba sb id == table_lba sb id') ≡ true = ground arith in
        rw (c, at)
          (elim (entries_apart sb id id' k per h h' ne l lt) [
            | inl a ↦ ground arith
            | inr a ↦ ground arith
          ])
    | no l ↦
        let c : (table_lba sb id == table_lba sb id') ≡ false = ground arith in rw c (ground arith)
  ]
]

-- Where the calls of `kmalloc`, `BlockRead` and `BlockWrite` succeed and block numbers do not wrap
-- around, `BOFS_SyncInode` stores the words of the inode under its id and `BOFS_EmptyInode` stores
-- zeros; what is stored for another id stays.
pub sync_inode_lem :
    (sb : SuperBlock) (works : ℕ → Bool) (v : Volume) (n : Inode) (id k : ℕ)
    → ((c : ℕ) → works c ≡ true)
    → 0 < sb.inode_nr_in_sector
    → sb.inode_table_lba + n.id / sb.inode_nr_in_sector < 2 ^ 32
    → sb.inode_table_lba + id / sb.inode_nr_in_sector < 2 ^ 32
    → k < 32
    → ((sync_inode sb works n v).0 ≡ done tt)
      × (stored sb (sync_inode sb works n v).1 id k
          ≡ (if n.id == id then inode_word n k else stored sb v id k))
      × ((empty_inode sb works n v).0 ≡ done tt)
      × (stored sb (empty_inode sb works n v).1 id k ≡ (if n.id == id then 0 else stored sb v id k))
unfolding sync_inode empty_inode
sync_inode_lem sb works v n id k good per h h' lt =
    rw (good v.calls, good (v.calls + 1), good (v.calls + 1 + 1))
      (
        refl,
        replaced sb v n.id id k (inode_word n) per h h' lt,
        refl,
        replaced sb v n.id id k (λ _. 0) per h h' lt,
      )

-- Where every call of `BlockRead` and `BlockWrite` succeeds, a sector of the inode table holds at
-- least one inode, the number of the inode's sector does not wrap around, and its mode fits 16 bits,
-- `BOFS_LoadInodeByID` after `BOFS_SyncInode` loads the inode field by field.
pub load_inode_by_id-sync_inode :
    (sb : SuperBlock) (works : ℕ → Bool) (v : Volume) (n : Inode)
    → ((c : ℕ) → works c ≡ true)
    → 0 < sb.inode_nr_in_sector
    → sb.inode_table_lba + n.id / sb.inode_nr_in_sector < 2 ^ 32
    → n.mode < 2 ^ 16
    → (m : Inode) × ((load_inode_by_id sb works n.id (sync_inode sb works n v).1).0 ≡ done m)
      × (m.devno ≡ n.devno)
      × (m.id ≡ n.id)
      × (m.mode ≡ n.mode)
      × (m.links ≡ n.links)
      × (m.size ≡ n.size)
      × (m.crttime ≡ n.crttime)
      × (m.mdftime ≡ n.mdftime)
      × (m.acstime ≡ n.acstime)
      × (m.flags ≡ n.flags)
      × ((k : ℕ) → k < 15 → m.blocks k ≡ n.blocks k)
      × ((k : ℕ) → k < 9 → m.reserved k ≡ n.reserved k)
unfolding load_inode_by_id inode_at inode_word
load_inode_by_id-sync_inode sb works v n good per h narrow =
    let w = (sync_inode sb works n v).1 in
    let word : (k : ℕ) → k < 32 → stored sb w n.id k ≡ inode_word n k =
      λ k lt. let s = sync_inode_lem sb works v n n.id k good per h h lt in ground (arith, s.1) in
    (
      inode_at (w.disk (table_lba sb n.id)) (first_word sb n.id),
      rw (good w.calls, good (w.calls + 1)) refl,
      ground (arith, word 0),
      ground (arith, word 1),
      ground (arith, word 2),
      ground (arith, word 2),
      ground (arith, word 3),
      ground (arith, word 4),
      ground (arith, word 5),
      ground (arith, word 6),
      ground (arith, word 7),
      λ k lt. ground (arith, word (8 + k)),
      λ k lt. ground (arith, word (23 + k)),
    )
