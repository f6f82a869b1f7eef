-- ===== src/VmSpace/Merge.antt =====
-- `MergeVMSpace`.
use xbook.Prelude.{
  ℕ, ◌≡◌, refl, ap, ◌∙◌, inl, inr, Bool-cases, Bool, true, false, ◌&&◌, ◌||◌, Option, none, some,
  List, [], ◌∷◌, ◌++◌, ltb, leb, ◌==◌, arith,
}
use xbook.VmSpace.{VmSpace, merge_next, merge_vm_space}
use xbook.VmSpace.Sorted.{IsSorted, maps}

abbrev pub nodes : Option VmSpace → List VmSpace
nodes none = []
nodes (some space) = space ∷ []

maps-merge_next :
    (space : VmSpace) (next : Option VmSpace) (merged : Bool) (low a : ℕ)
    → IsSorted low (space ∷ nodes next)
    → (maps ((merge_next space next merged).0) a ≡ maps (space ∷ nodes next) a)
      × IsSorted low ((merge_next space next merged).0)
unfolding merge_next maps
maps-merge_next space none merged low a h = (refl, h)
maps-merge_next space (some next) merged low a h = (ground arith, ground arith)

-- Merging neighbours changes neither what is mapped nor the order.
pub merge_vm_space_lem :
    (prev next : Option VmSpace) (space : VmSpace) (low a : ℕ)
    → IsSorted low (nodes prev ++ space ∷ nodes next)
    → (maps ((merge_vm_space prev space next).0) a ≡ maps (nodes prev ++ space ∷ nodes next) a)
      × IsSorted low ((merge_vm_space prev space next).0)
unfolding merge_vm_space maps
merge_vm_space_lem none next space low a h = maps-merge_next space next false low a h
merge_vm_space_lem (some prev) next space low a h =
    let (p, q, (u, v, n)) = h in
    let touching =
      prev.end == space.start && (prev.page_prot == space.page_prot && prev.flags == space.flags) in
    elim (Bool-cases touching) [
      | inl merged ↦
          let ih =
            maps-merge_next (record prev { end = space.end }) next true low a (p, omega arith, n) in
          rw merged (ih.0 ∙ ground arith, ih.1)
      | inr apart ↦
          let ih = maps-merge_next space next false prev.end a (u, v, n) in
          rw apart (ap (λ b. (leb prev.start a && ltb a prev.end) || b) (ih.0), (p, q, ih.1))
    ]
