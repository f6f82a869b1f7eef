-- ===== src/Bofs/Drives/Tests.antt =====
-- Runs of the path calls of fs/symphyses.c with one drive, "c"
use xbook.Prelude.{ℕ, ◌≡◌, refl, true, none, some, List, [], ◌∷◌, arith}
use xbook.Bofs.Paths.{
  root, skip_slashes, take_name, parse_path_afterward, before_last, wash_name, wash_loop, wash_path,
  until_colon, path_to_drive,
}
use xbook.Bofs.Paths.Names.{names_from}
use xbook.Bofs.Paths.Washing.{resolve, resolve_all, render_names}
use xbook.Bofs.Drives.{
  Drive, get_drive_by_name, add_drive, del_drive, from_slash, through_slash, with_slash, add_root,
  make_abs_path, get_drive_by_path, final_path, change_cwd,
}
use xbook.Bofs.Drives.Relative.{name_ends, name_goes, final_path-relative}

abbrev drive : Drive
drive = record { name = b'c' ∷ []; super_block = 4096; block_device = 8192 }

-- "c:/a"
abbrev cwd : List ℕ
cwd = b'c' ∷ b':' ∷ b'/' ∷ b'a' ∷ []

-- "../b"
abbrev sibling : List ℕ
sibling = b'.' ∷ b'.' ∷ b'/' ∷ b'b' ∷ []

final_path-relative_example : final_path cwd (drive ∷ []) sibling ≡ some (drive, b'/' ∷ b'b' ∷ [])
unfolding change_cwd get_drive_by_name until_colon path_to_drive names_from resolve resolve_all
    render_names
final_path-relative_example =
    final_path-relative drive (drive ∷ []) (b'a' ∷ []) sibling
      (name_goes b'c' [] refl refl name_ends) (omega arith) refl refl refl

to_root : final_path cwd (drive ∷ []) root ≡ some (drive, root)
unfolding skip_slashes take_name parse_path_afterward before_last wash_name wash_loop wash_path
    until_colon path_to_drive get_drive_by_name from_slash through_slash with_slash make_abs_path
    get_drive_by_path final_path
to_root = refl

no_such_drive : final_path cwd [] sibling ≡ none
unfolding skip_slashes take_name parse_path_afterward before_last wash_name wash_loop wash_path
    until_colon path_to_drive get_drive_by_name from_slash through_slash with_slash add_root
    make_abs_path get_drive_by_path final_path
no_such_drive = refl

taken_drive : add_drive true drive (drive ∷ []) ≡ none
unfolding get_drive_by_name add_drive
taken_drive = refl

deleted_drive : del_drive (b'c' ∷ []) (drive ∷ []) ≡ some []
unfolding del_drive
deleted_drive = refl
