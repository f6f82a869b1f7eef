-- ===== src/Bofs/Paths/Tests.antt =====
-- Paths as fs/bofs/dir.c reads and washes them
use xbook.Prelude.{ℕ, ◌≡◌, refl, none, some, List, [], ◌∷◌}
use xbook.Bofs.Paths.{
  root, skip_slashes, take_name, parse_path_afterward, before_last, wash_name, wash_loop, wash_path,
  until_colon, path_to_drive,
}
use xbook.Bofs.Paths.Names.{names_from}
use xbook.Bofs.Paths.Washed.{wash_path-wash_path}
use xbook.Bofs.Paths.Washing.{names_fit, resolve, resolve_all, render_names, wash_path_lem}

-- "//a/./b/../c/"
abbrev up_and_down : List ℕ
up_and_down =
    b'/' ∷ b'/' ∷ b'a' ∷ b'/' ∷ b'.' ∷ b'/' ∷ b'b' ∷ b'/' ∷ b'.' ∷ b'.' ∷ b'/' ∷ b'c' ∷ b'/' ∷ []

-- "/a/c"
abbrev washed : List ℕ
washed = b'/' ∷ b'a' ∷ b'/' ∷ b'c' ∷ []

wash_path_lem_example : wash_path up_and_down ≡ some washed
unfolding names_fit resolve resolve_all render_names names_from
wash_path_lem_example = wash_path_lem up_and_down refl refl

wash_path-wash_path_example : wash_path washed ≡ some washed
unfolding skip_slashes take_name parse_path_afterward before_last wash_name wash_loop wash_path
wash_path-wash_path_example = wash_path-wash_path up_and_down washed refl

above_root : wash_path (b'/' ∷ b'.' ∷ b'.' ∷ []) ≡ some root
unfolding skip_slashes take_name parse_path_afterward before_last wash_name wash_loop wash_path
above_root = refl

drive_of_path : path_to_drive (b'c' ∷ b':' ∷ b'/' ∷ []) ≡ some (b'c' ∷ [])
unfolding until_colon path_to_drive
drive_of_path = refl

no_drive : path_to_drive (b':' ∷ b'/' ∷ []) ≡ none
unfolding until_colon path_to_drive
no_drive = refl
