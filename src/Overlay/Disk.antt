-- ===== src/Overlay/Disk.antt =====
-- A small file system that stands for the operating system in the examples on internal/overlay, and that
-- keeps the promises of the theorems.
use fabric_workspace_fs.Prelude.{
  Bool-cases, inl, inr, Bool-cases, Option-cases, ℕ, ◌+◌, ◌≡◌, Bool, true, false, ◌&&◌, ◌||◌, none,
  some, List, [], ◌∷◌, arith, ◌==◌, if◌then◌else◌, is_some, length, max,
}
use fabric_workspace_fs.Prelude.Int.{pos}
use fabric_workspace_fs.Errors.{exist, not_exist, permission}
use fabric_workspace_fs.Bytes.{Bytes}
use fabric_workspace_fs.Bytes.{same_refl}
use fabric_workspace_fs.Tables.{lookup-put, Table, lookup, put, remove}
use fabric_workspace_fs.Onelake.{last_byte}
use fabric_workspace_fs.Overlay.{Info, Store, Os, Reply, failed, value, no_more, directory, regular}
use fabric_workspace_fs.Overlay.Paths.{check_private}
use fabric_workspace_fs.Overlay.Access.{
  close_failed, is_directory, open_verified, verify, read_only_flags,
}
use fabric_workspace_fs.Overlay.Logic.{Post, step, ask_step, guard_step, attempt-Post, Attempted}
use fabric_workspace_fs.Overlay.Neutral.{checked_stat-Keeps}
use fabric_workspace_fs.Overlay.Accounting.{IsMaker}
use fabric_workspace_fs.Overlay.Making.{MakesDirectories}
use fabric_workspace_fs.Overlay.Creating.{MakesFiles}

-- The sizes of what there is, and the paths that were opened, the last one first. A path that ends in x
-- is that of a file, any other that of a directory.
pub record Disk : Type 0 where
  pub objects : Table ℕ
  pub opened : List Bytes

abbrev pub is_file_name : Bytes → Bool
is_file_name path = last_byte path == b'x'

abbrev pub info_of : Bytes → ℕ → Info
info_of path n = record {
  mode = if is_file_name path then regular else directory;
  permissions = if is_file_name path then 384 else 448;
  uid = 0;
  links = 1;
  size = pos n;
  mod_time = 0;
  identity = length path;
}

unfoldable pub path_of : ℕ → List Bytes → Bytes
path_of fd [] = []
path_of fd (p ∷ ps) = if fd == length ps then p else path_of fd ps

abbrev pub info_at : Bytes → Disk → Reply Info
info_at path w = elim (lookup path w.objects) [
  | none ↦ failed (not_exist ∷ [])
  | some n ↦ value (info_of path n)
]

abbrev pub opening_path : Bytes → Disk → Reply ℕ × Disk
opening_path path w = (value (length w.opened), record w { opened = path ∷ w.opened })

abbrev pub resize : Bytes → ℕ → Disk → Disk
resize path n w = record w { objects = put path n w.objects }

abbrev pub size_at : Bytes → Disk → ℕ
size_at path w = elim (lookup path w.objects) [ none ↦ 0 | some n ↦ n ]

abbrev pub disk_os : Os
disk_os = record {
  World = Disk;
  euid = 0;
  context_err = λ w. ([], w);
  lstat = λ path w. (info_at path w, w);
  open_file = λ path f w.
      if is_some (lookup path w.objects)
      then (if f.exclusive then (failed (exist ∷ []), w) else opening_path path w)
      else if f.create && is_file_name path
      then opening_path path (resize path 0 w)
      else (failed (not_exist ∷ []), w);
  fstat = λ fd w. (info_at (path_of fd w.opened) w, w);
  close = λ fd w. ([], w);
  mkdir = λ path w.
      if is_some (lookup path w.objects) || is_file_name path
      then (exist ∷ [], w)
      else ([], resize path 0 w);
  remove = λ path w. ([], record w { objects = remove path w.objects });
  rename = λ source target w.
      ([], record w { objects = put target (size_at source w) (remove source w.objects) });
  read_name = λ fd w. (no_more, w);
  read_at = λ fd n offset w. (([], []), w);
  write = λ fd p w.
      let path = path_of fd w.opened in ((length p, []), resize path (size_at path w + length p) w);
  write_at = λ fd p offset w.
      let path = path_of fd w.opened in
      ((length p, []), resize path (max (size_at path w) (offset + length p)) w);
  truncate = λ fd n w. ([], resize (path_of fd w.opened) n w);
  sync = λ fd w. ([], w);
  close_root = λ w. ([], w);
}

files_lem : MakesFiles disk_os
unfolding path_of
files_lem path f w fd i h k = elim (Bool-cases (is_some (lookup path w.objects))) [
  | inl e ↦ absurd (ground arith)
  | inr e ↦ elim (Bool-cases (is_file_name path)) [
    | inl n ↦ ground (arith, lookup-put path path 0 w.objects, same_refl path)
    | inr n ↦ absurd (ground arith)
  ]
]

-- what is opened under a name of a directory is a directory
named_lem :
    (path : Bytes) (w : Disk) (fd : ℕ) (i : Info)
    → is_file_name path ≡ false
    → (disk_os.open_file path read_only_flags w).0 ≡ value fd
    → (disk_os.fstat fd (disk_os.open_file path read_only_flags w).1).0 ≡ value i
    → is_directory i ≡ true
unfolding path_of
named_lem path w fd i n h k = elim (Option-cases (lookup path w.objects)) [
  | inl e ↦ absurd (ground arith)
  | inr (m, e) ↦ ground arith
]

abbrev pub Nothing : Store → Type 0
Nothing s = Unit

abbrev pub IsFolder : ℕ × Info → Store → Type 0
IsFolder opened s = is_directory opened.1 ≡ true

kept_folder :
    (fd : ℕ) (r : Reply Info) (w : Disk) (s : Store)
    → Attempted Nothing (λ i t. is_directory i ≡ true) r s
    → Post Nothing (λ i t. is_directory i ≡ true) (close_failed disk_os fd r w s)
kept_folder fd (value i) w s p = p
kept_folder fd (failed e) w s p = tt

verified_folder :
    (path : Bytes) (w : Disk) (s : Store) (before : Info) (fd : ℕ)
    → (disk_os.open_file path read_only_flags w).0 ≡ value fd
    → is_file_name path ≡ false
    → Post Nothing
        (λ i t. is_directory i ≡ true)
        (verify disk_os fd before (disk_os.open_file path read_only_flags w).1 s)
unfolding verify
verified_folder path w s before fd e n =
    let after = (disk_os.open_file path read_only_flags w).1 in
    let Q : Info → Store → Type 0 = λ i t. is_directory i ≡ true in
    ask_step Nothing Q (disk_os.fstat fd after).0 _ after s tt (λ i k.
      guard_step Nothing Q (check_private 0 i) permission _ after s tt (λ h.
        guard_step Nothing Q (before.identity == i.identity) permission _ after s tt
          (λ h. named_lem path w fd i n e k)))

-- only directories are made
made_name : (path : Bytes) (w : Disk) → (disk_os.mkdir path w).0 ≡ [] → is_file_name path ≡ false
made_name path w h = ground arith

directories_lem : MakesDirectories disk_os
unfolding open_verified verify
directories_lem path start_world s h =
    step Nothing (λ a. Nothing) IsFolder _ _
      (checked_stat-Keeps disk_os Nothing path (disk_os.mkdir path start_world).1 s tt)
      (λ before w s q.
        ask_step Nothing IsFolder (disk_os.open_file path read_only_flags w).0 _
          (disk_os.open_file path read_only_flags w).1 s tt
          (λ fd e.
            step Nothing (Attempted Nothing (λ i t. is_directory i ≡ true)) IsFolder _ _
              (attempt-Post Nothing (λ i t. is_directory i ≡ true) _
                (verified_folder path w s before fd e (made_name path start_world h)))
              (λ r w s q.
                step Nothing (λ i t. is_directory i ≡ true) IsFolder _ _ (kept_folder fd r w s q)
                  (λ i w s q. q))))

pub disk_os-IsMaker : IsMaker disk_os
disk_os-IsMaker = record { files = files_lem; directories = directories_lem }
