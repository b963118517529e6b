-- ===== src/Overlay.antt =====
-- internal/overlay/store.go and internal/overlay/file.go, the build for Unix: the state of a store of
-- local dot-directories, and the interface to the operating system. An entry is named by its path:
-- Go's pointers to entries are paths here, and `Rename` moves no entry that a file is open on.
use fabric_workspace_fs.Prelude.{
  ℕ, Bool, true, false, not, ◌&&◌, ◌||◌, Option, none, some, List, [], ◌∷◌, ◌++◌, if◌then◌else◌,
}
pub mod Paths
pub mod Access
pub mod Naming
pub mod Directories
pub mod Files
pub mod Lifecycle
pub mod Logic
pub mod Neutral
pub mod Quota
pub mod Entries
pub mod Sound
pub mod Opening
pub mod Creating
pub mod Removal
pub mod Making
pub mod Listing
pub mod Moving
pub mod Renaming
pub mod Scanning
pub mod Closing
pub mod Privacy
pub mod Places
pub mod Depth
pub mod Accounting
mod Disk
mod Examples
use fabric_workspace_fs.Prelude.Int.{ℤ}
use fabric_workspace_fs.Errors.{Error, exist, not_exist}
use fabric_workspace_fs.Bytes.{Bytes}
use fabric_workspace_fs.Tables.{Table}

pub record Location : Type 0 where
  pub workspace : Bytes
  pub parent : Bytes
  pub relative : Bytes

pub data Mode : Type 0 where
  directory regular link special : Mode

-- `fs.FileInfo`: `permissions` are the bits with those of setuid, setgid and the sticky bit, and
-- `identity` is what `os.SameFile` compares
pub record Info : Type 0 where
  pub mode : Mode
  pub permissions : ℕ
  pub uid : ℕ
  pub links : ℕ
  pub size : ℤ
  pub mod_time : ℕ
  pub identity : ℕ

abbrev pub is_dir : Mode → Bool
is_dir directory = true
is_dir regular = false
is_dir link = false
is_dir special = false

-- `Info`, what `List` and `Stat` return
pub record Description : Type 0 where
  pub path : Bytes
  pub info : Info

pub record Options : Type 0 where
  pub max_file_size : ℕ
  pub max_bytes : ℕ
  pub max_entries : ℕ

-- `entry`, without its path; the size of a directory is never read
pub record Node : Type 0 where
  pub info : Info
  pub size : ℕ

-- `File`; `fd` is the `os.File`
pub record File : Type 0 where
  pub id : ℕ
  pub fd : ℕ
  pub path : Bytes
  pub readable : Bool
  pub writable : Bool
  pub append : Bool
  pub closed : Bool
  pub close_err : List Error

-- `files` holds the files that were handed out; `handles` of the source are those not closed.
pub record Store : Type 0 where
  pub options : Options
  pub total_bytes : ℕ
  pub entry_count : ℕ
  pub entries : Table Node
  pub containers : Table Info
  pub workspaces : ℕ
  pub scopes : ℕ
  pub files : List File
  pub next_file : ℕ
  pub closed : Bool
  pub close_err : List Error
  pub poison : Option (List Error)

-- A Go function with an error: the list is that of the errors that `errors.Join` joins.
pub data Reply {ℓ} (Value : Type ℓ) : Type ℓ where
  failed : List Error → Reply Value
  value : Value → Reply Value

-- `errors.Is`
abbrev pub is_not_exist : List Error → Bool
is_not_exist [] = false
is_not_exist (not_exist ∷ es) = true
is_not_exist (_ ∷ es) = is_not_exist es

-- one result of `Readdirnames(1)`
pub data NameRead : Type 0 where
  name : Bytes → NameRead
  no_more : NameRead
  broken : List Error → NameRead

-- the flags of an open: `other` are bits that no case allows
pub record Flags : Type 0 where
  pub write_only : Bool
  pub read_write : Bool
  pub append : Bool
  pub truncate : Bool
  pub sync : Bool
  pub create : Bool
  pub exclusive : Bool
  pub other : Bool

-- The operating system and the caller's context, over an unknown state of the world. A list of
-- errors is empty on success.
pub record Os : Type 1 where
  pub World : Type 0
  pub euid : ℕ
  pub context_err : World → List Error × World
  pub lstat : Bytes → World → Reply Info × World
  pub open_file : Bytes → Flags → World → Reply ℕ × World
  pub fstat : ℕ → World → Reply Info × World
  pub close : ℕ → World → List Error × World
  pub mkdir : Bytes → World → List Error × World
  pub remove : Bytes → World → List Error × World
  pub rename : Bytes → Bytes → World → List Error × World
  pub read_name : ℕ → World → NameRead × World
  pub read_at : ℕ → ℕ → ℕ → World → (Bytes × List Error) × World
  pub write : ℕ → Bytes → World → (ℕ × List Error) × World
  pub write_at : ℕ → Bytes → ℕ → World → (ℕ × List Error) × World
  pub truncate : ℕ → ℕ → World → List Error × World
  pub sync : ℕ → World → List Error × World
  pub close_root : World → List Error × World

-- what an operation leaves: its reply, and the world and the store after it
pub data Outcome (World : Type 0) (Value : Type 0) : Type 0 where
  done : Reply Value → World → Store → Outcome World Value

abbrev pub continue :
    {World Value Next : Type 0}
    → Outcome World Value
    → (Value → World → Store → Outcome World Next)
    → Outcome World Next
continue (done (failed e) w s) rest = done (failed e) w s
continue (done (value a) w s) rest = rest a w s

-- a section under the lock of the store
abbrev pub M : Type 0 → Type 0 → Type 0
M World Value = World → Store → Outcome World Value

infixl 10 ◌>>=◌ ◌>>◌
abbrev pub ◌>>=◌ :
    {World Value Next : Type 0} → M World Value → (Value → M World Next) → M World Next
◌>>=◌ m rest w s = continue (m w s) rest

abbrev pub ◌>>◌ : {World Next : Type 0} → M World (Unit {0}) → M World Next → M World Next
◌>>◌ m rest w s = continue (m w s) (λ _. rest)

abbrev pub pure : {World Value : Type 0} → Value → M World Value
pure a w s = done (value a) w s

abbrev pub fail : {World Value : Type 0} → List Error → M World Value
fail e w s = done (failed e) w s

abbrev pub lift : {World Value : Type 0} → Reply Value → M World Value
lift r w s = done r w s

abbrev pub when_ok : {World : Type 0} → List Error → M World (Unit {0})
when_ok [] w s = done (value tt) w s
when_ok (e ∷ es) w s = done (failed (e ∷ es)) w s

-- `if !b { return err }`
abbrev pub guard : {World : Type 0} → Bool → Error → M World (Unit {0})
guard true e w s = done (value tt) w s
guard false e w s = done (failed (e ∷ [])) w s

-- a call of the operating system, and one whose reply is an error or a value
abbrev pub call : {World Value : Type 0} → (World → Value × World) → M World Value
call f w s = done (value (f w).0) (f w).1 s

abbrev pub ask : {World Value : Type 0} → (World → Reply Value × World) → M World Value
ask f w s = done (f w).0 (f w).1 s

abbrev pub get_store : {World : Type 0} → M World Store
get_store w s = done (value s) w s

abbrev pub put_store : {World : Type 0} → Store → M World (Unit {0})
put_store t w s = done (value tt) w t

abbrev pub as_value : {World Value : Type 0} → Outcome World Value → Outcome World (Reply Value)
as_value (done r w s) = done (value r) w s

-- what became of an operation, as a value
abbrev pub attempt : {World Value : Type 0} → M World Value → M World (Reply Value)
attempt m w s = as_value (m w s)
