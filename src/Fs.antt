-- ===== src/Fs.antt =====
-- kernel/fs/fs.c: the initial ram disk that the boot loader leaves in memory, a header, a table of
-- entries of 40 bytes and the bytes of the files; and tools/pack_initrd.c, which makes the image.
pub mod Image
pub mod Lookup
pub mod Roundtrip
pub mod Pack
mod Tests
use doomkernel.Prelude.{
  ℕ, zero, suc, ◌+◌, ◌-◌, ◌*◌, ◌/◌, ◌%◌, ◌^◌, Bool, true, false, Option, none, some, List, [], ◌∷◌,
  ◌++◌, ◌==◌, if◌then◌else◌, length, take, replicate, ◌>>=◌,
}
use doomkernel.Prelude.Int.{ℤ, pos, negsuc}
use doomkernel.Memory.{Memory, add64, load_le}
use doomkernel.Str.{memcmp}

pub record Fs : Type 0 where
  pub fs_entries : ℕ
  pub fs_data : ℕ
  pub fs_file_count : ℕ

-- the test `== 0` on a result of `memcmp`
abbrev pub is_zero : ℤ → Bool
is_zero (pos zero) = true
is_zero (pos (suc n)) = false
is_zero (negsuc n) = false

abbrev pub sizeof_header : ℕ
sizeof_header = 8

abbrev pub sizeof_entry : ℕ
sizeof_entry = 40

-- the fields of an `initrd_entry_t` behind its name
unfoldable pub offset : Memory → ℕ → ℕ
offset m entry = load_le 4 m (add64 entry 32)

unfoldable pub size : Memory → ℕ → ℕ
size m entry = load_le 4 m (add64 entry 36)

-- `dfs1` is the address of the literal "DFS1".
unfoldable pub fs_init : Fs → Memory → ℕ → ℕ → Fs
fs_init fs m dfs1 initrd_addr =
    let count = load_le 4 m (add64 initrd_addr 4) in
    let entries = add64 initrd_addr sizeof_header in
    if is_zero (memcmp m initrd_addr dfs1 4)
    then record {
      fs_entries = entries;
      fs_data = add64 entries (count * sizeof_entry);
      fs_file_count = count;
    }
    else record fs { fs_file_count = 0 }

-- the loop of `fs_read`, by the rounds left; 0 is NULL
unfoldable pub read_loop : ℕ → Memory → ℕ → ℕ → ℕ
read_loop zero m name current = 0
read_loop (suc n) m name current =
    let rest = read_loop n m name (add64 current sizeof_entry) in
    if is_zero (memcmp m current name 32) then current else rest

unfoldable pub fs_read : Fs → Memory → ℕ → ℕ
unfolding read_loop
fs_read fs m name = read_loop fs.fs_file_count m name fs.fs_entries

unfoldable pub fs_get_data : Fs → Memory → ℕ → ℕ
unfolding offset
fs_get_data fs m entry = add64 fs.fs_data (offset m entry)

-- a file that the packer is given
pub record File : Type 0 where
  pub path : List ℕ
  pub content : List ℕ

-- what stands behind the last slash: `strrchr(path, '/')`
abbrev pub after_slash : List ℕ → Option (List ℕ)
after_slash [] = none
after_slash (c ∷ cs) = elim (after_slash cs) [
  | some rest ↦ some rest
  | none ↦ if c == b'/' then some cs else none
]

abbrev pub base_name : List ℕ → List ℕ
base_name path = elim (after_slash path) [ none ↦ path | some base ↦ base ]

-- `strncpy` of 31 bytes to a name field of zeros
unfoldable pub name_field : List ℕ → List ℕ
name_field path = let name = take 31 (base_name path) in name ++ replicate (32 - length name) 0

-- an integer as the `n` bytes that are written, the low byte first
unfoldable pub bytes_le : ℕ → ℕ → List ℕ
bytes_le zero v = []
bytes_le (suc n) v = v % 256 ∷ bytes_le n (v / 256)

unfoldable pub write_entry : ℕ → File → List ℕ
write_entry running_offset f =
    name_field f.path ++ (bytes_le 4 running_offset ++ bytes_le 4 (length f.content % 2 ^ 32))

unfoldable pub write_entries : ℕ → List File → List ℕ
write_entries running_offset [] = []
write_entries running_offset (f ∷ fs) =
    write_entry running_offset f
    ++ write_entries ((running_offset + length f.content % 2 ^ 32) % 2 ^ 32) fs

unfoldable pub write_contents : List File → List ℕ
write_contents [] = []
write_contents (f ∷ fs) = f.content ++ write_contents fs

abbrev pub magic : List ℕ
magic = b'D' ∷ b'F' ∷ b'S' ∷ b'1' ∷ []

unfoldable pub write_image : List File → List ℕ
write_image fs = magic ++ (bytes_le 4 (length fs) ++ (write_entries 0 fs ++ write_contents fs))

-- the first loop: the files are opened, and a file that cannot be opened ends the packer
unfoldable pub open_all : (List ℕ → Option (List ℕ)) → List (List ℕ) → Option (List File)
open_all disk [] = some []
open_all disk (path ∷ paths) = do
  content ← disk path
  rest ← open_all disk paths
  some (record { path = path; content = content } ∷ rest)

-- `main`, for the files that are named on the command line; `none` is the exit status 1.
unfoldable pub pack : (List ℕ → Option (List ℕ)) → List (List ℕ) → Option (List ℕ)
unfolding open_all write_image
pack disk [] = none
pack disk (path ∷ paths) = do fs ← open_all disk (path ∷ paths); some (write_image fs)
