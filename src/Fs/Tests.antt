-- ===== src/Fs/Tests.antt =====
-- A small disk, packed and read again, and the theorems at it.
use doomkernel.Prelude.{
  ap, ℕ, ◌+◌, ◌-◌, ◌*◌, ◌≡◌, ◌≢◌, refl, false, Option, none, some, List, [], ◌∷◌, arith, length,
  get_or, leb, ◌==◌, if◌then◌else◌,
}
use doomkernel.Memory.{Memory, load8}
use doomkernel.Fs.{
  Fs, size, fs_init, fs_read, fs_get_data, File, name_field, bytes_le, write_entry, write_entries,
  write_contents, write_image, magic, open_all, pack,
}
use doomkernel.Fs.Image.{Held, holds→Held, length-name_field}
use doomkernel.Fs.Lookup.{NoneNamed}
use doomkernel.Fs.Roundtrip.{Fits, fs_read-missing}
use doomkernel.Fs.Pack.{pack-fs_read}

-- "d/a" and "b"
abbrev first : List ℕ
first = b'd' ∷ b'/' ∷ b'a' ∷ []

abbrev second : List ℕ
second = b'b' ∷ []

abbrev disk : List ℕ → Option (List ℕ)
disk [] = none
disk (c ∷ cs) = if c == b'd' then some (7 ∷ 8 ∷ []) else some (9 ∷ [])

abbrev files : List File
files =
    record { path = first; content = 7 ∷ 8 ∷ [] } ∷ record { path = second; content = 9 ∷ [] } ∷ []

abbrev image : List ℕ
image = write_image files

-- the image at 1000, the literal at 2000, a name at 3000 and one of no file at 4000
abbrev memory : Memory
memory = λ x.
    if leb 4000 x
    then get_or (name_field (b'c' ∷ [])) (x - 4000) 0
    else if leb 3000 x
    then get_or (name_field second) (x - 3000) 0
    else if leb 2000 x
    then get_or magic (x - 2000) 0
    else get_or image (x - 1000) 0

abbrev no_fs : Fs
no_fs = record { fs_entries = 0; fs_data = 0; fs_file_count = 0 }

packs : pack disk (first ∷ second ∷ []) ≡ some image
unfolding pack open_all
packs = refl

image-Held : Held memory 1000 image
unfolding load8 write_image write_entries write_entry write_contents bytes_le name_field
image-Held = holds→Held memory 1000 image refl

magic-Held : Held memory 2000 magic
unfolding load8
magic-Held = holds→Held memory 2000 magic refl

name-Held : Held memory 3000 (name_field second)
unfolding load8 name_field
name-Held = holds→Held memory 3000 (name_field second) refl

missing-Held : Held memory 4000 (name_field (b'c' ∷ []))
unfolding load8 name_field
missing-Held = holds→Held memory 4000 (name_field (b'c' ∷ [])) refl

other_name :
    (path field : List ℕ)
    → (get_or (name_field path) 0 0 == get_or (name_field field) 0 0) ≡ false
    → name_field path ≢ name_field field
other_name path field d e =
    go (get_or (name_field path) 0 0) (get_or (name_field field) 0 0) d
      (ap (λ (l : List ℕ). get_or l 0 0) e)
  where
    go : (x y : ℕ) → (x == y) ≡ false → x ≡ y → ⊥
    go x y f g = ground arith

image_size : length image ≡ 91
unfolding write_image write_entries write_entry write_contents bytes_le name_field
image_size = refl

files-Fits : Fits 1000 files
unfolding write_contents
files-Fits = record {
  start_pos = omega arith;
  count = omega arith;
  bytes = omega arith;
  room = omega arith;
}

none_missing : NoneNamed (name_field (b'c' ∷ [])) files
unfolding name_field
none_missing = (other_name first (b'c' ∷ []) refl, (other_name second (b'c' ∷ []) refl, tt))

first_other : name_field first ≢ name_field second
unfolding name_field
first_other = other_name first second refl

pack-fs_read_example :
    let s = fs_init no_fs memory 2000 1000 in
    let e = fs_read s memory 3000 in
    (content : List ℕ) × (disk second ≡ some content)
    × (e ≡ 1000 + 8 + 1 * 40)
    × (size memory e ≡ length content)
    × Held memory (fs_get_data s memory e) content
pack-fs_read_example =
    pack-fs_read disk (first ∷ []) second [] image memory 1000 2000 3000 no_fs packs
      (omega (arith, image_size)) (omega arith) (omega (arith, image_size)) (first_other, tt)
      image-Held magic-Held name-Held

fs_read-missing_example : fs_read (fs_init no_fs memory 2000 1000) memory 4000 ≡ 0
fs_read-missing_example =
    fs_read-missing memory 1000 2000 4000 no_fs files (name_field (b'c' ∷ [])) image-Held magic-Held
      missing-Held (length-name_field (b'c' ∷ [])) files-Fits none_missing
