-- ===== src/Fs/Pack.antt =====
-- tools/pack_initrd.c and kernel/fs/fs.c end to end.
use mathlib.Core.Path.{subst}
use doomkernel.Prelude.{
  ℕ, suc, ◌+◌, ◌*◌, ◌^◌, ◌<◌, ◌≡◌, ◌≢◌, refl, sym, ap, ◌∙◌, Option, none, some, List, [], ◌∷◌, ◌++◌,
  arith, length, length-append, ◌>>=◌,
}
use doomkernel.Memory.{Memory}
use doomkernel.Fs.{
  Fs, size, fs_init, fs_read, fs_get_data, File, name_field, bytes_le, write_entries,
  write_contents, write_image, magic, open_all, pack,
}
use doomkernel.Fs.Image.{Held, length-bytes_le, length-write_entries}
use doomkernel.Fs.Lookup.{NoneNamed}
use doomkernel.Fs.Roundtrip.{fs_read-write_image}

-- the files of a list are the ones at the paths
abbrev AreOpened : (List ℕ → Option (List ℕ)) → List (List ℕ) → List File → Type 0
AreOpened disk [] [] = Unit
AreOpened disk [] (f ∷ fs) = ⊥
AreOpened disk (path ∷ paths) [] = ⊥
AreOpened disk (path ∷ paths) (f ∷ fs) =
    (f.path ≡ path) × (disk path ≡ some f.content) × AreOpened disk paths fs

files_of : Option (List File) → List File
files_of none = []
files_of (some fs) = fs

opened :
    (disk : List ℕ → Option (List ℕ)) (path : List ℕ) (paths : List (List ℕ)) (fs : List File)
    (o : Option (List ℕ)) (r : Option (List File))
    → disk path ≡ o
    → ((rest : List File) → r ≡ some rest → AreOpened disk paths rest)
    → (o >>= (λ content. r >>= (λ rest. some (record { path = path; content = content } ∷ rest))))
      ≡ some fs
    → AreOpened disk (path ∷ paths) fs
unfolding files_of
opened disk path paths fs none r d rec e = absurd (cc)
opened disk path paths fs (some content) none d rec e = absurd (cc)
opened disk path paths fs (some content) (some rest) d rec e =
    subst (AreOpened disk (path ∷ paths)) (ap files_of e) (refl, d, rec rest refl)

open_all_lem :
    (disk : List ℕ → Option (List ℕ)) (paths : List (List ℕ)) (fs : List File)
    → open_all disk paths ≡ some fs
    → AreOpened disk paths fs
unfolding open_all files_of
open_all_lem disk [] fs e = subst (AreOpened disk []) (ap files_of e) tt
open_all_lem disk (path ∷ paths) fs e =
    opened disk path paths fs (disk path) (open_all disk paths) refl
      (λ rest. open_all_lem disk paths rest) e

pack_image :
    (disk : List ℕ → Option (List ℕ)) (paths : List (List ℕ)) (image : List ℕ)
    → pack disk paths ≡ some image
    → (fs : List File) × AreOpened disk paths fs × (write_image fs ≡ image)
unfolding pack
pack_image disk [] image e = absurd (cc)
pack_image disk (path ∷ paths) image e = go (open_all disk (path ∷ paths)) refl e
  where
    image_of : Option (List ℕ) → List ℕ
    image_of none = []
    image_of (some i) = i

    go :
        (r : Option (List File))
        → open_all disk (path ∷ paths) ≡ r
        → (r >>= (λ fs. some (write_image fs))) ≡ some image
        → (fs : List File) × AreOpened disk (path ∷ paths) fs × (write_image fs ≡ image)
    go none q e = absurd (cc)
    go (some fs) q e = (fs, open_all_lem disk (path ∷ paths) fs q, ap image_of e)

-- none of the paths has the name `field` in the image
abbrev pub NotNamed : List ℕ → List (List ℕ) → Type 0
NotNamed field [] = Unit
NotNamed field (path ∷ paths) = (name_field path ≢ field) × NotNamed field paths

-- the file of one of the paths, between those of the others
opened_split :
    (disk : List ℕ → Option (List ℕ)) (before : List (List ℕ)) (path : List ℕ)
    (after : List (List ℕ)) (field : List ℕ) (fs : List File)
    → AreOpened disk (before ++ path ∷ after) fs
    → NotNamed field before
    → (pre : List File) × (f : File) × (post : List File) × (fs ≡ pre ++ f ∷ post)
      × (f.path ≡ path)
      × (disk path ≡ some f.content)
      × (length pre ≡ length before)
      × NoneNamed field pre
opened_split disk [] path after field [] o n = absurd o
opened_split disk [] path after field (f ∷ fs) (e, d, o) n = ([], f, fs, refl, e, d, refl, tt)
opened_split disk (p ∷ before) path after field [] o n = absurd o
opened_split disk (p ∷ before) path after field (g ∷ fs) (e, d, o) (ne, n) =
    let (pre, f, post, x, y, z, l, w) = opened_split disk before path after field fs o n in
    (
      g ∷ pre,
      f,
      post,
      ap (λ (t : List File). g ∷ t) x,
      y,
      z,
      ap suc l,
      ((λ q. ne (ap name_field (sym e) ∙ q)), w),
    )

length-write_image :
    (fs : List File) → length (write_image fs) ≡ 8 + length fs * 40 + length (write_contents fs)
unfolding write_image
length-write_image fs = omega (
  arith,
  length-append magic (bytes_le 4 (length fs) ++ (write_entries 0 fs ++ write_contents fs)),
  length-append (bytes_le 4 (length fs)) (write_entries 0 fs ++ write_contents fs),
  length-append (write_entries 0 fs) (write_contents fs),
  length-bytes_le 4 (length fs),
  length-write_entries 0 fs,
)

-- The packer, run on paths of files that it can open, writes an image of less than 2 ^ 32 bytes, which
-- stands at `a`, not 0, below the end of the address space. Then `fs_init` and `fs_read`, asked for the name of one of the files, the
-- first with that name, find its entry, with the size of the file, and `fs_get_data` points to a
-- copy of its bytes.
pub pack-fs_read :
    (disk : List ℕ → Option (List ℕ)) (before : List (List ℕ)) (path : List ℕ)
    (after : List (List ℕ)) (image : List ℕ) (m : Memory) (a dfs1 name : ℕ) (fs0 : Fs)
    → pack disk (before ++ path ∷ after) ≡ some image
    → length image < 2 ^ 32
    → 0 < a
    → a + length image < 2 ^ 64
    → NotNamed (name_field path) before
    → Held m a image
    → Held m dfs1 magic
    → Held m name (name_field path)
    → let s = fs_init fs0 m dfs1 a in
      let e = fs_read s m name in
      (content : List ℕ) × (disk path ≡ some content)
      × (e ≡ a + 8 + length before * 40)
      × (size m e ≡ length content)
      × Held m (fs_get_data s m e) content
pack-fs_read disk before path after image m a dfs1 name fs0 p small pos room first held lit hn =
    let (fs, o, w) = pack_image disk (before ++ path ∷ after) image p in
    let (pre, f, post, x, y, d, l, n) =
      opened_split disk before path after (name_field path) fs o first in
    let v : write_image (pre ++ f ∷ post) ≡ image = ap write_image (sym x) ∙ w in
    let len : length image
        ≡ 8 + length (pre ++ f ∷ post) * 40 + length (write_contents (pre ++ f ∷ post)) =
      ap length (sym v) ∙ length-write_image (pre ++ f ∷ post) in
    let (e, s, c) =
      fs_read-write_image m a dfs1 name fs0 pre f post (subst (Held m a) (sym v) held) lit
        (subst (Held m name) (ap name_field (sym y)) hn)
        (record { start_pos = pos; count = omega arith; bytes = omega arith; room = omega arith })
        (subst (λ (t : List ℕ). NoneNamed t pre) (ap name_field (sym y)) n) in
    (f.content, d, e ∙ omega arith, s, c)
