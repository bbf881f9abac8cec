-- ===== src/Fs/Roundtrip.antt =====
-- What the packer wrote is what the kernel reads.
use mathlib.Core.Path.{subst}
use doomkernel.Prelude.{
  true, ℕ, ◌+◌, ◌*◌, ◌%◌, ◌^◌, ◌≤◌, ◌<◌, ◌≡◌, refl, sym, ap, ◌∙◌, List, [], ◌∷◌, ◌++◌, arith,
  length, length-append,
}
use doomkernel.Memory.{Memory, add64, load_le}
use doomkernel.Str.{memcmp}
use doomkernel.Fs.{
  is_zero, Fs, offset, size, fs_init, fs_read, fs_get_data, File, name_field, bytes_le, write_entry,
  write_entries, write_contents, write_image, magic,
}
use doomkernel.Fs.Image.{
  Held, Held-append, load-bytes_le, length-bytes_le, length-name_field, length-write_entries,
}
use doomkernel.Fs.Lookup.{memcmp-same, offset_after, NoneNamed, read_loop-finds, read_loop-misses}

-- the image of the files at `a` fits the numbers of its format and the address space
pub record Fits (a : ℕ) (fs : List File) : Type 0 where
  pub start_pos : 0 < a
  pub count : length fs < 2 ^ 32
  pub bytes : length (write_contents fs) < 2 ^ 32
  pub room : a + 8 + length fs * 40 + length (write_contents fs) < 2 ^ 64

offset_after_lem :
    (o : ℕ) (fs : List File)
    → o + length (write_contents fs) < 2 ^ 32
    → offset_after o fs ≡ o + length (write_contents fs)
unfolding write_contents
offset_after_lem o [] h = omega arith
offset_after_lem o (f ∷ fs) h =
    let n = length-append f.content (write_contents fs) in
    let k : (o + length f.content % 2 ^ 32) % 2 ^ 32 ≡ o + length f.content = omega (arith, n) in
    ap (λ (t : ℕ). offset_after t fs) k
    ∙ offset_after_lem (o + length f.content) fs (omega (arith, n))
    ∙ omega (arith, n)

contents_of :
    (m : Memory) (d : ℕ) (pre : List File) (f : File) (post : List File)
    → Held m d (write_contents (pre ++ f ∷ post))
    → Held m (d + length (write_contents pre)) f.content
      × (length (write_contents pre) + length f.content ≤ length (write_contents (pre ++ f ∷ post)))
unfolding write_contents
contents_of m d [] f post h = (
  subst (λ (t : ℕ). Held m t f.content) (omega arith)
      (Held-append m d f.content (write_contents post) h).0,
  omega (arith, length-append f.content (write_contents post)),
)
contents_of m d (g ∷ pre) f post h =
    let (x, y) = Held-append m d g.content (write_contents (pre ++ f ∷ post)) h in
    let (z, le) = contents_of m (d + length g.content) pre f post y in
    (
      subst (λ (t : ℕ). Held m t f.content)
          (omega (arith, length-append g.content (write_contents pre))) z,
      omega (
        arith,
        le,
        length-append g.content (write_contents pre),
        length-append g.content (write_contents (pre ++ f ∷ post)),
      ),
    )

entry_fields :
    (m : Memory) (e o : ℕ) (f : File)
    → Held m e (write_entry o f)
    → o < 2 ^ 32
    → length f.content < 2 ^ 32
    → e + 40 < 2 ^ 64
    → (offset m e ≡ o) × (size m e ≡ length f.content)
unfolding write_entry offset size
entry_fields m e o f h ho hl room =
    let len = length f.content % 2 ^ 32 in
    let (x, y) = Held-append m e (name_field f.path) (bytes_le 4 o ++ bytes_le 4 len) h in
    let (u, w) = Held-append m (e + length (name_field f.path)) (bytes_le 4 o) (bytes_le 4 len) y in
    let p : e + length (name_field f.path) ≡ add64 e 32 = omega (arith, length-name_field f.path) in
    let q : e + length (name_field f.path) + length (bytes_le 4 o) ≡ add64 e 36 =
      omega (arith, length-name_field f.path, length-bytes_le 4 o) in
    (
      load-bytes_le 4 m (add64 e 32) o ho (subst (λ (t : ℕ). Held m t (bytes_le 4 o)) p u),
      load-bytes_le 4 m (add64 e 36) len (omega arith)
            (subst (λ (t : ℕ). Held m t (bytes_le 4 len)) q w)
          ∙ omega arith,
    )

-- the file system that `fs_init` makes of an image
module _ (m : Memory) (a dfs1 : ℕ) (fs : List File) (h : Held m a (write_image fs))
    (lit : Held m dfs1 magic) (ok : Fits a fs) where
  -- The image starts with the four bytes that `fs_init` looks for.
  pub write_image-magic : is_zero (memcmp m a dfs1 4) ≡ true
  unfolding write_image
  write_image-magic =
      let (x, y) = Held-append m a magic _ h in
      memcmp-same m a dfs1 magic magic 4 x lit refl refl refl

  pub mounted :
      (fs0 : Fs)
      → fs_init fs0 m dfs1 a
        ≡ record { fs_entries = a + 8; fs_data = a + 8 + length fs * 40; fs_file_count = length fs }
  unfolding fs_init write_image
  mounted fs0 =
      let (x, y) = Held-append m a magic _ h in
      let (z, w) = Held-append m (a + 4) (bytes_le 4 (length fs)) _ y in
      let four : add64 a 4 ≡ a + 4 = omega (arith, ok.room) in
      let eight : add64 a 8 ≡ a + 8 = omega (arith, ok.room) in
      let n : load_le 4 m (a + 4) ≡ length fs = load-bytes_le 4 m (a + 4) (length fs) ok.count z in
      let d : add64 (a + 8) (length fs * 40) ≡ a + 8 + length fs * 40 = omega (arith, ok.room) in
      rw (write_image-magic, four, eight, n, d) refl

  tables : Held m (a + 8) (write_entries 0 fs) × Held m (a + 8 + length fs * 40) (write_contents fs)
  unfolding write_image
  tables =
      let (x, y) = Held-append m a magic _ h in
      let (z, w) = Held-append m (a + 4) (bytes_le 4 (length fs)) _ y in
      let (u, v) =
        Held-append m (a + 4 + length (bytes_le 4 (length fs))) (write_entries 0 fs)
          (write_contents fs) w in
      let k = length-bytes_le 4 (length fs) in
      (
        subst (λ (t : ℕ). Held m t (write_entries 0 fs)) (omega (arith, k)) u,
        subst (λ (t : ℕ). Held m t (write_contents fs))
            (omega (arith, k, length-write_entries 0 fs)) v,
      )

-- The image of the packer at `a`: the kernel finds the first file with the name asked for, in the 32
-- bytes of an entry's name, with its size, and `fs_get_data` points to its bytes.
pub fs_read-write_image :
    (m : Memory) (a dfs1 name : ℕ) (fs0 : Fs) (pre : List File) (f : File) (post : List File)
    → Held m a (write_image (pre ++ f ∷ post))
    → Held m dfs1 magic
    → Held m name (name_field f.path)
    → Fits a (pre ++ f ∷ post)
    → NoneNamed (name_field f.path) pre
    → let s = fs_init fs0 m dfs1 a in
      let e = fs_read s m name in
      (e ≡ a + 8 + length pre * 40)
      × (size m e ≡ length f.content)
      × Held m (fs_get_data s m e) f.content
unfolding fs_read fs_get_data
fs_read-write_image m a dfs1 name fs0 pre f post h lit hn ok first =
    let fs = pre ++ f ∷ post in
    let (x, y) = tables m a dfs1 fs h lit ok in
    let len = length-append pre (f ∷ post) in
    let (found, here) =
      read_loop-finds pre f post m name (a + 8) 0 x hn first (omega (arith, ok.room, len)) in
    let (bytes_held, le) = contents_of m (a + 8 + length fs * 40) pre f post y in
    let o = offset_after_lem 0 pre (omega (arith, ok.bytes, le)) in
    let (e1, e2) =
      entry_fields m (a + 8 + length pre * 40) (offset_after 0 pre) f here
        (omega (arith, o, ok.bytes, le)) (omega (arith, ok.bytes, le))
        (omega (arith, ok.room, len)) in
    let d : add64 (a + 8 + length fs * 40) (offset_after 0 pre)
        ≡ a + 8 + length fs * 40 + length (write_contents pre) =
      omega (arith, o, ok.room, le) in
    rw (mounted m a dfs1 fs h lit ok fs0) (
      rw found (
        refl,
        e2,
        subst (λ (t : ℕ). Held m t f.content) (sym (ap (add64 (a + 8 + length fs * 40)) e1 ∙ d))
            bytes_held,
      ))

-- If no file of the image has the name asked for, `fs_read` returns NULL.
pub fs_read-missing :
    (m : Memory) (a dfs1 name : ℕ) (fs0 : Fs) (fs : List File) (field : List ℕ)
    → Held m a (write_image fs)
    → Held m dfs1 magic
    → Held m name field
    → length field ≡ 32
    → Fits a fs
    → NoneNamed field fs
    → fs_read (fs_init fs0 m dfs1 a) m name ≡ 0
unfolding fs_read
fs_read-missing m a dfs1 name fs0 fs field h lit hn l ok none_named =
    rw (mounted m a dfs1 fs h lit ok fs0) (
      read_loop-misses fs field m name (a + 8) 0 (tables m a dfs1 fs h lit ok).0 hn l none_named
        (omega (arith, ok.room)))

-- The entry that is found has the name that was asked for.
pub fs_read-name :
    (m : Memory) (a dfs1 name : ℕ) (fs0 : Fs) (pre : List File) (f : File) (post : List File)
    → Held m a (write_image (pre ++ f ∷ post))
    → Held m dfs1 magic
    → Held m name (name_field f.path)
    → Fits a (pre ++ f ∷ post)
    → NoneNamed (name_field f.path) pre
    → Held m (fs_read (fs_init fs0 m dfs1 a) m name) (name_field f.path)
unfolding write_entry
fs_read-name m a dfs1 name fs0 pre f post h lit hn ok first =
    let fs = pre ++ f ∷ post in
    let len = length-append pre (f ∷ post) in
    let (found, here) =
      read_loop-finds pre f post m name (a + 8) 0 (tables m a dfs1 fs h lit ok).0 hn first
        (omega (arith, ok.room, len)) in
    let (at, size_is, bytes) = fs_read-write_image m a dfs1 name fs0 pre f post h lit hn ok first in
    subst (λ (e : ℕ). Held m e (name_field f.path)) (sym at)
      (Held-append m (a + 8 + length pre * 40) (name_field f.path)
        (bytes_le 4 (offset_after 0 pre) ++ bytes_le 4 (length f.content % 2 ^ 32)) here).0
