-- ===== src/Kernel/Files.antt =====
-- `filesystem_kernel` shows the file of the disk image.
use mathlib.Core.Path.{subst}
use doomkernel.Prelude.{
  ℕ, ◌+◌, ◌*◌, ◌^◌, ◌≤◌, ◌<◌, ◌≡◌, ◌⊎◌, refl, sym, ap, ◌∙◌, true, false, Option, some, List, [],
  ◌∷◌, ◌++◌, ◌==◌, length, length-append, codes, replicate, ◌>>=◌, if◌then◌else◌, arith,
}
use doomkernel.Memory.{Memory}
use doomkernel.Terminal.{Terminal}
use doomkernel.Printf.{word, text}
use doomkernel.Printf.Number.{hex_text}
use doomkernel.Printf.Hex.{read-hex_text}
use doomkernel.Printf.Render.{printf_convert, render}
use doomkernel.Printf.Rounds.{shown, shown-append}
use doomkernel.Str.{memcmp}
use doomkernel.Fs.{
  Fs, is_zero, size, fs_init, fs_read, fs_get_data, File, name_field, write_image, write_contents,
  magic,
}
use doomkernel.Fs.Image.{Held}
use doomkernel.Fs.Lookup.{NoneNamed}
use doomkernel.Fs.Roundtrip.{Fits, write_image-magic, mounted, fs_read-write_image, fs_read-name}
use doomkernel.User.{store_all}
use doomkernel.User.Message.{Held-store_all, AllBytes, all_bytes-AllBytes}
use doomkernel.Kernel.{
  say, doom_query, data_loop, mount_message, show_entry, not_found, filesystem_kernel,
}
use doomkernel.Kernel.Say.{say_lem, data_loop_lem}
use doomkernel.Kernel.Strings.{NonZero, non_zero-NonZero, c_string-Held, Held-apart}

-- the line of an entry, and all that is shown
abbrev pub listing : ℕ → List ℕ
listing n = codes "[fs] doom.txt with size = " ++ (hex_text n ++ codes "\n")

abbrev pub file_transcript : ℕ → List ℕ → List ℕ
file_transcript upper content =
    codes "******FILESYSTEM******\n"
    ++ (listing (length content + 2 ^ 32 * upper) ++ (content ++ codes "\n"))

listing-render :
    (n : ℕ)
    → render printf_convert false
        (codes "[fs] %s with size = %x\n")
        (text (codes "doom.txt") ∷ word n ∷ [])
      ≡ some (listing n)
unfolding render
listing-render n = refl

plain-render :
    render printf_convert false (codes "******FILESYSTEM******\n") []
    ≡ some (codes "******FILESYSTEM******\n")
unfolding render
plain-render = refl

newline-render : render printf_convert false (codes "\n") [] ≡ some (codes "\n")
unfolding render
newline-render = refl

length-listing : (n : ℕ) → n < 2 ^ 64 → length (listing n) ≤ 64
length-listing n h =
    let (value, short) = read-hex_text n h in
    omega (arith, length-append (hex_text n) (codes "\n"), short)

query_bytes : AllBytes doom_query
query_bytes = all_bytes-AllBytes doom_query refl

query_string : NonZero (codes "doom.txt")
query_string = non_zero-NonZero (codes "doom.txt") refl

module _ (upper : ℕ) (fs : Fs) (m : Memory) (entry : ℕ) (t : Terminal) (content : List ℕ) where
  show_entry_lem :
      upper < 2 ^ 32
      → length content < 2 ^ 32
      → Held m entry doom_query
      → size m entry ≡ length content
      → Held m (fs_get_data fs m entry) content
      → show_entry upper fs m entry t
        ≡ some (shown t (listing (length content + 2 ^ 32 * upper) ++ (content ++ codes "\n")))
  unfolding show_entry
  show_entry_lem u l named size_is held =
      let n = length content + 2 ^ 32 * upper in
      let a = fs_get_data fs m entry in
      let t1 = shown t (listing n) in
      rw
        (
          c_string-Held 32 m entry (codes "doom.txt") (replicate 23 0) (omega arith) query_string
              named,
          size_is,
        )
        (ap
            (λ (o : Option Terminal).
              o >>= λ t'. say (data_loop (length content) m a t') (codes "\n") [])
            (say_lem t _ (text (codes "doom.txt") ∷ word n ∷ []) (listing n) (listing-render n)
              (omega (arith, length-listing n (omega (arith, u, l)))))
          ∙ ap (λ (t' : Terminal). say t' (codes "\n") []) (data_loop_lem m a content t1 held)
          ∙ say_lem (shown t1 content) (codes "\n") [] (codes "\n") newline-render (omega arith)
          ∙ ap some (
              sym (shown-append t1 content (codes "\n"))
              ∙ sym (shown-append t (listing n) (content ++ codes "\n"))))

abbrev shown_files : Fs → Memory → Terminal → Option (Fs × Memory × Terminal)
shown_files fs m t = some (fs, m, t)

mount_message-valid :
    (m : Memory) (dfs1 a : ℕ) (t : Terminal)
    → is_zero (memcmp m a dfs1 4) ≡ true
    → mount_message m dfs1 a t ≡ some t
unfolding mount_message
mount_message-valid m dfs1 a t e = rw e refl

-- The steps behind `fs_read`, for an entry that it has found.
found_lem :
    (mount : Terminal → Option Terminal) (upper : ℕ) (fs : Fs) (m : Memory) (query entry : ℕ)
    (t : Terminal) (content : List ℕ)
    → ((t1 : Terminal) → mount t1 ≡ some t1)
    → upper < 2 ^ 32
    → length content < 2 ^ 32
    → 0 < entry
    → Held m entry doom_query
    → size m entry ≡ length content
    → Held m (fs_get_data fs m entry) content
    → (say t (codes "******FILESYSTEM******\n") [] >>= λ t1. mount t1 >>= λ t2.
        (if entry == 0 then not_found m query t2 else show_entry upper fs m entry t2) >>= λ t3.
        shown_files fs m t3)
      ≡ some (fs, m, shown t (file_transcript upper content))
found_lem mount upper fs m query entry t content mounts u l p named size_is held =
    let heading = codes "******FILESYSTEM******\n" in
    let found : (entry == 0) ≡ false = ground (arith, p) in
    let shows = listing (length content + 2 ^ 32 * upper) ++ (content ++ codes "\n") in
    rw (say_lem t heading [] heading plain-render (omega arith), mounts (shown t heading), found)
      (ap (λ (o : Option Terminal). o >>= λ t2. shown_files fs m t2)
          (show_entry_lem upper fs m entry (shown t heading) content u l named size_is held)
        ∙ ap (λ (t2 : Terminal). shown_files fs m t2) (sym (shown-append t heading shows)))

length_contents :
    (pre : List File) (f : File) (post : List File)
    → length f.content ≤ length (write_contents (pre ++ f ∷ post))
unfolding write_contents
length_contents [] f post = omega (arith, length-append f.content (write_contents post))
length_contents (g ∷ pre) f post =
    omega (
      arith,
      length_contents pre f post,
      length-append g.content (write_contents (pre ++ f ∷ post)),
    )

-- `filesystem_kernel` on an image of the packer that holds a file of the name "doom.txt", the first one
-- of that name, apart from its array on the stack and from the literal "DFS1": it ends, and shows
-- the heading, the name of the file, its size (with what stands in the upper half of the argument)
-- and its bytes.
pub filesystem_kernel_lem :
    (upper dfs1 query a : ℕ) (fs0 : Fs) (m : Memory) (t : Terminal) (pre : List File) (f : File)
    (post : List File)
    → upper < 2 ^ 32
    → Held m a (write_image (pre ++ f ∷ post))
    → Held m dfs1 magic
    → name_field f.path ≡ doom_query
    → Fits a (pre ++ f ∷ post)
    → NoneNamed doom_query pre
    → (a + length (write_image (pre ++ f ∷ post)) ≤ query) ⊎ (query + 32 ≤ a)
    → (dfs1 + 4 ≤ query) ⊎ (query + 32 ≤ dfs1)
    → filesystem_kernel upper dfs1 query a fs0 m t
      ≡ some (
        fs_init fs0 m dfs1 a,
        store_all m query doom_query,
        shown t (file_transcript upper f.content),
      )
unfolding filesystem_kernel
filesystem_kernel_lem upper dfs1 query a fs0 m t pre f post u image lit named ok first apart other =
    let fs = pre ++ f ∷ post in
    let m1 = store_all m query doom_query in
    let heading = codes "******FILESYSTEM******\n" in
    let image1 = Held-apart m query doom_query (write_image fs) a (omega (arith, apart)) image in
    let lit1 = Held-apart m query doom_query magic dfs1 (omega (arith, other)) lit in
    let asked : Held m1 query (name_field f.path) =
      subst (Held m1 query) (sym named) (Held-store_all m query doom_query query_bytes) in
    let none_named = subst (λ (n : List ℕ). NoneNamed n pre) (sym named) first in
    let same : fs_init fs0 m1 dfs1 a ≡ fs_init fs0 m dfs1 a =
      mounted m1 a dfs1 fs image1 lit1 ok fs0 ∙ sym (mounted m a dfs1 fs image lit ok fs0) in
    let (at, size_is, bytes) =
      fs_read-write_image m1 a dfs1 query fs0 pre f post image1 lit1 asked ok none_named in
    let entry_name = fs_read-name m1 a dfs1 query fs0 pre f post image1 lit1 asked ok none_named in
    let fs1 = fs_init fs0 m dfs1 a in
    let (at1, size1, bytes1, name1) =
      subst
        (λ (s : Fs).
          (fs_read s m1 query ≡ a + 8 + length pre * 40)
          × (size m1 (fs_read s m1 query) ≡ length f.content)
          × Held m1 (fs_get_data s m1 (fs_read s m1 query)) f.content
          × Held m1 (fs_read s m1 query) doom_query)
        same
        (
          at,
          size_is,
          bytes,
          subst (Held m1 (fs_read (fs_init fs0 m1 dfs1 a) m1 query)) named entry_name,
        ) in
    found_lem (mount_message m dfs1 a) upper fs1 m1 query (fs_read fs1 m1 query) t f.content
      (λ t1. mount_message-valid m dfs1 a t1 (write_image-magic m a dfs1 fs image lit ok)) u
      (omega (arith, ok.bytes, length_contents pre f post)) (omega (arith, at1, ok.start_pos)) name1
      size1 bytes1
