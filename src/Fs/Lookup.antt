-- ===== src/Fs/Lookup.antt =====
-- Reading the image again: `fs_init`, `fs_read` and `fs_get_data` on what the packer wrote.
use mathlib.Core.Path.{subst}
use doomkernel.Prelude.{
  ℕ, zero, suc, ◌+◌, ◌*◌, ◌%◌, ◌^◌, ◌<◌, ◌≡◌, ◌≢◌, refl, sym, ap, ◌∙◌, inl, inr, true, false,
  Bool-cases, List, [], ◌∷◌, ◌++◌, arith, length, get_or,
}
use doomkernel.Prelude.Int.{ℤ, pos, negsuc}
use doomkernel.Memory.{Memory, add64}
use doomkernel.Str.{memcmp}
use doomkernel.Str.Compare.{memcmp-zero_iff}
use doomkernel.Fs.{is_zero, read_loop, File, name_field, write_entry, write_entries}
use doomkernel.Fs.Image.{
  Held, Held-append, Held-get, same_lists, length-name_field, length-write_entry,
}

is_zero→zero : (z : ℤ) → is_zero z ≡ true → z ≡ pos 0
is_zero→zero (pos zero) e = refl
is_zero→zero (pos (suc n)) e = absurd (cc)
is_zero→zero (negsuc n) e = absurd (cc)

-- `memcmp` as a test of the two byte strings
module _ (m : Memory) (a b : ℕ) (xs ys : List ℕ) (n : ℕ) (ha : Held m a xs) (hb : Held m b ys)
    (la : length xs ≡ n) (lb : length ys ≡ n) where
  pub memcmp-same : xs ≡ ys → is_zero (memcmp m a b n) ≡ true
  memcmp-same e =
      rw
        ((memcmp-zero_iff m a b n).1 (λ j p.
          Held-get m a xs j ha (omega arith)
          ∙ ap (λ (l : List ℕ). get_or l j 0) e
          ∙ sym (Held-get m b ys j hb (omega arith))))
        refl

  memcmp-other : xs ≢ ys → is_zero (memcmp m a b n) ≡ false
  memcmp-other ne = elim (Bool-cases (is_zero (memcmp m a b n))) [
    | inr e ↦ e
    | inl e ↦
        let same = (memcmp-zero_iff m a b n).0 (is_zero→zero (memcmp m a b n) e) in
        absurd (
          ne (
            same_lists xs ys (omega arith) (λ j p.
              sym (Held-get m a xs j ha p)
              ∙ same j (omega arith)
              ∙ Held-get m b ys j hb (omega arith))))
  ]

read_loop-here :
    (n : ℕ) (m : Memory) (name current : ℕ)
    → is_zero (memcmp m current name 32) ≡ true
    → read_loop (suc n) m name current ≡ current
unfolding read_loop
read_loop-here n m name current e = simp e

read_loop-on :
    (n : ℕ) (m : Memory) (name current : ℕ)
    → is_zero (memcmp m current name 32) ≡ false
    → read_loop (suc n) m name current ≡ read_loop n m name (add64 current 40)
unfolding read_loop
read_loop-on n m name current e = simp e

-- the offset behind the files, counted from `o`
abbrev pub offset_after : ℕ → List File → ℕ
offset_after o [] = o
offset_after o (f ∷ fs) = offset_after ((o + length f.content % 2 ^ 32) % 2 ^ 32) fs

-- none of the files has the name `field`
abbrev pub NoneNamed : List ℕ → List File → Type 0
NoneNamed field [] = Unit
NoneNamed field (f ∷ fs) = (name_field f.path ≢ field) × NoneNamed field fs

entry_name :
    (m : Memory) (a o : ℕ) (f : File) → Held m a (write_entry o f) → Held m a (name_field f.path)
unfolding write_entry
entry_name m a o f h = (Held-append m a (name_field f.path) _ h).0

entries_split :
    (m : Memory) (a o : ℕ) (f : File) (fs : List File)
    → Held m a (write_entries o (f ∷ fs))
    → Held m a (write_entry o f)
      × Held m (a + 40) (write_entries ((o + length f.content % 2 ^ 32) % 2 ^ 32) fs)
unfolding write_entries
entries_split m a o f fs h =
    let (x, y) = Held-append m a (write_entry o f) _ h in
    (
      x,
      subst
          (λ (n : ℕ). Held m (a + n) (write_entries ((o + length f.content % 2 ^ 32) % 2 ^ 32) fs))
          (length-write_entry o f) y,
    )

-- The loop of `fs_read` stops at the first entry with the name.
pub read_loop-finds :
    (pre : List File) (f : File) (post : List File) (m : Memory) (name current o : ℕ)
    → Held m current (write_entries o (pre ++ f ∷ post))
    → Held m name (name_field f.path)
    → NoneNamed (name_field f.path) pre
    → current + length pre * 40 < 2 ^ 64
    → (read_loop (length (pre ++ f ∷ post)) m name current ≡ current + length pre * 40)
      × Held m (current + length pre * 40) (write_entry (offset_after o pre) f)
read_loop-finds [] f post m name current o h hn none_named room =
    let (x, y) = entries_split m current o f post h in
    let same =
      memcmp-same m current name (name_field f.path) (name_field f.path) 32
        (entry_name m current o f x) hn (length-name_field f.path) (length-name_field f.path)
        refl in
    (
      read_loop-here (length post) m name current same ∙ omega arith,
      subst (λ (t : ℕ). Held m t (write_entry o f)) (omega arith) x,
    )
read_loop-finds (g ∷ pre) f post m name current o h hn (ne, none_named) room =
    let (x, y) = entries_split m current o g (pre ++ f ∷ post) h in
    let other =
      memcmp-other m current name (name_field g.path) (name_field f.path) 32
        (entry_name m current o g x) hn (length-name_field g.path) (length-name_field f.path) ne in
    let next : add64 current 40 ≡ current + 40 = omega arith in
    let far : current + 40 + length pre * 40 ≡ current + length (g ∷ pre) * 40 = omega arith in
    let (r, e) = read_loop-finds pre f post m name (current + 40) _ y hn none_named (omega arith) in
    (
      read_loop-on (length (pre ++ f ∷ post)) m name current other
          ∙ ap (read_loop (length (pre ++ f ∷ post)) m name) next
          ∙ r
          ∙ far,
      subst (λ (t : ℕ). Held m t (write_entry (offset_after o (g ∷ pre)) f)) far e,
    )

-- No entry has the name: `fs_read` returns NULL.
pub read_loop-misses :
    (fs : List File) (field : List ℕ) (m : Memory) (name current o : ℕ)
    → Held m current (write_entries o fs)
    → Held m name field
    → length field ≡ 32
    → NoneNamed field fs
    → current + length fs * 40 < 2 ^ 64
    → read_loop (length fs) m name current ≡ 0
unfolding read_loop
read_loop-misses [] field m name current o h hn l none_named room = refl
read_loop-misses (g ∷ fs) field m name current o h hn l (ne, none_named) room =
    let (x, y) = entries_split m current o g fs h in
    let other =
      memcmp-other m current name (name_field g.path) field 32 (entry_name m current o g x) hn
        (length-name_field g.path) l ne in
    let next : add64 current 40 ≡ current + 40 = omega arith in
    read_loop-on (length fs) m name current other
    ∙ ap (read_loop (length fs) m name) next
    ∙ read_loop-misses fs field m name (current + 40) _ y hn l none_named (omega arith)
