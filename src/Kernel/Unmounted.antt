-- ===== src/Kernel/Unmounted.antt =====
-- `filesystem_kernel` where the boot loader has handed over no image.
use doomkernel.Prelude.{
  ℕ, zero, suc, ◌+◌, ◌<◌, ◌≡◌, refl, true, false, Bool-cases, inl, inr, some, List, [], ◌∷◌, ◌++◌,
  codes, replicate, arith,
}
use doomkernel.Prelude.Int.{ℤ, pos, negsuc}
use doomkernel.Memory.{Memory, load8}
use doomkernel.Str.{memcmp}
use doomkernel.Str.Compare.{memcmp-zero_iff}
use doomkernel.Terminal.{Terminal}
use doomkernel.Printf.{text}
use doomkernel.Printf.Render.{render}
use doomkernel.Printf.Rounds.{shown}
use doomkernel.Fs.{Fs, is_zero, fs_init, fs_read}
use doomkernel.User.{store_all}
use doomkernel.User.Message.{Held-store_all, all_bytes-AllBytes}
use doomkernel.Kernel.{doom_query, mount_message, not_found, filesystem_kernel}
use doomkernel.Kernel.Say.{say_lem, say-plain}
use doomkernel.Kernel.Strings.{non_zero-NonZero, c_string-Held}

-- what is shown in place of the file
abbrev pub no_mount : List ℕ
no_mount = codes "[fs] invalid magic for initrd so the fs isnt going to be mounted\n"

abbrev pub no_file : List ℕ
no_file = codes "[fs] doom.txt file not found\n"

is_zero-pos : (z : ℤ) → is_zero z ≡ true → z ≡ pos 0
is_zero-pos (pos zero) e = refl
is_zero-pos (pos (suc n)) e = absurd (ground (arith, e))
is_zero-pos (negsuc n) e = absurd (ground (arith, e))

differs :
    (m : Memory) (a b : ℕ)
    → ¬ ((j : ℕ) → j < 4 → load8 m (a + j) ≡ load8 m (b + j))
    → is_zero (memcmp m a b 4) ≡ false
differs m a b ne = elim (Bool-cases (is_zero (memcmp m a b 4))) [
  | inl e ↦ absurd (ne ((memcmp-zero_iff m a b 4).0 (is_zero-pos (memcmp m a b 4) e)))
  | inr e ↦ e
]

not_found_lem :
    (m : Memory) (query : ℕ) (t : Terminal)
    → not_found (store_all m query doom_query) query t ≡ some (shown t no_file)
unfolding not_found render
not_found_lem m query t =
    let named = Held-store_all m query doom_query (all_bytes-AllBytes doom_query refl) in
    rw
      (c_string-Held 32 (store_all m query doom_query) query (codes "doom.txt") (replicate 23 0)
        (omega arith) (non_zero-NonZero (codes "doom.txt") refl) named)
      (say_lem t (codes "[fs] %s file not found\n") (text (codes "doom.txt") ∷ []) no_file refl
        (omega arith))

-- `filesystem_kernel` at an address whose four bytes are not those of the literal "DFS1": nothing is
-- mounted, whatever was before, no file is found, and both are reported below the heading.
pub filesystem_kernel_unmounted :
    (upper dfs1 query a : ℕ) (fs0 : Fs) (m : Memory) (t : Terminal)
    → ¬ ((j : ℕ) → j < 4 → load8 m (a + j) ≡ load8 m (dfs1 + j))
    → filesystem_kernel upper dfs1 query a fs0 m t
      ≡ some (
        record fs0 { fs_file_count = 0 },
        store_all m query doom_query,
        shown t (codes "******FILESYSTEM******\n" ++ (no_mount ++ no_file)),
      )
unfolding filesystem_kernel mount_message fs_init fs_read render
filesystem_kernel_unmounted upper dfs1 query a fs0 m t ne =
    let t1 = shown t (codes "******FILESYSTEM******\n") in
    rw
      (
        differs m a dfs1 ne,
        say-plain t (codes "******FILESYSTEM******\n") refl (omega arith),
        say-plain t1 no_mount refl (omega arith),
        not_found_lem m query (shown t1 no_mount),
      )
      refl
