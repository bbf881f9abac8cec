-- ===== src/Kernel/Tests.antt =====
-- The start of the kernel on a small disk image.
use doomkernel.Prelude.{
  ℕ, ◌-◌, ◌^◌, ◌≡◌, ◌<◌, ◌+◌, inl, refl, true, false, some, [], ◌∷◌, ◌++◌, none, length, replicate,
  length-replicate, codes, get_or, leb, if◌then◌else◌, arith,
}
use doomkernel.Memory.{Memory, load8}
use doomkernel.Terminal.{Terminal}
use doomkernel.Printf.Rounds.{shown}
use doomkernel.Fs.{
  Fs, fs_init, File, name_field, bytes_le, write_entry, write_entries, write_contents, write_image,
  magic,
}
use doomkernel.Fs.Image.{Held, holds→Held}
use doomkernel.Fs.Roundtrip.{Fits}
use doomkernel.User.{store_all}
use doomkernel.Frame.{Frame, zero_frame}
use doomkernel.Keyboard.{Keyboard, look_up, apply_caps}
use doomkernel.Keyboard.Typed.{typed}
use doomkernel.Interrupt.Timer.{Timer, program_timer}
use doomkernel.Kernel.Echo.{Echoed, keyboard_heading, keyboard_kernel_lem}
use doomkernel.Kernel.Wait.{interrupted, timer_lines, timer_kernel_lem}
use doomkernel.Kernel.{doom_query, filesystem_kernel, keyboard_kernel, timer_kernel}
use doomkernel.Kernel.Unmounted.{no_mount, no_file, filesystem_kernel_unmounted}
use doomkernel.Kernel.Files.{file_transcript, filesystem_kernel_lem}

abbrev doom_file : File
doom_file = record { path = codes "disk/doom.txt"; content = codes "rip" }

-- the image at 1000 and the literal at 2000
abbrev memory : Memory
memory = λ x.
    if leb 2000 x
    then get_or magic (x - 2000) 0
    else get_or (write_image (doom_file ∷ [])) (x - 1000) 0

abbrev no_fs : Fs
no_fs = record { fs_entries = 0; fs_data = 0; fs_file_count = 0 }

abbrev screen : Terminal
screen = record {
  cursor_x = 0;
  cursor_y = 0;
  terminal_color = 15;
  terminal_buffer = replicate 2000 0;
}

image-Held : Held memory 1000 (write_image (doom_file ∷ []))
unfolding load8 write_image write_entries write_entry write_contents bytes_le name_field
image-Held = holds→Held memory 1000 (write_image (doom_file ∷ [])) refl

magic-Held : Held memory 2000 magic
unfolding load8
magic-Held = holds→Held memory 2000 magic refl

doom_name : name_field doom_file.path ≡ doom_query
unfolding name_field
doom_name = refl

image_size : length (write_image (doom_file ∷ [])) ≡ 51
unfolding write_image write_entries write_entry write_contents bytes_le name_field
image_size = refl

doom-Fits : Fits 1000 (doom_file ∷ [])
unfolding write_contents
doom-Fits = record {
  start_pos = omega arith;
  count = omega arith;
  bytes = omega arith;
  room = omega arith;
}

filesystem_kernel_lem_example :
    filesystem_kernel 0 2000 3000 1000 no_fs memory screen
    ≡ some (
      fs_init no_fs memory 2000 1000,
      store_all memory 3000 doom_query,
      shown screen (file_transcript 0 (codes "rip")),
    )
filesystem_kernel_lem_example =
    filesystem_kernel_lem 0 2000 3000 1000 no_fs memory screen [] doom_file [] (omega arith)
      image-Held magic-Held doom_name doom-Fits tt (inl (omega (arith, image_size)))
      (inl (omega arith))

abbrev keyboard : Keyboard
keyboard = record {
  keycache = replicate 256 0;
  kbd_head = 9;
  kbd_tail = 5;
  kbd_shift = true;
  kbd_caps = true;
  kbd_enabled = false;
}

-- a, escape and b
typed_keys :
    typed (record { shift = false; caps = false }) (30 ∷ 1 ∷ 48 ∷ []) ≡ codes "a" ++ 27 ∷ codes "b"
unfolding look_up apply_caps
typed_keys = refl

keyboard_kernel_lem_example :
    Echoed
      (keyboard_kernel 2 (30 ∷ 1 ∷ 48 ∷ []) keyboard screen)
      screen
      (keyboard_heading ++ ((codes "a" ++ 27 ∷ []) ++ codes "\n"))
      (codes "b")
keyboard_kernel_lem_example =
    keyboard_kernel_lem (codes "a") (codes "b") 2 (30 ∷ 1 ∷ 48 ∷ []) keyboard screen
      (length-replicate {A = ℕ} 256 0) (omega arith) (refl, tt) typed_keys

abbrev timer : Timer
timer = record {
  ticks = 2 ^ 64 - 1;
  kernel_frame_template = zero_frame;
  scheduling_enabled = false;
  scheduler = record {
    task_list = [];
    current_task = 0;
    task_count = 0;
    scheduler_started = false;
    heap = record {
      mem = memory;
      heap_beginning = 0;
      heap_end = 0;
      last_alloc = 0;
      memory_used = 0;
    };
  };
}

timer_kernel_lem_example :
    timer_kernel (replicate 300 zero_frame ++ []) (λ v. none) timer screen
    ≡ some (
      interrupted (record timer { ticks = 0 }) (replicate 300 zero_frame),
      shown screen timer_lines,
      program_timer 100,
      [],
    )
timer_kernel_lem_example =
    timer_kernel_lem (replicate 300 zero_frame) [] (λ v. none) timer screen
      (length-replicate {A = Frame} 300 zero_frame)

blank_image : ¬ ((j : ℕ) → j < 4 → load8 memory (5000 + j) ≡ load8 memory (2000 + j))
unfolding load8
blank_image same = absurd (omega (arith, same 0 (omega arith)))

filesystem_kernel_unmounted_example :
    filesystem_kernel 0 2000 3000 5000 no_fs memory screen
    ≡ some (
      record no_fs { fs_file_count = 0 },
      store_all memory 3000 doom_query,
      shown screen (codes "******FILESYSTEM******\n" ++ (no_mount ++ no_file)),
    )
filesystem_kernel_unmounted_example =
    filesystem_kernel_unmounted 0 2000 3000 5000 no_fs memory screen blank_image
