-- ===== src/Gdt/Tests.antt =====
-- The segment table at concrete addresses.
use doomkernel.Prelude.{◌+◌, ◌*◌, ◌≡◌, refl, [], ◌∷◌, arith}
use doomkernel.Gdt.{Tables, null_entry, null_tss, load_gdt, load_tss, init_gdt}
use doomkernel.Gdt.Descriptor.{selected, segment, segment_limit, system_base, system_type}
use doomkernel.Gdt.Segments.{code_of, data_of, init_gdt-Segments}

abbrev zeroed : Tables
zeroed = record {
  gdt = λ k. null_entry;
  system_tss = null_tss;
  gdtp = record { limit = 0; base = 0 };
}

user_code : selected (init_gdt 0x5000 0x123456789ABC 0x9000 zeroed).0 0x23 ≡ 0x00AFFA000000FFFF
unfolding init_gdt
user_code = refl

tss_words :
    (selected (init_gdt 0x5000 0x123456789ABC 0x9000 zeroed).0 0x28 ≡ 0x560089789ABC0067)
    × (selected (init_gdt 0x5000 0x123456789ABC 0x9000 zeroed).0 0x30 ≡ 0x1234)
unfolding init_gdt
tss_words = (refl, refl)

init_gdt-Segments_example :
    let r = init_gdt 0x5000 0x123456789ABC 0x9000 zeroed in
    (selected r.0 0 ≡ 0)
    × (segment (selected r.0 0x08) ≡ code_of 0)
    × (segment (selected r.0 0x10) ≡ data_of 0)
    × (segment (selected r.0 0x1B) ≡ data_of 3)
    × (segment (selected r.0 0x23) ≡ code_of 3)
    × (system_base (selected r.0 0x28) (selected r.0 0x30) ≡ 0x123456789ABC)
    × (segment_limit (selected r.0 0x28) + 1 ≡ r.0.system_tss.iomap_base)
    × (system_type (selected r.0 0x28) ≡ 9)
    × (r.0.system_tss.rsp0 ≡ 0x9000)
    × (r.0.gdtp.limit + 1 ≡ 7 * 8)
    × (r.1 ≡ load_gdt (record { limit = 55; base = 0x5000 }) 0x08 0x10 ∷ load_tss 0x28 ∷ [])
init_gdt-Segments_example = init_gdt-Segments 0x5000 0x123456789ABC 0x9000 zeroed (omega arith)
