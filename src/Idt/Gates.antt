-- ===== src/Idt/Gates.antt =====
-- The gate that the table holds for each vector.
use doomkernel.Prelude.{
  ℕ, ◌+◌, ◌-◌, ◌*◌, ◌/◌, ◌%◌, ◌^◌, ◌<◌, ◌≡◌, ◌⊎◌, ◌↔◌, inl, inr, refl, ap, ◌∙◌, Bool, true, false,
  ◌&&◌, Bool-cases, Option, none, some, List, [], ◌∷◌, ltb, ◌==◌, if◌then◌else◌, ==_iff, all_below,
  all_below_lem, length, set, length-set, get_elem?, get_elem?-set_self, get_elem?-set_ne, arith,
}
use doomkernel.Idt.{
  Gate, Stub, isr, irq, new_gate, idt_set_item, items, set_items, idt_set_items, idt_init,
}

-- the handler that the processor reads in a gate, and the ring that may call it by an instruction
abbrev pub handler : Gate → ℕ
handler g = g.offset_1 + 2 ^ 16 * g.offset_2 + 2 ^ 32 * g.offset_3

abbrev pub ring : Gate → ℕ
ring g = g.type / 2 ^ 5 % 4

-- Bit 7 tells that the gate is there; 14 is a 64-bit interrupt gate.
abbrev pub IsInterruptGate : Gate → Type 0
IsInterruptGate g = (g.type / 2 ^ 7 ≡ 1) × (g.type % 16 ≡ 14)

-- the stub and the type of a vector: the exceptions, the lines of the interrupt controllers and the
-- system call, which ring 3 may make
abbrev pub assigned : ℕ → Option (Stub × ℕ × ℕ)
assigned v =
    if ltb v 32
    then some (isr v, 0x08, 0x8E)
    else if ltb v 48
    then some (irq (v - 32), 0x08, 0x8E)
    else if v == 0x80
    then some (isr 128, 0x08, 0xEE)
    else none

-- the gate that a vector has behind the assignments, in a table that had `g` there
abbrev pub gate_for : (Stub → ℕ) → Option (Stub × ℕ × ℕ) → Gate → Gate
gate_for address none g = g
gate_for address (some (stub, selector, type)) g = new_gate (address stub) selector type

-- the last of the calls for a vector
abbrev last_item : ℕ → Option (Stub × ℕ × ℕ) → List (ℕ × Stub × ℕ × ℕ) → Option (Stub × ℕ × ℕ)
last_item v found [] = found
last_item v found ((vector, stub, selector, type) ∷ rest) =
    last_item v (if v == vector then some (stub, selector, type) else found) rest

abbrev same_stub : Stub → Stub → Bool
same_stub (isr a) (isr b) = a == b
same_stub (irq a) (irq b) = a == b
same_stub (isr a) (irq b) = false
same_stub (irq a) (isr b) = false

abbrev same : Option (Stub × ℕ × ℕ) → Option (Stub × ℕ × ℕ) → Bool
same none none = true
same (some (s, a, c)) (some (t, b, d)) = same_stub s t && (a == b) && (c == d)
same none (some b) = false
same (some a) none = false

same_stub_lem : (s t : Stub) → same_stub s t ≡ true → s ≡ t
same_stub_lem (isr a) (isr b) e = ap isr ((==_iff a b).0 e)
same_stub_lem (irq a) (irq b) e = ap irq ((==_iff a b).0 e)
same_stub_lem (isr a) (irq b) e = absurd (ground (arith, e))
same_stub_lem (irq a) (isr b) e = absurd (ground (arith, e))

same_lem : (o p : Option (Stub × ℕ × ℕ)) → same o p ≡ true → o ≡ p
same_lem none none e = refl
same_lem (some (s, a, c)) (some (t, b, d)) e =
    let stubs : s ≡ t = same_stub_lem s t (ground (arith, e)) in
    let selectors : a ≡ b = (==_iff a b).0 (ground (arith, e)) in
    let types : c ≡ d = (==_iff c d).0 (ground (arith, e)) in rw (stubs, selectors, types) refl
same_lem none (some b) e = absurd (ground (arith, e))
same_lem (some a) none e = absurd (ground (arith, e))

item_table : all_below 256 (λ v. same (last_item v none items) (assigned v)) ≡ true
item_table = refl

length-set_items :
    (address : Stub → ℕ) (rows : List (ℕ × Stub × ℕ × ℕ)) (idt : List Gate)
    → length (set_items address rows idt) ≡ length idt
unfolding set_items idt_set_item
length-set_items address [] idt = refl
length-set_items address ((vector, stub, selector, type) ∷ rest) idt =
    let gate = new_gate (address stub) selector type in
    length-set_items address rest (set idt vector gate) ∙ length-set idt vector gate

module _ (address : Stub → ℕ) (v : ℕ) (g : Gate) where
  set_items_lem :
      (rows : List (ℕ × Stub × ℕ × ℕ)) (found : Option (Stub × ℕ × ℕ)) (idt : List Gate)
      → get_elem? idt v ≡ some (gate_for address found g)
      → v < length idt
      → get_elem? (set_items address rows idt) v
        ≡ some (gate_for address (last_item v found rows) g)
  unfolding set_items idt_set_item
  set_items_lem [] found idt e h = e
  set_items_lem ((vector, stub, selector, type) ∷ rest) found idt e h =
      let gate = new_gate (address stub) selector type in
      let inside : v < length (set idt vector gate) =
        omega (arith, h, length-set idt vector gate) in
      elim (Bool-cases (v == vector)) [
        | inl here ↦
            let is : v ≡ vector = (==_iff v vector).0 here in
            let written : get_elem? (set idt vector gate) v ≡ some gate =
              ap (get_elem? (set idt vector gate)) is
              ∙ get_elem?-set_self idt vector gate (omega (arith, h, is)) in
            rw here (
              set_items_lem rest (some (stub, selector, type)) (set idt vector gate) written inside)
        | inr other ↦
            let kept : get_elem? (set idt vector gate) v ≡ some (gate_for address found g) =
              get_elem?-set_ne idt gate (λ same. absurd (ground (arith, other, same))) ∙ e in
            rw other (set_items_lem rest found (set idt vector gate) kept inside)
      ]

-- The handler of a gate is read back from its three parts.
handler-new_gate : (a selector type : ℕ) → a < 2 ^ 64 → handler (new_gate a selector type) ≡ a
handler-new_gate a selector type h = omega arith

type_of : Option (Stub × ℕ × ℕ) → ℕ
type_of none = 0
type_of (some (stub, selector, type)) = type

assigned-type :
    (v : ℕ) (stub : Stub) (selector type : ℕ)
    → assigned v ≡ some (stub, selector, type)
    → (type ≡ 0x8E × v < 48) ⊎ (type ≡ 0xEE × v ≡ 0x80)
assigned-type v stub selector type e = ground (arith, e)

-- Behind `idt_init` each of the 256 vectors has the gate that is assigned to it: the 32 exceptions and
-- the 16 lines of the controllers one of ring 0, the system call one of ring 3, each with the stub
-- of its number and the selector of the kernel's code; the gate of any other vector is as it was.
-- The limit loaded is that of the table.
pub idt_init-Gates :
    (address : Stub → ℕ) (idt_address : ℕ) (idt : List Gate) (v : ℕ) (g : Gate)
    → length idt ≡ 256
    → get_elem? idt v ≡ some g
    → v < 256
    → let r = idt_init address idt_address idt in
      (get_elem? r.0 v ≡ some (gate_for address (assigned v) g)) × (r.1.limit + 1 ≡ 16 * length r.0)
unfolding idt_init idt_set_items
idt_init-Gates address idt_address idt v g l e h =
    let found =
      same_lem (last_item v none items) (assigned v)
        (all_below_lem 256 (λ k. same (last_item k none items) (assigned k)) v item_table h) in
    (
      set_items_lem address v g items none idt e (omega (arith, l, h))
          ∙ ap (λ (o : Option (Stub × ℕ × ℕ)). some (gate_for address o g)) found,
      omega (arith, l, length-set_items address items idt),
    )

assigned-IsInterruptGate :
    (address : Stub → ℕ) (v : ℕ) (stub : Stub) (selector type : ℕ) (g : Gate)
    → assigned v ≡ some (stub, selector, type)
    → address stub < 2 ^ 64
    → IsInterruptGate (gate_for address (assigned v) g)
      × (handler (gate_for address (assigned v) g) ≡ address stub)
      × ((ring (gate_for address (assigned v) g) ≡ 3) ↔ (v ≡ 0x80))
assigned-IsInterruptGate address v stub selector type g e h =
    elim (assigned-type v stub selector type e) [
      | inl (kernel, low) ↦
          rw (e, kernel)
            (
              (omega arith, omega arith),
              handler-new_gate (address stub) selector 0x8E h,
              ((λ r. absurd (omega (arith, r))), (λ same. absurd (omega (arith, low, same)))),
            )
      | inr (user, is) ↦
          rw (e, user)
            (
              (omega arith, omega arith),
              handler-new_gate (address stub) selector 0xEE h,
              ((λ r. is), (λ same. omega arith)),
            )
    ]

-- Behind `idt_init` the gate of an assigned vector is there, is an interrupt gate, calls the stub at
-- its 64-bit address, and ring 3 may call it by an instruction just for the system call.
pub idt_init-IsInterruptGate :
    (address : Stub → ℕ) (idt_address : ℕ) (idt : List Gate) (v : ℕ) (g : Gate) (stub : Stub)
    (selector type : ℕ)
    → length idt ≡ 256
    → get_elem? idt v ≡ some g
    → v < 256
    → assigned v ≡ some (stub, selector, type)
    → address stub < 2 ^ 64
    → (gate : Gate) × (get_elem? (idt_init address idt_address idt).0 v ≡ some gate)
      × IsInterruptGate gate
      × (handler gate ≡ address stub)
      × ((ring gate ≡ 3) ↔ (v ≡ 0x80))
idt_init-IsInterruptGate address idt_address idt v g stub selector type l old h e a =
    let (is, calls, user) = assigned-IsInterruptGate address v stub selector type g e a in
    (
      gate_for address (assigned v) g,
      (idt_init-Gates address idt_address idt v g l old h).0,
      is,
      calls,
      user,
    )
