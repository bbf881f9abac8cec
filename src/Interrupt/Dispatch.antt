-- ===== src/Interrupt/Dispatch.antt =====
-- `isr_handler`: which exceptions reach a handler, and which stop the kernel.
use doomkernel.Prelude.{
  ℕ, ◌≡◌, ◌≢◌, ◌↔◌, refl, true, false, Option, none, some, ◌==◌, arith, ℕ_discrete, ap, ◌∙◌, sym,
}
use doomkernel.Frame.{Frame}
use doomkernel.Interrupt.{
  Handler, Handlers, Fatal, double_fault, general_protection, page_fault, unhandled, Outcome,
  returned, panicked, call_or_panic, isr_handler,
}

-- the state and the frame that were returned, or `r`
abbrev result : {S : Type 0} → S × Frame → Outcome S → S × Frame
result r (returned s frame) = (s, frame)
result r (panicked fatal frame) = r

module _ {S : Type 0} (handlers : Handlers S) (s : S) (frame : Frame) where
  isr-double : frame.int_no ≡ 8 → isr_handler handlers s frame ≡ panicked double_fault frame
  unfolding isr_handler
  isr-double e = let a : (frame.int_no == 8) ≡ true = ground arith in simp a

  isr-general : frame.int_no ≡ 13 → isr_handler handlers s frame ≡ panicked general_protection frame
  unfolding isr_handler
  isr-general e =
      let a : (frame.int_no == 8) ≡ false = ground arith in
      let b : (frame.int_no == 13) ≡ true = ground arith in simp (a, b)

  isr-page :
      frame.int_no ≡ 14
      → isr_handler handlers s frame ≡ call_or_panic (handlers frame.int_no) page_fault s frame
  unfolding isr_handler
  isr-page e =
      let a : (frame.int_no == 8) ≡ false = ground arith in
      let b : (frame.int_no == 13) ≡ false = ground arith in
      let c : (frame.int_no == 14) ≡ true = ground arith in
      simp (a, b, c) (ap (λ (v : ℕ). call_or_panic (handlers v) page_fault s frame) (sym e))

  isr-other :
      frame.int_no ≢ 8
      → frame.int_no ≢ 13
      → frame.int_no ≢ 14
      → isr_handler handlers s frame ≡ call_or_panic (handlers frame.int_no) unhandled s frame
  unfolding isr_handler
  isr-other x y z =
      let a : (frame.int_no == 8) ≡ false = ground arith in
      let b : (frame.int_no == 13) ≡ false = ground arith in
      let c : (frame.int_no == 14) ≡ false = ground arith in simp (a, b, c)

  called :
      (o : Option (Handler S)) (fatal : Fatal) (s' : S) (frame' : Frame)
      → (call_or_panic o fatal s frame ≡ returned s' frame')
        ↔ ((handler : Handler S) × (o ≡ some handler) × (handler s frame ≡ (s', frame')))
  unfolding call_or_panic
  called none fatal s' frame' = ((λ e. absurd (cc)), (λ (h, e, f). absurd (cc)))
  called (some handler) fatal s' frame' = (
    (λ e. (handler, refl, ap (result (s', frame')) e)),
    (λ (h, e, f).
        ap (λ (r : S × Frame). returned r.0 r.1) (ap (λ (o : Option (Handler S)). apply o) e ∙ f)),
  )
    where
      apply : Option (Handler S) → S × Frame
      apply none = (s, frame)
      apply (some h) = h s frame

  -- An exception returns to the interrupted code only through a handler that was registered for its
  -- vector, with the state and the frame that this handler leaves, and never for vectors 8 and 13; and
  -- each vector other than these with a handler does return through it.
  pub isr_handler-returned :
      (s' : S) (frame' : Frame)
      → (isr_handler handlers s frame ≡ returned s' frame') ↔ (
          (frame.int_no ≢ 8)
          × (frame.int_no ≢ 13)
          × (handler : Handler S) × (handlers frame.int_no ≡ some handler)
          × (handler s frame ≡ (s', frame')))
  isr_handler-returned s' frame' = elim (ℕ_discrete frame.int_no 8) [
    | yes x ↦ rw (isr-double x) ((λ e. absurd (cc)), (λ (a, b, h, f, g). absurd (a x)))
    | no x ↦ elim (ℕ_discrete frame.int_no 13) [
      | yes y ↦ rw (isr-general y) ((λ e. absurd (cc)), (λ (a, b, h, f, g). absurd (b y)))
      | no y ↦ elim (ℕ_discrete frame.int_no 14) [
        | yes z ↦
            let c = called (handlers frame.int_no) page_fault s' frame' in
            rw (isr-page z)
              ((λ e. let (h, f, g) = c.0 e in (x, y, h, f, g)), (λ (a, b, h, f, g). c.1 (h, f, g)))
        | no z ↦
            let c = called (handlers frame.int_no) unhandled s' frame' in
            rw (isr-other x y z)
              ((λ e. let (h, f, g) = c.0 e in (x, y, h, f, g)), (λ (a, b, h, f, g). c.1 (h, f, g)))
      ]
    ]
  ]
