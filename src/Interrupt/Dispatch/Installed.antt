-- ===== src/Interrupt/Dispatch/Installed.antt =====
-- Interrupts after a handler has been installed.
use native.Mathlib.Decide.{ℕ_discrete}
use garbage_os.Base.{
  ℕ, ◌≤◌, ◌<◌, ◌≡◌, ◌≢◌, refl, ◌⊎◌, true, false, arith, ltb, ◌==◌, ◌!=◌, eq→==, ne→==_false,
  if◌then◌else◌, null, ◌>>=◌,
}
use garbage_os.Interrupt.Apic.{LapicSubsystemData}
use garbage_os.Interrupt.Dispatch.{
  InterruptInfo, Interrupts, install_interrupt_handler, set_interrupt_handler_extra_data, Platform,
  acknowledge, handle, interrupt_routine, is_pic_interrupt,
}

-- A vector that is neither one of the old controllers nor the spurious one.
abbrev pub IsHandled : Interrupts → (n : ℕ) → Type 0
IsHandled t n = (n < 0xff) × ((t.pic_present ≡ false) ⊎ ((n < 0x20) ⊎ (0x30 ≤ n)))

abbrev pub called_with : (n error extra_data context : ℕ) → InterruptInfo
called_with n error extra_data context = record {
  error = error;
  interrupt_number = n;
  extra_data = extra_data;
  saved_context = context;
}

-- A handler, not the null pointer, that is installed with its extra data, at a vector that is neither one of the old
-- controllers nor the spurious one, is what an interrupt of the vector calls, with the error, the
-- context and the data, before the interrupt is acknowledged at the local controller. Interrupts of
-- other vectors run as before.
pub install-interrupt_routine :
    (p : Platform) (d : LapicSubsystemData) (t : Interrupts) (n handler extra_data : ℕ)
    → IsHandled t n
    → handler ≢ null
    → (m error context : ℕ) (s : p.State)
    → (do
      t₁ ← install_interrupt_handler n handler t
      t₂ ← set_interrupt_handler_extra_data n extra_data t₁
      interrupt_routine p d t₂ m error context s)
      ≡ (if m == n
          then p.call handler (called_with n error extra_data context) s >>= acknowledge p d n
          else interrupt_routine p d t m error context s)
unfolding install_interrupt_handler set_interrupt_handler_extra_data interrupt_routine handle
install-interrupt_routine p d t n handler extra_data (small, handled) present m error context s =
    let in_range : ltb n 256 ≡ true = ground (arith, small) in
    elim (ℕ_discrete m n) [
      | no other ↦ rw (in_range, ne→==_false m n other) refl
      | yes here ↦
          let not_spurious : (n == 0xff) ≡ false = ground (arith, small) in
          let not_pic : is_pic_interrupt p d t n ≡ false = ground (arith, handled) in
          let not_null : (handler != null) ≡ true = ground (arith, present) in
          rw (here, in_range, eq→== n n refl, not_pic, not_spurious, not_null) (rw not_null refl)
    ]
