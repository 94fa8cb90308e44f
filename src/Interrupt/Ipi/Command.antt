-- ===== src/Interrupt/Ipi/Command.antt =====
-- The bits of a command.
use garbage_os.Base.{ℕ, ◌+◌, ◌*◌, ◌/◌, ◌%◌, ◌^◌, ◌<◌, ◌≡◌, ap, ◌∙◌, arith, or64, bit_or-field}
use garbage_os.Interrupt.Ipi.{make_interrupt_command}

-- The fields of a command do not overlap.
pub make_interrupt_command-fields :
    (destination_id dest_sh trigger_mode level destination_mode del_mode vector : ℕ)
    → destination_id < 2 ^ 8
    → vector < 2 ^ 8
    → make_interrupt_command destination_id dest_sh trigger_mode level destination_mode del_mode
        vector
      ≡ vector
        + del_mode % 8 * 2 ^ 8
        + destination_mode % 2 * 2 ^ 11
        + level % 2 * 2 ^ 14
        + trigger_mode % 2 * 2 ^ 15
        + dest_sh % 4 * 2 ^ 18
        + destination_id * 2 ^ 56
unfolding make_interrupt_command
make_interrupt_command-fields destination_id dest_sh trigger_mode level destination_mode del_mode
      vector small small_vector =
    let a₁ = destination_id * 2 ^ 56 in
    let a₂ = a₁ + dest_sh % 4 * 2 ^ 18 in
    let a₃ = a₂ + trigger_mode % 2 * 2 ^ 15 in
    let a₄ = a₃ + level % 2 * 2 ^ 14 in
    let a₅ = a₄ + destination_mode % 2 * 2 ^ 11 in
    let a₆ = a₅ + del_mode % 8 * 2 ^ 8 in
    let icr₁ =
      bit_or-field 18 2 44 0 (a₁ / 2 ^ 20) (dest_sh % 4) a₁ (omega arith) (omega arith)
        (omega (arith, small)) (omega arith) in
    let icr₂ =
      bit_or-field 15 1 48 0 (a₂ / 2 ^ 16) (trigger_mode % 2) a₂ (omega arith) (omega arith)
        (omega (arith, small)) (omega arith) in
    let icr₃ =
      bit_or-field 14 1 49 0 (a₃ / 2 ^ 15) (level % 2) a₃ (omega arith) (omega arith)
        (omega (arith, small)) (omega arith) in
    let icr₄ =
      bit_or-field 11 1 52 0 (a₄ / 2 ^ 12) (destination_mode % 2) a₄ (omega arith) (omega arith)
        (omega (arith, small)) (omega arith) in
    let icr₅ =
      bit_or-field 8 3 53 0 (a₅ / 2 ^ 11) (del_mode % 8) a₅ (omega arith) (omega arith)
        (omega (arith, small)) (omega arith) in
    let last =
      bit_or-field 0 8 56 0 (a₆ / 2 ^ 8) vector a₆ (omega arith) small_vector (omega (arith, small))
        (omega arith) in
    let unshifted : vector ≡ vector * 2 ^ 0 = omega arith in
    rw (icr₁, icr₂, icr₃, icr₄, icr₅) (ap (or64 a₆) unshifted ∙ last ∙ omega arith)
