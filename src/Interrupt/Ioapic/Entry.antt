-- ===== src/Interrupt/Ioapic/Entry.antt =====
-- The bits of an entry of the redirection table.
use garbage_os.Base.{
  ℕ, ◌+◌, ◌*◌, ◌/◌, ◌%◌, ◌^◌, ◌<◌, ◌≡◌, refl, true, Bool-cases, inl, inr, arith, ◌==◌,
  if◌then◌else◌, ok, or64, bit_or-field, bit_or-zero,
}
use garbage_os.Interrupt.LocalApic.{from_bool}
use garbage_os.Interrupt.Ioapic.{Redirection, redirection_entry}

-- The fields have the widths of the entry; the identifier of a controller has 4 bits.
pub record IsRedirection (r : Redirection) : Type 0 where
  pub vector : r.vector < 2 ^ 8
  pub apic_id : r.apic_id_to_redirect < 2 ^ 4
  pub polarity : r.polarity < 2
  pub trigger_mode : r.trigger_mode < 2

-- What the controller reads in the entry.
abbrev pub Encodes : Redirection → (entry : ℕ) → Type 0
Encodes r entry =
    (entry < 2 ^ 64)
    × (entry % 2 ^ 8 ≡ r.vector)
    × (entry / 2 ^ 8 % 8 ≡ from_bool r.reidirect_to_lowest_priority)
    × (entry / 2 ^ 13 % 2 ≡ r.polarity)
    × (entry / 2 ^ 15 % 2 ≡ r.trigger_mode)
    × (entry / 2 ^ 16 % 2 ≡ from_bool r.mask)
    × (entry / 2 ^ 56 ≡ (if r.reidirect_to_lowest_priority then 0 else r.apic_id_to_redirect))

-- The fields from the polarity on, in an entry whose bits from 13 to 16 are clear.
upper_fields :
    (a polarity trigger_mode mask : ℕ)
    → a / 2 ^ 13 % 2 ^ 4 ≡ 0
    → a < 2 ^ 64
    → polarity < 2
    → trigger_mode < 2
    → mask < 2
    → or64 (or64 (or64 a (polarity * 2 ^ 13)) (trigger_mode * 2 ^ 15)) (mask * 2 ^ 16)
      ≡ a + polarity * 2 ^ 13 + trigger_mode * 2 ^ 15 + mask * 2 ^ 16
upper_fields a polarity trigger_mode mask clear small p t m =
    let a₁ = a + polarity * 2 ^ 13 in
    let a₂ = a₁ + trigger_mode * 2 ^ 15 in
    let e₁ =
      bit_or-field 13 1 50 (a % 2 ^ 13) (a / 2 ^ 14) polarity a (omega arith) (omega (arith, p))
        (omega (arith, small)) (omega (arith, clear)) in
    let e₂ =
      bit_or-field 15 1 48 (a₁ % 2 ^ 15) (a₁ / 2 ^ 16) trigger_mode a₁ (omega arith)
        (omega (arith, t)) (omega (arith, clear, small, p)) (omega (arith, clear, p)) in
    let e₃ =
      bit_or-field 16 1 47 (a₂ % 2 ^ 16) (a₂ / 2 ^ 17) mask a₂ (omega arith) (omega (arith, m))
        (omega (arith, clear, small, p, t)) (omega (arith, clear, p, t)) in
    rw (e₁, e₂) e₃

-- The fields of an entry do not overlap, whichever processors it goes to.
pub redirection_entry-Encodes :
    (r : Redirection)
    → IsRedirection r
    → (entry : ℕ) × (redirection_entry r ≡ ok entry) × Encodes r entry
unfolding redirection_entry
redirection_entry-Encodes r v =
    let start : or64 0 r.vector ≡ r.vector = bit_or-zero 64 r.vector (omega (arith, v.vector)) in
    let mask : from_bool r.mask < 2 = ground arith in
    elim (Bool-cases r.reidirect_to_lowest_priority) [
      | inl lowest ↦
          let a = r.vector + 1 * 2 ^ 8 in
          let mode =
            bit_or-field 8 3 53 (r.vector % 2 ^ 8) (r.vector / 2 ^ 11) 1 r.vector (omega arith)
              (omega arith) (omega (arith, v.vector)) (omega (arith, v.vector)) in
          let upper =
            upper_fields a r.polarity r.trigger_mode (from_bool r.mask) (omega (arith, v.vector))
              (omega (arith, v.vector)) v.polarity v.trigger_mode mask in
          let entry =
            a + r.polarity * 2 ^ 13 + r.trigger_mode * 2 ^ 15 + from_bool r.mask * 2 ^ 16 in
          (
            entry,
            rw (start, lowest, mode, upper) refl,
            rw lowest (omega (arith, v.vector, v.polarity, v.trigger_mode, mask)),
          )
      | inr fixed ↦
          let a = r.vector + 0 * 2 ^ 8 + r.apic_id_to_redirect * 2 ^ 56 in
          let mode =
            bit_or-field 8 3 53 (r.vector % 2 ^ 8) (r.vector / 2 ^ 11) 0 r.vector (omega arith)
              (omega arith) (omega (arith, v.vector)) (omega (arith, v.vector)) in
          let destination =
            bit_or-field 56 8 0 (r.vector + 0 * 2 ^ 8) 0 r.apic_id_to_redirect
              (r.vector + 0 * 2 ^ 8) (omega (arith, v.vector)) (omega (arith, v.apic_id))
              (omega arith) (omega arith) in
          let upper =
            upper_fields a r.polarity r.trigger_mode (from_bool r.mask) (omega (arith, v.vector))
              (omega (arith, v.vector, v.apic_id)) v.polarity v.trigger_mode mask in
          let narrow : (r.apic_id_to_redirect % 2 ^ 4 == r.apic_id_to_redirect) ≡ true =
            ground (arith, v.apic_id) in
          let entry =
            a + r.polarity * 2 ^ 13 + r.trigger_mode * 2 ^ 15 + from_bool r.mask * 2 ^ 16 in
          (
            entry,
            rw (start, fixed, narrow, mode, destination, upper) refl,
            rw fixed (omega (arith, v.vector, v.apic_id, v.polarity, v.trigger_mode, mask)),
          )
    ]
