-- ===== src/Vmm/Manager/Laws/Relink.antt =====
-- A list of descriptors after one of them has been cut.
use mathlib.Core.List.{append_assoc}
use garbage_os.Base.{
  ℕ, ◌+◌, ◌≡◌, refl, sym, ap, subst, ◌∙◌, ◌≢◌, Bool, true, some, List, [], ◌∷◌, ◌++◌, arith,
  if◌then◌else◌,
}
use garbage_os.Vmm.Descriptors.{Descriptor, VirtualMemoryType, Walk, Cut}
use garbage_os.Vmm.Layout.{
  IsBlock, IsLayout, IsLayout-here, IsLayout-le, type_at, within, Replaces, Replaces-IsLayout,
  type_at-Replaces,
}
use garbage_os.Vmm.Layout.Cut.{pieces}
use garbage_os.Vmm.Layout.Walk.{Stops}
use garbage_os.Vmm.Manager.{Vmm, relink}
use garbage_os.Vmm.Manager.Laws.{IsValid}

type_at-here :
    (lo : ℕ) (xs : List Descriptor) (d : Descriptor) (ys : List Descriptor) (a : ℕ)
    → IsLayout lo (xs ++ d ∷ ys)
    → within d.start_vaddr d.size_bytes a ≡ true
    → type_at (xs ++ d ∷ ys) a ≡ some d.type
unfolding type_at
type_at-here lo [] d ys a l h = rw h refl
type_at-here lo (x ∷ xs) d ys a l h = ground (
  arith,
  type_at-here (x.start_vaddr + x.size_bytes) xs d ys a l.2 h,
  IsLayout-le (x.start_vaddr + x.size_bytes) xs d ys l.2,
)

append_ne_nil : (xs : List Descriptor) (d : Descriptor) (ys : List Descriptor) → xs ++ d ∷ ys ≢ []
append_ne_nil [] d ys = λ e. cc
append_ne_nil (x ∷ xs) d ys = λ e. cc

pub Stops-IsBlock :
    (v : Vmm) (stop : Descriptor → Bool) (w : Walk)
    → IsValid v
    → Stops stop v.descriptors w
    → IsBlock w.here
Stops-IsBlock v stop w ok_v s =
    (IsLayout-here 0 w.passed w.here w.ahead (subst (IsLayout 0) (sym s.whole) ok_v.layout)).0

-- The addresses from `start` on had type `before` in `v`, and have type `after` in `v'`; the others
-- have the type that they had. `v'` is valid.
pub record Retyped (v v' : Vmm) (start size : ℕ) (before after : VirtualMemoryType) : Type 0 where
  pub valid : IsValid v'
  pub type_before : (a : ℕ) → within start size a ≡ true → type_at v.descriptors a ≡ some before
  pub type_after :
      (a : ℕ)
      → type_at v'.descriptors a
        ≡ (if within start size a then some after else type_at v.descriptors a)

pub relink-Retyped :
    (v : Vmm) (stop : Descriptor → Bool) (w : Walk) (c : Cut) (t : VirtualMemoryType) (u l : ℕ)
    {start size : ℕ}
    → IsValid v
    → Stops stop v.descriptors w
    → Replaces w.here start size t (pieces c t u l)
    → Retyped v
        (record v {
          descriptors =
              relink w c (record c.cutted { type = t; upper_padding = u; lower_padding = l });
          pool = c.pool;
        })
        start
        size
        w.here.type
        t
relink-Retyped v stop w c t u l {start} {size} ok_v s r =
    let layout = subst (IsLayout 0) (sym s.whole) ok_v.layout in
    let d = record c.cutted { type = t; upper_padding = u; lower_padding = l } in
    let regroup : w.passed ++ (pieces c t u l ++ w.ahead) ≡ relink w c d =
      ap (λ ys. w.passed ++ ys) (append_assoc c.before (d ∷ c.after) w.ahead) in
    record {
      valid = record {
        layout =
            subst (IsLayout 0) regroup
              (Replaces-IsLayout 0 w.passed (pieces c t u l) w.here w.ahead layout r);
        some_descriptor =
            rw (← append_assoc w.passed c.before (d ∷ (c.after ++ w.ahead)))
              (append_ne_nil (w.passed ++ c.before) d (c.after ++ w.ahead));
        kernel = ok_v.kernel;
      };
      type_before = λ a i.
          subst (λ ds. type_at ds a ≡ some w.here.type) s.whole
            (type_at-here 0 w.passed w.here w.ahead a layout
              (ground (arith, r.start_in, r.end_in)));
      type_after = λ a.
          ap (λ ds. type_at ds a) (sym regroup)
          ∙ type_at-Replaces 0 w.passed (pieces c t u l) w.here w.ahead start size t layout r a
          ∙ ap (λ ds. if within start size a then some t else type_at ds a) s.whole;
    }
