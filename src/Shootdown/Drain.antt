-- ===== src/Shootdown/Drain.antt =====
-- The interrupt handler empties its queue.
use garbage_os.Base.{
  ℕ, ◌^◌, ◌<◌, ◌≡◌, refl, Bool, Bool-cases, inl, inr, List, [], ◌∷◌, ◌++◌, length, arith, sub64, ok,
}
use garbage_os.Shootdown.{
  Range, Queue, Event, drain, cache_shootdown_interrupt_handler, pop_from_shootdown_q,
  process_range, delete_vmmcache_range, delete_pages, is_vmmcache_shootdown_range_null, signal_of,
}

-- The signals for the ranges of a queue, the head's first.
abbrev pub signals : List Range → List Event
signals [] = []
signals (r ∷ rs) = signal_of r.state ++ signals rs

-- Only the null range has its pages deleted, and it has none.
process_range_signals : (r : Range) → process_range r ≡ signal_of r.state
unfolding process_range is_vmmcache_shootdown_range_null delete_vmmcache_range delete_pages
process_range_signals r = elim (Bool-cases (is_vmmcache_shootdown_range_null r)) [
  | inl is_null ↦ let no_pages : r.size_in_pages ≡ 0 = ground arith in rw (is_null, no_pages) refl
  | inr other ↦ rw other refl
]

drain-signals :
    (rs : List Range) (c : ℕ) (a : Bool)
    → length rs ≡ c
    → c < 2 ^ 64
    → drain (length rs) (record { nodes = rs; node_count = c; active = a })
      ≡ ok (signals rs, record { nodes = []; node_count = 0; active = a })
unfolding drain pop_from_shootdown_q
drain-signals [] c a e small = rw⁻¹ e refl
drain-signals (r ∷ rs) c a e small =
    let one_less : sub64 c 1 ≡ length rs = omega (arith, e) in
    let rest = drain-signals rs (length rs) a refl (omega (arith, e)) in
    rw (one_less, rest, process_range_signals r) refl

-- The handler empties a queue whose count is that of its nodes, however long, and all that it does to
-- the outside is to signal the states of the ranges, the one that was pushed last first: it deletes
-- no translation at all.
pub cache_shootdown_interrupt_handler-signals :
    (q : Queue)
    → length q.nodes ≡ q.node_count
    → q.node_count < 2 ^ 64
    → cache_shootdown_interrupt_handler q
      ≡ ok (signals q.nodes, record q { nodes = []; node_count = 0 })
unfolding cache_shootdown_interrupt_handler
cache_shootdown_interrupt_handler-signals q e small =
    drain-signals q.nodes q.node_count q.active e small
