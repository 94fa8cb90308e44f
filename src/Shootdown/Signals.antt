-- ===== src/Shootdown/Signals.antt =====
-- A sender that waits is signalled as often as it waits for.
use garbage_os.Base.{
  ℕ, suc, ◌+◌, ◌%◌, ◌^◌, ◌≤◌, ◌<◌, ◌≡◌, refl, true, false, Option, none, some, List, [], ◌∷◌, ◌++◌,
  length, arith, ◌==◌, ◌!=◌, lt→ltb, Bool-cases, inl, inr, if◌then◌else◌, ok,
}
use garbage_os.Shootdown.{
  Range, Queue, Event, delete_page, delete_all, signal, interrupt_all, interrupt_others,
  enqueue_from, count_from, push_to_shootdown_q, vmmcache_shootdown, init_state,
  init_vmmcache_shootdown_state, enqueue_vmmcache_shootdown_range, signal_of,
}
use garbage_os.Shootdown.Drain.{signals}

-- How often a state is signalled.
abbrev pub count_signals : ℕ → List Event → ℕ
count_signals s [] = 0
count_signals s (signal t ∷ es) = if t == s then suc (count_signals s es) else count_signals s es
count_signals s (delete_page a ∷ es) = count_signals s es
count_signals s (delete_all ∷ es) = count_signals s es
count_signals s (interrupt_all ∷ es) = count_signals s es
count_signals s (interrupt_others ∷ es) = count_signals s es

-- How often it is signalled when each queue is emptied.
abbrev pub signals_to : ℕ → List Queue → ℕ
signals_to s [] = 0
signals_to s (q ∷ qs) = count_signals s (signals q.nodes) + signals_to s qs

count_signals-signal_of :
    (s : ℕ) (o : Option ℕ) (es : List Event)
    → o ≡ some s
    → count_signals s (signal_of o ++ es) ≡ suc (count_signals s es)
count_signals-signal_of s none es e = cc
count_signals-signal_of s (some t) es e = let same : t ≡ s = cc in ground (arith, same)

signals_to-enqueue_from :
    (s i self : ℕ) (r : Range) (qs : List Queue)
    → r.state ≡ some s
    → signals_to s (enqueue_from i self r qs) ≡ count_from i self qs + signals_to s qs
unfolding enqueue_from count_from push_to_shootdown_q
signals_to-enqueue_from s i self r [] e = refl
signals_to-enqueue_from s i self r (q ∷ qs) e =
    let ih = signals_to-enqueue_from s (suc i) self r qs e in
    let one = count_signals-signal_of s r.state (signals q.nodes) e in
    rw ih (elim (Bool-cases q.active) [
      | inr idle ↦ rw idle (ground arith)
      | inl busy ↦ elim (Bool-cases (i == self)) [
        | inl own ↦
            let not_other : (i != self) ≡ false = ground arith in
            rw (busy, own, not_other) (omega arith)
        | inr other ↦
            let is_other : (i != self) ≡ true = ground arith in
            rw (busy, other, is_other, one) (omega arith)
      ]
    ])

count_from-length : (i self : ℕ) (qs : List Queue) → count_from i self qs ≤ length qs
unfolding count_from
count_from-length i self [] = omega arith
count_from-length i self (q ∷ qs) = ground (arith, count_from-length (suc i) self qs)

-- A shootdown with a state that no queue has yet, on fewer than 2 ^ 32 processors, returns queues and
-- a count to wait for: the state is signalled as often when each of the queues is emptied.
pub vmmcache_shootdown-signals_to :
    (s self : ℕ) (r : Range) (queues : List Queue)
    → r.state ≡ some s
    → self < length queues
    → length queues < 2 ^ 32
    → signals_to s queues ≡ 0
    → (queues' : List Queue) × (count : ℕ) × (vmmcache_shootdown (some queues) self r
        ≡ ok (queues', count, interrupt_others ∷ []))
      × (signals_to s queues' ≡ count)
unfolding vmmcache_shootdown init_state init_vmmcache_shootdown_state
    enqueue_vmmcache_shootdown_range
vmmcache_shootdown-signals_to s self r queues e inside few fresh =
    let bound = count_from-length 0 self queues in
    (
      enqueue_from 0 self r queues,
      count_from 0 self queues % 2 ^ 32,
      rw (e, lt→ltb _ _ inside) refl,
      (let sum = signals_to-enqueue_from s 0 self r queues e in
          omega (arith, sum, bound, few, fresh)),
    )
