-- ===== src/Shootdown/Tests.antt =====
-- Runs of the shootdown.
use garbage_os.Base.{ℕ, ◌≡◌, refl, true, some, List, [], ◌∷◌, arith, ok}
use garbage_os.Shootdown.{
  Range, Queue, interrupt_others, init_state, init_vmmcache_shootdown_state, count_from,
  enqueue_vmmcache_shootdown_range, enqueue_from, push_to_shootdown_q, vmmcache_shootdown,
  cache_shootdown_interrupt_handler,
}
use garbage_os.Shootdown.Drain.{signals, cache_shootdown_interrupt_handler-signals}
use garbage_os.Shootdown.Signals.{signals_to, vmmcache_shootdown-signals_to}

abbrev two_pages : Range
two_pages = record { addr_start = 8192; size_in_pages = 2; state = some 7 }

abbrev one_queue : Queue
one_queue = record { nodes = two_pages ∷ []; node_count = 1; active = true }

abbrev empty_queue : Queue
empty_queue = record { nodes = []; node_count = 0; active = true }

vmmcache_shootdown-signals_to_example :
    (queues' : List Queue) × (count : ℕ) × (vmmcache_shootdown
        (some (empty_queue ∷ empty_queue ∷ []))
        0
        two_pages
      ≡ ok (queues', count, interrupt_others ∷ []))
    × (signals_to 7 queues' ≡ count)
vmmcache_shootdown-signals_to_example =
    vmmcache_shootdown-signals_to 7 0 two_pages (empty_queue ∷ empty_queue ∷ []) refl (omega arith)
      (omega arith) refl

-- The range is in the queue of the other processor.
sent_queues :
    vmmcache_shootdown (some (empty_queue ∷ empty_queue ∷ [])) 0 two_pages
    ≡ ok (empty_queue ∷ one_queue ∷ [], 1, interrupt_others ∷ [])
unfolding vmmcache_shootdown init_state init_vmmcache_shootdown_state count_from
    enqueue_vmmcache_shootdown_range enqueue_from push_to_shootdown_q
sent_queues = refl

cache_shootdown_interrupt_handler-signals_example :
    cache_shootdown_interrupt_handler one_queue
    ≡ ok (signals (two_pages ∷ []), record one_queue { nodes = []; node_count = 0 })
cache_shootdown_interrupt_handler-signals_example =
    cache_shootdown_interrupt_handler-signals one_queue refl (omega arith)
