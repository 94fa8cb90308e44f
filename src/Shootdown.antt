-- ===== src/Shootdown.antt =====
-- kernel/mem/vaddr_cache_shootdown.c: ranges of addresses whose cached translations other processors
-- must drop, in a queue for each processor. A queue's nodes are a list, the head first; `self` is the
-- index that the processor's own identifier gives.
pub mod Drain
pub mod Signals
mod Tests
use garbage_os.Base.{
  ℕ, zero, suc, ◌+◌, ◌-◌, ◌*◌, ◌%◌, ◌^◌, Bool, true, false, ◌&&◌, not, Option, none, some, List, [],
  ◌∷◌, ◌++◌, length, ◌==◌, ◌!=◌, ltb, if◌then◌else◌, add64, sub64, null, page_size, Outcome, ok,
  ◌>>=◌, ◌>>◌, kassert,
}

-- `_VMMCacheShootdownRange`: the state is the pointer that the sender waits with, or none.
pub record Range : Type 0 where
  pub addr_start : ℕ
  pub size_in_pages : ℕ
  pub state : Option ℕ

-- `VMMCacheShootdownQueue`
pub record Queue : Type 0 where
  pub nodes : List Range
  pub node_count : ℕ
  pub active : Bool

-- What a processor does to the world outside the queues: it drops the translation of a page or all of
-- them, counts a queue as emptied in a sender's state, or interrupts other processors.
pub data Event : Type 0 where
  delete_page : ℕ → Event
  delete_all : Event
  signal : ℕ → Event
  interrupt_all interrupt_others : Event

unfoldable pub is_vmmcache_shootdown_range_null : Range → Bool
is_vmmcache_shootdown_range_null r = (null == r.addr_start) && (0 == r.size_in_pages)

abbrev pub is_shootdown_q_empty : Queue → Bool
is_shootdown_q_empty q = elim q.nodes [ [] ↦ true | x ∷ xs ↦ false ]

unfoldable pub push_to_shootdown_q : Queue → Range → Queue
push_to_shootdown_q q r = record q { nodes = r ∷ q.nodes; node_count = add64 q.node_count 1 }

abbrev pub rest_of : List Range → List Range
rest_of [] = []
rest_of (x ∷ xs) = xs

abbrev pub null_range : Range
null_range = record { addr_start = null; size_in_pages = 0; state = none }

abbrev pub first_of : List Range → Range
first_of [] = null_range
first_of (x ∷ xs) = x

unfoldable pub pop_from_shootdown_q : Queue → Outcome (Range × Queue)
pop_from_shootdown_q q = do
  kassert (not (is_shootdown_q_empty q))
  ok (first_of q.nodes, record q { nodes = rest_of q.nodes; node_count = sub64 q.node_count 1 })

-- The pages from `start` on.
unfoldable pub delete_pages : (n start : ℕ) → List Event
delete_pages zero start = []
delete_pages (suc n) start = delete_page start ∷ delete_pages n (add64 start page_size)

unfoldable pub delete_vmmcache_range : Range → List Event
delete_vmmcache_range r =
    delete_pages r.size_in_pages (sub64 r.addr_start (r.addr_start % page_size))

abbrev pub initialize_cache_shootdown_queue : Queue
initialize_cache_shootdown_queue = record { nodes = []; node_count = 0; active = false }

-- `initialize_vmmcache_shootdown_subsystem`, for `n` usable processors
unfoldable pub initialize_queues : (n : ℕ) → List Queue
initialize_queues zero = []
initialize_queues (suc n) = initialize_cache_shootdown_queue ∷ initialize_queues n

-- `activate_this_cpu_vmmcache_shootdown`
unfoldable pub activate : Queue → Queue × List Event
activate q = (record q { active = true }, delete_all ∷ [])

-- The loop of `_enqueue_vmmcache_shootdown_range` from index `i` on.
unfoldable pub enqueue_from : (i self : ℕ) → Range → List Queue → List Queue
enqueue_from i self r [] = []
enqueue_from i self r (q ∷ qs) =
    (if q.active && (i != self) then push_to_shootdown_q q r else q)
    ∷ enqueue_from (suc i) self r qs

-- `queues` is `queue_array`, or none before the initialisation.
unfoldable pub enqueue_vmmcache_shootdown_range :
    Option (List Queue) → (self : ℕ) → Range → Outcome (List Queue)
enqueue_vmmcache_shootdown_range none self r = kassert false >> ok []
enqueue_vmmcache_shootdown_range (some queues) self r = do
  kassert (ltb self (length queues))
  ok (enqueue_from 0 self r queues)

-- The loop of `init_vmmcache_shootdown_state` from index `i` on.
unfoldable pub count_from : (i self : ℕ) → List Queue → ℕ
count_from i self [] = 0
count_from i self (q ∷ qs) =
    let rest = count_from (suc i) self qs in
    if i == self then rest else if not q.active then rest else suc rest

-- `queues_to_wait_count` of a new state, as an unsigned int
unfoldable pub init_vmmcache_shootdown_state : Option (List Queue) → (self : ℕ) → Outcome ℕ
init_vmmcache_shootdown_state none self = kassert false >> ok 0
init_vmmcache_shootdown_state (some queues) self = do
  kassert (ltb self (length queues))
  ok (count_from 0 self queues % 2 ^ 32)

-- The count to wait for, if there is a state to wait with.
unfoldable pub init_state : Option (List Queue) → (self : ℕ) → Option ℕ → Outcome ℕ
init_state queues self none = ok 0
init_state queues self (some s) = init_vmmcache_shootdown_state queues self

-- The queues after the call, the count to wait for, and the interrupt.
unfoldable pub vmmcache_shootdown :
    Option (List Queue) → (self : ℕ) → Range → Outcome (List Queue × ℕ × List Event)
vmmcache_shootdown queues self r = do
  count ← init_state queues self r.state
  queues' ← enqueue_vmmcache_shootdown_range queues self r
  ok (queues', count, interrupt_others ∷ [])

-- `empty_all_vmmcache_shootdown_queues` and its twin, by the interrupt that they send
unfoldable pub empty_vmmcache_shootdown_queues :
    (interrupt : Event) → List Queue → (self : ℕ) → Option ℕ → Outcome (List Queue × ℕ × List Event)
empty_vmmcache_shootdown_queues interrupt queues self none = ok (queues, 0, interrupt ∷ [])
empty_vmmcache_shootdown_queues interrupt queues self (some s) = do
  count ← init_vmmcache_shootdown_state (some queues) self
  queues' ←
      enqueue_vmmcache_shootdown_range (some queues) self (record null_range { state = some s })
  ok (queues', count, interrupt ∷ [])

abbrev pub signal_of : Option ℕ → List Event
signal_of none = []
signal_of (some s) = signal s ∷ []

-- What the handler does with a range.
unfoldable pub process_range : Range → List Event
process_range r =
    (if is_vmmcache_shootdown_range_null r then delete_vmmcache_range r else [])
    ++ signal_of r.state

-- The loop of the handler, for at most `n` rounds.
unfoldable pub drain : (n : ℕ) → Queue → Outcome (List Event × Queue)
drain zero q = ok ([], q)
drain (suc n) q = if is_shootdown_q_empty q then ok ([], q) else (do
  (r, q₁) ← pop_from_shootdown_q q
  (events, q₂) ← drain n q₁
  ok (process_range r ++ events, q₂))

-- The handler on the queue of its processor, while nothing is pushed to it: a round for each node.
unfoldable pub cache_shootdown_interrupt_handler : Queue → Outcome (List Event × Queue)
cache_shootdown_interrupt_handler q = drain (length q.nodes) q

-- The test of `wait_for_vmmcache_shootdown_completition`
abbrev pub is_complete : (emptied_queues_count queues_to_wait_count : ℕ) → Bool
is_complete emptied_queues_count queues_to_wait_count =
    not (ltb emptied_queues_count queues_to_wait_count)
