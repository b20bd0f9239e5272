-- ===== src/Events/Examples.antt =====
-- Runs of the event queue, and instances for its theorems: descriptors 7 and 5 are waited for.
use relay_proxy.Base.{
  ℕ, ◌+◌, ◌≡◌, refl, pos, negsuc, true, false, if◌then◌else◌, ◌==◌, ◌/◌, none, some, List, ◌≤◌, [],
  ◌∷◌, ok, arith,
}
use relay_proxy.Events.{EventBase, EventQueue, upd, add_sorted, check_mask}
use relay_proxy.Events.Links.{Fresh}
use relay_proxy.Events.Queue.{Holds}
use relay_proxy.Events.Sorted.{Falling, IsNew, key_of, add_sorted-Falling}
use relay_proxy.Events.Monitor.{Monitor, add, delete, allocate, epoll_events, upd_ℤ}
use relay_proxy.Events.Monitor.Allocated.{Watches, IsNewEvent}
use relay_proxy.Events.Monitor.Watched.{add-Watches, delete-Watches}
use relay_proxy.Events.Monitor.Refused.{Attempt, attempts, all_false, add_refused-stuck}
use relay_proxy.Events.Monitor.Rounds.{beats, beats_count}

abbrev event_of : ℕ → EventBase
event_of p = record {
  fd = if p == 0 then negsuc 0 else pos p;
  event = 3;
  param = 1;
  handler = 1;
  active_event = 0;
  time_out = pos 2000;
  init_time = record { tv_sec = pos 100; tv_usec = pos 0 };
}

-- The node 0 is the end node; 7 and 5 stand before it.
abbrev queue : EventQueue
queue = record {
  next = upd (upd (λ p. none) 7 (some 5)) 5 (some 0);
  prev = upd (upd (λ p. none) 5 (some 7)) 0 (some 5);
  in_queue = upd (upd (λ p. false) 7 true) 5 true;
  object = event_of;
  head = 7;
  tail = 0;
  size = pos 2;
}

abbrev monitor : Monitor
monitor = record {
  event_queue = queue;
  watch = upd_ℤ (upd_ℤ (λ f. none) (pos 7) (some (1, 7))) (pos 5) (some (1, 5));
  stop = false;
  heart_beat_count = pos 0;
}

queue-Holds : Holds (7 ∷ 5 ∷ []) queue
queue-Holds = record {
  from_head = refl;
  linked = (refl, refl, (refl, refl, tt));
  distinct = (
    ((λ e. omega (arith, e)), ((λ e. omega (arith, e)), tt)),
    ((((λ e. omega (arith, e)), tt)), (tt, tt)),
  );
  marked = (refl, (refl, tt));
  counted = refl;
}

queue-Falling : Falling (key_of queue) (7 ∷ 5 ∷ [])
queue-Falling = omega arith

six_IsNew : IsNew 6 (7 ∷ 5 ∷ []) queue
six_IsNew = record {
  unmarked = refl;
  fresh = ((λ e. omega (arith, e)), ((λ e. omega (arith, e)), ((λ e. omega (arith, e)), tt)));
  other_keys = (refl, (refl, (refl, tt)));
}

add_sorted-Falling_example :
    (t : EventQueue) × (add_sorted 2 6 queue ≡ ok t)
    × Holds (7 ∷ 6 ∷ 5 ∷ []) t
    × Falling (key_of t) (7 ∷ 6 ∷ 5 ∷ [])
    × (t.object ≡ event_of)
    × (t.tail ≡ 0)
add_sorted-Falling_example =
    add_sorted-Falling 2 6 (7 ∷ 5 ∷ []) queue queue-Holds queue-Falling six_IsNew (omega arith)
      (omega arith)

monitor-Watches : Watches (7 ∷ 5 ∷ []) monitor
unfolding epoll_events check_mask
monitor-Watches = record {
  holds = queue-Holds;
  falling = queue-Falling;
  watched = (refl, (refl, tt));
}

six_IsNewEvent : IsNewEvent 6 (event_of 6) (7 ∷ 5 ∷ []) monitor
six_IsNewEvent = record {
  fresh = six_IsNew.fresh;
  other_keys = (refl, (refl, (refl, tt)));
  room = omega arith;
}

add-Watches_example :
    (m' : Monitor) × (add 2 true true 6 (event_of 6) monitor ≡ ok (m', true))
    × Watches (7 ∷ 6 ∷ 5 ∷ []) m'
unfolding allocate
add-Watches_example =
    add-Watches 2 6 (event_of 6) (7 ∷ 5 ∷ []) monitor monitor-Watches six_IsNewEvent (omega arith)

delete-Watches_example :
    (m' : Monitor) × (delete 5 monitor ≡ ok (m', true))
    × Watches (7 ∷ []) m'
    × (m'.watch (pos 5) ≡ none)
    × (m'.event_queue.in_queue 5 ≡ false)
unfolding check_mask
delete-Watches_example = delete-Watches 5 (7 ∷ []) [] monitor monitor-Watches refl (omega arith)

abbrev again : List Attempt
again =
    record { address = 8; event = event_of 6; fstat_ok = true; ctl_ok = true }
    ∷ record { address = 9; event = event_of 6; fstat_ok = true; ctl_ok = true }
    ∷ []

away_from_queue : (r : ℕ) → 8 ≤ r → Fresh r (7 ∷ 6 ∷ 5 ∷ 0 ∷ [])
away_from_queue r h = (
  (λ e. omega (arith, e, h)),
  ((λ e. omega (arith, e, h)), ((λ e. omega (arith, e, h)), ((λ e. omega (arith, e, h)), tt))),
)

add_refused-stuck_example :
    (m' : Monitor) × (add 3 true false 6 (event_of 6) monitor ≡ ok (m', false))
    × (m'.event_queue.in_queue 6 ≡ true)
    × (m'.watch ≡ monitor.watch)
    × ((m'' : Monitor) × (attempts 3 again m' ≡ ok (m'', false ∷ false ∷ []))
        × (m''.event_queue.in_queue 6 ≡ true)
        × (m''.watch ≡ monitor.watch))
unfolding allocate all_false
add_refused-stuck_example =
    add_refused-stuck 3 6 (event_of 6) true false again (7 ∷ 5 ∷ []) monitor monitor-Watches
      six_IsNewEvent (omega arith) refl
      ((away_from_queue 8 (omega arith), refl), ((away_from_queue 9 (omega arith), refl), tt))

beats_count_example : beats 70 monitor ≡ (70 + 0) / 33
beats_count_example = beats_count 70 0 monitor refl (omega arith)
