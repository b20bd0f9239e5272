-- ===== src/Events/Monitor.antt =====
-- `sys/epoll_monitor`: the loop that waits for the events of a queue. What the kernel answers to
-- `fstat`, `epoll_ctl` and `epoll_wait` is an argument; what it was told to watch is kept in `watch`.
pub mod Allocated
pub mod Watched
pub mod Refused
pub mod Rounds
use relay_proxy.Base.{
  ℕ, ◌+◌, ℤ, pos, eqb_ℤ, ltb_ℤ, incr, Bool, true, false, not, ◌&&◌, ◌||◌, if◌then◌else◌, Option,
  none, some, List, [], ◌∷◌, Result, ok, throw, ◌>>=◌, Exception, assertion, null_pointer,
  out_of_range,
}
use relay_proxy.Events.{
  EventQueue, EventBase, TimeVal, upd, add_sorted, del, update_event, is_time_out, set_mask,
  check_mask, ev_read, ev_write, ev_timeout, ev_persist,
}

abbrev pub epoll_in : ℕ
epoll_in = 1

abbrev pub epoll_out : ℕ
epoll_out = 4

pub record Monitor : Type 0 where
  pub event_queue : EventQueue
  -- The `events` and the `data.ptr` of a descriptor in the epoll set.
  pub watch : ℤ → Option (ℕ × ℕ)
  pub stop : Bool
  pub heart_beat_count : ℤ

-- `ev.events` in `add_fd`, `update_fd` and `del_fd`.
unfoldable pub epoll_events : ℕ → ℕ
epoll_events event =
    (if check_mask event ev_read then epoll_in else 0)
    + (if check_mask event ev_write then epoll_out else 0)

abbrev pub upd_ℤ {ℓ} : {A : Type ℓ} → (ℤ → A) → ℤ → A → ℤ → A
upd_ℤ f p v q = if eqb_ℤ p q then v else f q

-- `add_fd` and `update_fd` where `epoll_ctl` succeeds.
unfoldable pub watch_fd : ℕ → Monitor → Monitor
watch_fd p m =
    let e = m.event_queue.object p in
    record m { watch = upd_ℤ m.watch e.fd (some (epoll_events e.event, p)) }

-- A `CTrpcException` is caught and becomes -1; a failed assertion ends the process.
unfoldable pub caught : Exception → Bool
caught assertion = false
caught null_pointer = false
caught out_of_range = false
caught e = true

abbrev pub refused : Monitor → Exception → Result (Monitor × Bool)
refused m x = if caught x then ok (m, false) else throw x

-- The event, at its new address, before it is in a queue.
unfoldable pub allocate : ℕ → EventBase → Monitor → Monitor
allocate p e m = record m {
  event_queue = record m.event_queue {
    object = upd m.event_queue.object p e;
    in_queue = upd m.event_queue.in_queue p false;
    next = upd m.event_queue.next p none;
    prev = upd m.event_queue.prev p none;
  };
}

-- `add`, with the answers of `fstat` and `epoll_ctl`: true for 0 and false for -1. The event is in
-- the queue before the kernel is asked, and stays there whatever it answers.
unfoldable pub add_allocated :
    (fuel : ℕ) → (fstat_ok ctl_ok : Bool) → ℕ → Monitor → Result (Monitor × Bool)
add_allocated fuel fstat_ok ctl_ok p m = elim (add_sorted fuel p m.event_queue) [
  | throw x ↦ refused m x
  | ok q ↦
      let m' = record m { event_queue = q } in
      if fstat_ok && ctl_ok then ok (watch_fd p m', true) else ok (m', false)
]

unfoldable pub add :
    (fuel : ℕ) → (fstat_ok ctl_ok : Bool) → ℕ → EventBase → Monitor → Result (Monitor × Bool)
add fuel fstat_ok ctl_ok p e m = add_allocated fuel fstat_ok ctl_ok p (allocate p e m)

abbrev pub change_object : ℕ → (EventBase → EventBase) → Monitor → Monitor
change_object p f m = record m {
  event_queue = record m.event_queue {
    object = upd m.event_queue.object p (f (m.event_queue.object p));
  };
}

-- `update`: the event is changed before `epoll_ctl` is asked.
unfoldable pub update : Bool → ℕ → (event handler param : ℕ) → Monitor → Monitor × Bool
update ctl_ok p event handler param m =
    let m' = change_object p (update_event event handler param) m in
    if ctl_ok then (watch_fd p m', true) else (m', false)

-- `del`. True means that the event was deleted and the caller's pointer set to NULL; a failed
-- `epoll_ctl` is passed over.
unfoldable pub delete : ℕ → Monitor → Result (Monitor × Bool)
delete p m =
    if not (m.event_queue.in_queue p)
    then ok (m, false)
    else (if check_mask (m.event_queue.object p).event ev_persist
        then ok (m, false)
        else (del p m.event_queue >>= λ q. ok (
          record m { event_queue = q; watch = upd_ℤ m.watch (m.event_queue.object p).fd none },
          true,
        )))

-- `reset_event`: the active events for what `epoll_wait` reports.
unfoldable pub active_of : TimeVal → ℕ → EventBase → ℕ
active_of now what e =
    let r = if check_mask what epoll_in then set_mask 0 ev_read else 0 in
    let w = if check_mask what epoll_out then set_mask r ev_write else r in
    if check_mask what epoll_in || check_mask what epoll_out
    then w
    else (if is_time_out now e then set_mask w ev_timeout else w)

-- One call of a handler: the event, what is active, and the handler with its parameter.
pub record Call : Type 0 where
  pub event_base : ℕ
  pub fd : ℤ
  pub active : ℕ
  pub handler : ℕ
  pub param : ℕ

-- `process`: `reset_event` and `handler_run`.
unfoldable pub process : TimeVal → ℕ → ℕ → Monitor → Monitor × List Call
process now p what m =
    let e = m.event_queue.object p in
    let a = active_of now what e in
    (
      change_object p (λ o. record o { active_event = a }) m,
      if check_mask a e.event
          then record {
            event_base = p;
            fd = e.fd;
            active = a;
            handler = e.handler;
            param = e.param;
          }
            ∷ []
          else [],
    )

-- The loop over what `epoll_wait` reported. A handler may change the monitor.
unfoldable pub process_all :
    (run : Call → Monitor → Monitor) → TimeVal → List (ℕ × ℕ) → Monitor → Monitor
process_all run now [] m = m
process_all run now ((p, what) ∷ rest) m =
    let (m', calls) = process now p what m in
    process_all run now rest (elim calls [ [] ↦ m' | c ∷ cs ↦ run c m' ])

-- The counter of `monitor_once`, and whether the heart beat is sent.
unfoldable pub beat : Monitor → Monitor × Bool
beat m =
    let n = incr m.heart_beat_count in
    if ltb_ℤ (pos 32) n
    then (record m { heart_beat_count = pos 0 }, true)
    else (record m { heart_beat_count = n }, false)

-- `monitor_once`; `none` is the exit of the process where nothing is waited for. A negative answer
-- of `epoll_wait` is an empty list.
unfoldable pub monitor_once :
    (run : Call → Monitor → Monitor) → TimeVal → List (ℕ × ℕ) → Monitor → Option (Monitor × Bool)
monitor_once run now reported m =
    if eqb_ℤ m.event_queue.size (pos 0) then none else some (beat (process_all run now reported m))
