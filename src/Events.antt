-- ===== src/Events.antt =====
-- `sys/event_base` and `sys/event_queue`: the events that a thread waits for, and the linked queue
-- that holds them in the order of their descriptors. An object is its address; the links of all
-- objects are maps from addresses.
pub mod Monitor
mod Links
mod Queue
mod Removal
mod Sorted
mod Examples
use Prim.Native.Nat.{bit_and, bit_or}
use relay_proxy.Base.{
  ℕ, zero, suc, ◌*◌, ℤ, pos, negsuc, ltb_ℤ, leb_ℤ, eqb_ℤ, ◌-ℤ◌, ◌+ℤ◌, ◌*ℤ◌, wrap_int, add_int, Bool,
  true, false, not, ◌&&◌, if◌then◌else◌, ◌==◌, Option, none, some, Result, ok, throw, ◌>>=◌, check,
  Exception, ipc_exception, null_pointer, err_sys_unknown,
}

-- `set_mask`, `unset_mask`, `check_mask` and `clean_mask` of `base/trpc_comm_func.cpp`. The second
-- one has the logical negation of the mask.
unfoldable pub set_mask : ℕ → ℕ → ℕ
set_mask base mask = bit_or base mask

unfoldable pub unset_mask : ℕ → ℕ → ℕ
unset_mask base mask = bit_and base (if mask == 0 then 1 else 0)

unfoldable pub check_mask : ℕ → ℕ → Bool
check_mask base mask = not (bit_and base mask == 0)

abbrev pub ev_timeout : ℕ
ev_timeout = 1

abbrev pub ev_read : ℕ
ev_read = 2

abbrev pub ev_write : ℕ
ev_write = 4

abbrev pub ev_persist : ℕ
ev_persist = 16

pub record TimeVal : Type 0 where
  pub tv_sec : ℤ
  pub tv_usec : ℤ

-- `CEventBase` without its links. A handler and its parameter are numbers.
pub record EventBase : Type 0 where
  pub fd : ℤ
  pub event : ℕ
  pub param : ℕ
  pub handler : ℕ
  pub active_event : ℕ
  pub time_out : ℤ
  pub init_time : TimeVal

-- `init`, and with it the constructor; `active_event` is what the memory held. The time-out in
-- microseconds is an `int`.
unfoldable pub init_event :
    (junk : ℕ) → (now : TimeVal) → (fd : ℤ) → (event handler param : ℕ) → (time_out : ℤ) → EventBase
init_event junk now fd event handler param time_out = record {
  fd = fd;
  event = event;
  param = param;
  handler = handler;
  active_event = junk;
  time_out = if leb_ℤ time_out (pos 0) then pos 2000 else wrap_int (time_out *ℤ pos 1000);
  init_time = now;
}

unfoldable pub update_event : (event handler param : ℕ) → EventBase → EventBase
update_event event handler param e = record e { event = event; handler = handler; param = param }

-- `is_time_out`: the difference in microseconds is cut to an `int`.
unfoldable pub is_time_out : TimeVal → EventBase → Bool
is_time_out now e =
    if check_mask e.event ev_persist
    then false
    else ltb_ℤ e.time_out (
        wrap_int (
          (now.tv_sec -ℤ e.init_time.tv_sec) *ℤ pos 1000000
          +ℤ (now.tv_usec -ℤ e.init_time.tv_usec)))

-- The objects and one queue. `tail` is the empty node of the constructor.
pub record EventQueue : Type 0 where
  pub next : ℕ → Option ℕ
  pub prev : ℕ → Option ℕ
  pub in_queue : ℕ → Bool
  pub object : ℕ → EventBase
  pub head : ℕ
  pub tail : ℕ
  pub size : ℤ

-- The constructor: only the end node, whose descriptor is -1.
unfoldable pub new_queue : ℕ → EventBase → EventQueue
new_queue tail e = record {
  next = λ p. none;
  prev = λ p. none;
  in_queue = λ p. false;
  object = λ p. record e { fd = negsuc 0; event = 0; param = 0; handler = 0 };
  head = tail;
  tail = tail;
  size = pos 0;
}

abbrev pub upd {ℓ} : {A : Type ℓ} → (ℕ → A) → ℕ → A → ℕ → A
upd f p v q = if p == q then v else f q

-- `add`: in front. The `_prev` of the new head is not written.
unfoldable pub link_front : ℕ → EventQueue → EventQueue
link_front value s = record s {
  next = upd s.next value (some s.head);
  prev = upd s.prev s.head (some value);
  head = value;
  size = add_int s.size (pos 1);
  in_queue = upd s.in_queue value true;
}

unfoldable pub add_front : ℕ → EventQueue → Result EventQueue
add_front value s = check (not (s.in_queue value)) Exception.assertion (ok (link_front value s))

unfoldable pub link_between : ℕ → (before after : ℕ) → EventQueue → EventQueue
link_between value before after s = record s {
  next = upd (upd s.next value (some after)) before (some value);
  prev = upd (upd s.prev value (some before)) after (some value);
  in_queue = upd s.in_queue value true;
  size = add_int s.size (pos 1);
}

unfoldable pub insert_between : ℕ → (before after : ℕ) → EventQueue → Result EventQueue
insert_between value before after s =
    check (not (s.in_queue value) && not (after == s.head) && not (before == s.tail))
      Exception.assertion (ok (link_between value before after s))

-- A pointer that is followed.
abbrev pub deref : Option ℕ → Result ℕ
deref none = throw null_pointer
deref (some p) = ok p

-- What `del` does with the neighbours.
unfoldable pub unlink : ℕ → EventQueue → Result EventQueue
unlink value s =
    if value == s.head
    then (deref (s.next value) >>= λ n. ok (record s { head = n; prev = upd s.prev n none }))
    else (deref (s.next value) >>= λ n. deref (s.prev value) >>= λ p.
        ok (record s { prev = upd s.prev n (s.prev value); next = upd s.next p (s.next value) }))

unfoldable pub del : ℕ → EventQueue → Result EventQueue
del value s = check (s.in_queue value && not (value == s.tail)) Exception.assertion (
    unlink value (record s { in_queue = upd s.in_queue value false }) >>= λ t. ok (record t {
      next = upd t.next value none;
      prev = upd t.prev value none;
      size = add_int t.size (negsuc 0);
    }))

-- The loop of `CEventDecQueue::add`: the last node from `p` on, of those before the end, whose
-- descriptor is larger. `none` means that the fuel ran out.
unfoldable pub walk : ℕ → ℤ → ℕ → EventQueue → Result (Option (ℕ × ℕ))
walk zero fd p s = ok none
walk (suc fuel) fd p s = deref (s.next p) >>= λ n.
    (let rest = walk fuel fd n s in
      if not (n == s.tail) && ltb_ℤ fd (s.object n).fd then rest else ok (some (p, n)))

unfoldable pub place : ℕ → Option (ℕ × ℕ) → EventQueue → Result EventQueue
place value none s = ok s
place value (some (p, n)) s =
    if eqb_ℤ (s.object n).fd (s.object value).fd
    then throw (ipc_exception err_sys_unknown)
    else insert_between value p n s

-- `CEventDecQueue::add`.
unfoldable pub add_sorted : (fuel : ℕ) → ℕ → EventQueue → Result EventQueue
add_sorted fuel value s =
    let fd = (s.object value).fd in
    let first = (s.object s.head).fd in
    if s.head == s.tail
    then add_front value s
    else (if ltb_ℤ first fd
        then add_front value s
        else (if eqb_ℤ first fd
            then throw (ipc_exception err_sys_unknown)
            else (walk fuel fd s.head s >>= λ r. place value r s)))

-- `clean`, which takes out the head while the size is not 0.
unfoldable pub clean : (fuel : ℕ) → EventQueue → Result EventQueue
clean zero s = ok s
clean (suc fuel) s =
    let rest = del s.head s >>= clean fuel in if eqb_ℤ s.size (pos 0) then ok s else rest
