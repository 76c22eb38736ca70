-- ===== src/Notify.antt =====
-- libroar/notify.c: the notify core, which keeps subscribers in a hash table and calls those that an
-- event matches. The core is given; a callback is a number, and it is taken to leave the table as it
-- is. `int` and `uint32_t` are 32-bit patterns.
pub mod Emit
pub mod Reach
pub mod Subscribe
pub mod Unsubscribe
mod Tests
use Prim.Native.Nat.{bit_and, bit_xor}
use roaraudio.Prelude.{
  ℕ, ◌+◌, ◌-◌, ◌/◌, ◌^◌, Bool, true, false, Option, none, some, List, [], ◌∷◌, ◌++◌, ◌==◌, ltb, not,
  ◌&&◌, ◌||◌, if◌then◌else◌, length, set, get_or, replicate,
}
use roaraudio.Status.{Status, ok, failed}

abbrev pub minus_one : ℕ
minus_one = 2 ^ 32 - 1

-- ROAR_NOTIFY_SPECIAL
abbrev pub special : ℕ
special = 2 ^ 32 - 1

-- What the core reads of `struct roar_event`; `proxied` is ROAR_EVENT_FLAG_PROXYEVENT in `flags`.
pub record Event : Type 0 where
  pub event : ℕ
  pub emitter : ℕ
  pub target : ℕ
  pub target_type : ℕ
  pub proxied : Bool

-- `struct roar_subscriber` at `addr`; the order of a list stands for `next`.
pub record Subscriber : Type 0 where
  pub addr : ℕ
  pub event : ℕ
  pub emitter : ℕ
  pub target : ℕ
  pub target_type : ℕ
  pub cb : ℕ
  pub userdata : ℕ
  pub hash : ℕ

-- `struct roar_notify_core` but for its reference count: `listc` is the length of `lists`, `released`
-- are the subscribers that were freed.
pub record Core : Type 0 where
  pub lists : List (List Subscriber)
  pub proxy : Option (ℕ × ℕ)
  pub released : List ℕ

-- The sizes that roar_notify_core_new accepts.
abbrev pub sizes : List ℕ
sizes = 1 ∷ 2 ∷ 4 ∷ 8 ∷ 16 ∷ 32 ∷ 64 ∷ 128 ∷ 256 ∷ 512 ∷ 1024 ∷ []

pub is_size : ℕ → List ℕ → Bool
is_size n [] = false
is_size n (k ∷ ks) = (n == k) || is_size n ks

abbrev pub empty_core : ℕ → Core
empty_core n = record { lists = replicate n []; proxy = none; released = [] }

-- `roar_notify_core_new` with memory; `none` is NULL.
unfoldable pub core_new : (lists : ℕ) → Option Core
unfolding is_size
core_new lists =
    if is_size lists sizes
    then some (empty_core lists)
    else if lists == minus_one
    then some (empty_core 16)
    else none

-- `_hash_event`
unfoldable pub hash_event : (listc event : ℕ) → ℕ
hash_event listc event =
    bit_and
      (bit_xor (bit_xor (bit_xor (bit_xor 0 event) (event / 2 ^ 8)) (event / 2 ^ 16))
        (event / 2 ^ 24))
      (listc - 1)

-- `roar_notify_core_register_proxy`
abbrev pub register_proxy : (cb userdata : ℕ) → Core → Core
register_proxy cb userdata core = record core { proxy = some (cb, userdata) }

-- `core->lists[hash]`
abbrev pub list_at : Core → ℕ → List Subscriber
list_at core h = get_or core.lists h []

-- What roar_notify_core_subscribe fills in.
abbrev pub subscriber : (addr listc : ℕ) → Event → (cb userdata : ℕ) → Subscriber
subscriber addr listc e cb userdata = record {
  addr = addr;
  event = e.event;
  emitter = e.emitter;
  target = e.target;
  target_type = e.target_type;
  cb = cb;
  userdata = userdata;
  hash = hash_event listc e.event;
}

-- `roar_notify_core_subscribe`, with memory for the subscriber at `addr`: its list is walked to
-- the end.
unfoldable pub subscribe : (addr : ℕ) → Event → (cb userdata : ℕ) → Core → Core
subscribe addr e cb userdata core =
    let s = subscriber addr (length core.lists) e cb userdata in
    record core { lists = set core.lists s.hash (list_at core s.hash ++ (s ∷ [])) }

-- The loop of roar_notify_core_unsubscribe: the list without the subscriber, `none` where it is not
-- in the list.
abbrev pub unlink : ℕ → List Subscriber → Option (List Subscriber)
unlink addr [] = none
unlink addr (s ∷ ss) =
    let rest = unlink addr ss in
    if s.addr == addr then some ss else elim rest [ none ↦ none | some ts ↦ some (s ∷ ts) ]

abbrev pub is_first : ℕ → List Subscriber → Bool
is_first addr [] = false
is_first addr (s ∷ ss) = s.addr == addr

-- `roar_notify_core_unsubscribe` of the subscriber at `addr` with this hash: the first of a list is
-- not freed.
unfoldable pub unsubscribe : (addr hash : ℕ) → Core → Status × Core
unsubscribe addr hash core = elim (unlink addr (list_at core hash)) [
  | none ↦ (failed, core)
  | some ts ↦ (
    ok,
    record core {
      lists = set core.lists hash ts;
      released =
          if is_first addr (list_at core hash) then core.released else core.released ++ (addr ∷ []);
    },
  )
]

-- A callback with its `userdata` and the event.
abbrev pub Call : Type 0
Call = ℕ × ℕ × Event

-- The test that lets a subscriber be called.
abbrev pub wants : Subscriber → Event → Bool
wants s e =
    ((s.event == special) || (s.event == e.event))
    && (((s.emitter == minus_one) || (s.emitter == e.emitter))
        && (((s.target == minus_one) || (s.target == e.target))
            && ((s.target_type == minus_one) || (s.target_type == e.target_type))))

-- The loop of roar_notify_core_emit.
pub emit_loop : Event → List Subscriber → List Call
emit_loop e [] = []
emit_loop e (s ∷ ss) =
    let rest = emit_loop e ss in if wants s e then (s.cb, s.userdata, e) ∷ rest else rest

abbrev pub proxy_calls : Core → Event → List Call
proxy_calls core e = elim core.proxy [
  | none ↦ []
  | some p ↦ if e.proxied then [] else (p.0, p.1, e) ∷ []
]

-- `roar_notify_core_emit`: the calls that it makes, in order.
unfoldable pub emit : Event → Core → List Call
unfolding emit_loop
emit e core =
    proxy_calls core e ++ emit_loop e (list_at core (hash_event (length core.lists) e.event))
