-- ===== src/Notify/Tests.antt =====
-- Runs of the theorems on the notify core.
use roaraudio.Prelude.{◌≡◌, ◌≢◌, inl, refl, true, false, some, [], ◌∷◌, arith, if◌then◌else◌}
use roaraudio.Status.{ok}
use roaraudio.Notify.{
  Event, Subscriber, Core, special, minus_one, core_new, empty_core, is_size, hash_event, list_at,
  subscriber, subscribe, unsubscribe, wants, emit,
}
use roaraudio.Notify.Emit.{emit-subscribe-special}
use roaraudio.Notify.Reach.{Has, IsCore, emit-Has}
use roaraudio.Notify.Subscribe.{empty_core-IsCore, kept-IsCore}
use roaraudio.Notify.Unsubscribe.{unsubscribe-subscribe, is_empty}

-- a new stream, and the pattern of all events
abbrev new_stream : Event
new_stream = record { event = 4; emitter = minus_one; target = 3; target_type = 1; proxied = false }

abbrev anything : Event
anything = record {
  event = special;
  emitter = minus_one;
  target = minus_one;
  target_type = minus_one;
  proxied = false;
}

-- one subscriber of new streams, at 100
abbrev table : Core
table = subscribe 100 new_stream 7 8 (empty_core 16)

abbrev watcher : Subscriber
watcher = subscriber 100 16 new_stream 7 8

fresh_lem : core_new 16 ≡ some (empty_core 16)
unfolding core_new is_size
fresh_lem = refl

kept-IsCore_example :
    IsCore (empty_core 16)
    × IsCore (subscribe 100 new_stream 7 8 (empty_core 16))
    × IsCore (unsubscribe 100 4 (empty_core 16)).1
kept-IsCore_example =
    kept-IsCore 16 (empty_core 16) (empty_core 16) 100 7 8 4 new_stream fresh_lem
      (empty_core-IsCore 16) (omega arith) (omega arith)

apart : hash_event 16 special ≢ hash_event 16 4
unfolding hash_event
apart e = omega (arith, e)

emit-subscribe-special_example :
    (wants (subscriber 100 16 anything 7 8) new_stream ≡ true)
    × (emit new_stream (subscribe 100 anything 7 8 (empty_core 16))
        ≡ emit new_stream (empty_core 16))
emit-subscribe-special_example =
    emit-subscribe-special (empty_core 16) 100 7 8 anything new_stream (omega arith) refl refl refl
      refl apart

watched : Has (list_at table (hash_event 16 4)) watcher
unfolding subscribe hash_event
watched = inl refl

nobody : (s : Subscriber) → Has (list_at (empty_core 16) (hash_event 16 4)) s → ⊥
unfolding hash_event
nobody s m = m

emit-Has_example : Has (emit new_stream table) (7, 8, new_stream)
emit-Has_example =
    emit-Has table (hash_event 16 4) watcher new_stream
      (kept-IsCore 16 (empty_core 16) (empty_core 16) 100 7 8 4 new_stream fresh_lem
        (empty_core-IsCore 16) (omega arith) (omega arith)).1
      watched refl refl

unsubscribe-subscribe_example :
    (core' : Core) × (unsubscribe 100
        (hash_event 16 4)
        (subscribe 100 new_stream 7 8 (empty_core 16))
      ≡ (ok, core'))
    × (core'.lists ≡ (empty_core 16).lists)
    × (core'.released
        ≡ (if is_empty (list_at (empty_core 16) (hash_event 16 4)) then [] else 100 ∷ []))
unsubscribe-subscribe_example =
    unsubscribe-subscribe (empty_core 16) 100 7 8 new_stream (omega arith)
      (λ s m. absurd (nobody s m))
