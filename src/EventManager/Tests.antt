-- ===== src/EventManager/Tests.antt =====
-- The event manager at concrete inputs.
use luafan.Common.{◌≡◌, refl, true, false, none, some, [], ◌∷◌}
use luafan.EventManager.Manager.{
  Manager, Libevent, start, event_mgr_base, loop, loop_cleanup, cleanup_dnsbase,
  cleanup_signal_events,
}
use luafan.EventManager.Life.{Steps, stop, by_loop, by_loop_cleanup, start-Steps}
use luafan.EventManager.Sound.{IsSound}
use luafan.EventManager.Running.{no_more}
use luafan.EventManager.Stale.{stale_resolver}

abbrev granting : Libevent
granting = record { grants = λ b. true; resolves = λ b. true }

abbrev ended : Manager
ended = (loop granting (λ m. m) start).1

ended_without_signals : ended.signals ≡ none
unfolding loop cleanup_dnsbase cleanup_signal_events
ended_without_signals = refl

ended_without_dnsbase : ended.dnsbase ≡ none
unfolding loop cleanup_dnsbase cleanup_signal_events
ended_without_dnsbase = refl

looped_and_cleaned : Steps granting start (loop_cleanup ended)
looped_and_cleaned =
    by_loop start (λ m. m) no_more
      (by_loop_cleanup ended ended_without_dnsbase ended_without_signals (stop _))

start-Steps_example : IsSound (loop_cleanup ended)
start-Steps_example = start-Steps granting (loop_cleanup ended) looped_and_cleaned

abbrev on_base_0 : Manager
on_base_0 = record {
  base = some 0;
  dnsbase = none;
  signals = none;
  signal_count = 0;
  looping = false;
  initialized = false;
  made = 1;
  freed = [];
  misuses = 0;
}

stale_resolver_example :
    let again =
      event_mgr_base granting
        (loop_cleanup (event_mgr_base granting (loop granting (λ n. n) on_base_0).1)) in
    (again.dnsbase ≡ some 0) × (again.base ≡ some 1) × (again.freed ≡ 0 ∷ [])
stale_resolver_example = stale_resolver granting on_base_0 0 refl refl refl refl
