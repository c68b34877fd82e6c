-- ===== src/EventManager/Life.antt =====
-- src/event_mgr.c: any calls from the start.
use luafan.Common.{ℕ, ◌+◌, ◌≡◌, refl, ◌∙◌, Option, none, some, List, Bool-cases, inl, inr, arith}
use luafan.EventManager.Manager.{
  Manager, Libevent, start, init, event_mgr_base, cleanup_dnsbase, cleanup_eventbase, free_base,
  loop, full_cleanup, cleanup, loop_cleanup, times, cleanup_signal_events,
}
use luafan.EventManager.Sound.{
  is_base, IsSound, signals_used-IsOn, unfreed, Keeps, init-IsSound, event_mgr_base-IsSound,
}
use luafan.EventManager.Running.{Runs, loop-IsSound}

times-free_base :
    (o : Option ℕ) (freed : List ℕ) (b : ℕ)
    → times b (free_base o freed) ≡ is_base o b + times b freed
unfolding times
times-free_base none freed b = omega arith
times-free_base (some x) freed b = refl

-- Where nothing is left on it, the base can be freed.
freed-IsSound :
    (m : Manager) (n : Manager)
    → n.base ≡ none
    → n.dnsbase ≡ none
    → n.signals ≡ none
    → n.freed ≡ free_base m.base m.freed
    → n.made ≡ m.made
    → n.misuses ≡ 0
    → IsSound m
    → IsSound n
freed-IsSound m n no_base no_dns no_signals freed made unmisused i =
    let same : (b : ℕ) → times b n.freed + is_base n.base b ≡ times b m.freed + is_base m.base b =
      λ b. rw (no_base, freed) (omega (arith, times-free_base m.base m.freed b)) in
    record {
      on_base = rw no_dns tt;
      signals_on = rw no_signals tt;
      none_yet = λ q. no_dns;
      no_signals_yet = λ q. no_signals;
      unmisused = unmisused;
      once = λ b. omega (arith, same b, i.once b);
      unmade = λ b q. same b ∙ i.unmade b (omega (arith, made));
    }

pub cleanup-IsSound : Keeps cleanup
unfolding cleanup full_cleanup cleanup_signal_events cleanup_dnsbase cleanup_eventbase
cleanup-IsSound m i =
    let signals = unfreed m _ i (signals_used-IsOn m.base m.signals i.signals_on) in
    let resolver = unfreed m m.dnsbase i i.on_base in
    let so_far = i.unmisused in
    elim (Bool-cases m.initialized) [
      | inl e ↦
          simp e (
            freed-IsSound m _ refl refl refl refl refl (omega (arith, signals, resolver, so_far)) i)
      | inr e ↦ simp e i
    ]

pub loop_cleanup-IsSound :
    (m : Manager) → m.dnsbase ≡ none → m.signals ≡ none → IsSound m → IsSound (loop_cleanup m)
unfolding loop_cleanup cleanup_eventbase
loop_cleanup-IsSound m no_dns no_signals i =
    freed-IsSound m _ refl no_dns no_signals refl refl i.unmisused i

-- Any number of calls; the base is not freed under a resolver or the signal events.
pub data Steps (lib : Libevent) : Manager → Manager → Type 0 where
  stop : (m : Manager) → Steps lib m m
  by_base : {n : Manager} (m : Manager) → Steps lib (event_mgr_base lib m) n → Steps lib m n
  by_init : {n : Manager} (m : Manager) → Steps lib (init lib m).1 n → Steps lib m n
  by_loop :
      {n : Manager} (m : Manager) (callbacks : Manager → Manager)
      → ((p : Manager) → Runs lib p (callbacks p))
      → Steps lib (loop lib callbacks m).1 n
      → Steps lib m n
  by_cleanup : {n : Manager} (m : Manager) → Steps lib (cleanup m) n → Steps lib m n
  by_loop_cleanup :
      {n : Manager} (m : Manager)
      → m.dnsbase ≡ none
      → m.signals ≡ none
      → Steps lib (loop_cleanup m) n
      → Steps lib m n

steps-IsSound : (lib : Libevent) (m n : Manager) → Steps lib m n → IsSound m → IsSound n
steps-IsSound lib m _ (stop _) i = i
steps-IsSound lib _ n (by_base m more) i =
    steps-IsSound lib _ n more (event_mgr_base-IsSound lib m i)
steps-IsSound lib _ n (by_init m more) i = steps-IsSound lib _ n more (init-IsSound lib m i)
steps-IsSound lib _ n (by_loop m callbacks runs more) i =
    steps-IsSound lib _ n more (loop-IsSound lib callbacks runs m i)
steps-IsSound lib _ n (by_cleanup m more) i = steps-IsSound lib _ n more (cleanup-IsSound m i)
steps-IsSound lib _ n (by_loop_cleanup m no_dns no_signals more) i =
    steps-IsSound lib _ n more (loop_cleanup-IsSound m no_dns no_signals i)

-- Whatever calls are made from the start, as long as the cleanups are not called by a callback of
-- the loop, and event_mgr_loop_cleanup only while there are no resolver and no signal events, the
-- resolver and the signal events are on the base in use, no base is freed twice, and libevent is
-- not called on a base that has been freed or on what was made on it.
pub start-Steps : (lib : Libevent) (m : Manager) → Steps lib start m → IsSound m
unfolding times
start-Steps lib m steps = steps-IsSound lib start m steps (record {
  on_base = tt;
  signals_on = tt;
  none_yet = λ q. refl;
  no_signals_yet = λ q. refl;
  unmisused = refl;
  once = λ b. omega arith;
  unmade = λ b q. omega arith;
})
