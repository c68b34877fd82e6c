-- ===== src/EventManager/Manager.antt =====
-- src/event_mgr.c: the main event base, its resolver and the loop.
use luafan.Common.{
  ◌==◌, ℕ, ◌+◌, Bool, true, false, Option, none, some, List, [], ◌∷◌, if◌then◌else◌,
}

-- A base is the number of bases that were made before it. `dnsbase` and `signals` name the base that
-- the resolver and the two signal events were made on. `misuses` counts the calls of libevent on a base
-- that has been freed, or on what was made on it.
pub record Manager : Type 0 where
  pub base : Option ℕ
  pub dnsbase : Option ℕ
  pub signals : Option ℕ
  pub signal_count : ℕ
  pub looping : Bool
  pub initialized : Bool
  pub made : ℕ
  pub freed : List ℕ
  pub misuses : ℕ

abbrev pub start : Manager
start = record {
  base = none;
  dnsbase = none;
  signals = none;
  signal_count = 0;
  looping = false;
  initialized = false;
  made = 0;
  freed = [];
  misuses = 0;
}

-- How often a base has been freed.
unfoldable pub times : ℕ → List ℕ → ℕ
times b [] = 0
times b (x ∷ xs) = (if x == b then 1 else 0) + times b xs

-- The misuses that a use of a base is: the times that it has been freed before.
abbrev pub misuse : Option ℕ → List ℕ → ℕ
misuse none freed = 0
misuse (some b) freed = times b freed

abbrev pub use_base : Option ℕ → Manager → Manager
use_base o m = record m { misuses = m.misuses + misuse o m.freed }

-- which calls of event_base_new and of evdns_base_new succeed, by the base's number
pub record Libevent : Type 0 where
  pub grants : ℕ → Bool
  pub resolves : ℕ → Bool

-- `if (!base) base = event_base_new()`
abbrev pub make_base : Libevent → Option ℕ → Manager → Manager
make_base lib (some b) m = m
make_base lib none m = record m {
  base = if lib.grants m.made then some m.made else none;
  made = m.made + 1;
}

-- `evdns_base_new`, which gets NULL where there is no base
abbrev pub make_dnsbase : Libevent → Option ℕ → Option ℕ
make_dnsbase lib none = none
make_dnsbase lib (some b) = if lib.resolves b then some b else none

-- The call of event_mgr_base in here finds `initialized` set, so that its own call of event_mgr_init
-- changes nothing.
unfoldable pub init : Libevent → Manager → Bool × Manager
init lib m =
    if m.initialized
    then (false, m)
    else let m1 = make_base lib m.base m in
      (
        true,
        record (use_base m1.base m1) {
          initialized = true;
          dnsbase = make_dnsbase lib m1.base;
          signals = m1.base;
        },
      )

unfoldable pub event_mgr_base : Libevent → Manager → Manager
unfolding init
event_mgr_base lib m = (init lib (make_base lib m.base m)).1

-- `if (base)`, the two events are deleted.
abbrev pub signals_used : Option ℕ → Option ℕ → Option ℕ
signals_used none signals = none
signals_used (some b) signals = signals

unfoldable pub cleanup_signal_events : Manager → Manager
cleanup_signal_events m = record (use_base (signals_used m.base m.signals) m) { signals = none }

unfoldable pub cleanup_dnsbase : Manager → Manager
cleanup_dnsbase m = record (use_base m.dnsbase m) { dnsbase = none }

abbrev pub free_base : Option ℕ → List ℕ → List ℕ
free_base none freed = freed
free_base (some b) freed = b ∷ freed

unfoldable pub cleanup_eventbase : Manager → Manager
cleanup_eventbase m = record m { base = none; freed = free_base m.base m.freed }

-- The loop, of which `callbacks` is what runs until it is broken: it uses its base until its end.
unfoldable pub loop : Libevent → (Manager → Manager) → Manager → Bool × Manager
unfolding init cleanup_signal_events cleanup_dnsbase
loop lib callbacks m =
    if m.looping
    then (false, m)
    else let m0 = (init lib m).1 in
      let m1 = use_base m0.base (callbacks (record m0 { looping = true })) in
      (
        true,
        record (cleanup_dnsbase (cleanup_signal_events m1)) {
          looping = false;
          initialized = false;
        },
      )

unfoldable pub full_cleanup : Manager → Manager
unfolding cleanup_signal_events cleanup_dnsbase cleanup_eventbase
full_cleanup m = record (cleanup_eventbase (cleanup_dnsbase (cleanup_signal_events m))) {
  initialized = false;
  looping = false;
  signal_count = 0;
}

unfoldable pub cleanup : Manager → Manager
unfolding full_cleanup
cleanup m = if m.initialized then full_cleanup m else m

unfoldable pub loop_cleanup : Manager → Manager
unfolding cleanup_eventbase
loop_cleanup m = cleanup_eventbase m
