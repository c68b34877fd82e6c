-- ===== src/EventManager/Running.antt =====
-- src/event_mgr.c: the loop, and what its callbacks call.
use luafan.Common.{
  ℕ, ◌≡◌, refl, sym, ap, ◌∙◌, true, Option, none, some, Bool-cases, inl, inr, arith,
}
use mathlib.Core.Path.{subst}
use luafan.EventManager.Manager.{
  Manager, Libevent, make_base, init, event_mgr_base, cleanup_dnsbase, loop, cleanup_signal_events,
}
use luafan.EventManager.Sound.{
  IsOn, IsSound, signals_used-IsOn, unfreed, Keeps, init-IsSound, event_mgr_base-IsSound,
}

module _ (lib : Libevent) where
  make_base-looping : (o : Option ℕ) (p : Manager) → (make_base lib o p).looping ≡ p.looping
  make_base-looping none p = refl
  make_base-looping (some b) p = refl

  -- What the functions of a loop that runs keep: its base.
  init-keeps :
      (m : Manager) (b : ℕ)
      → m.base ≡ some b
      → ((init lib m).1.base ≡ some b) × ((init lib m).1.looping ≡ m.looping)
  unfolding init
  init-keeps m b is =
      let kept : make_base lib m.base m ≡ m = ap (λ o. make_base lib o m) is in
      elim (Bool-cases m.initialized) [
        | inl e ↦ simp e (is, refl)
        | inr e ↦ simp (e, kept) (is, refl)
      ]

  init-looping : (m : Manager) → (init lib m).1.looping ≡ m.looping
  unfolding init
  init-looping m = elim (Bool-cases m.initialized) [
    | inl e ↦ simp e refl
    | inr e ↦ simp e (make_base-looping m.base m)
  ]

  event_mgr_base-keeps :
      (m : Manager) (b : ℕ) → m.base ≡ some b → (event_mgr_base lib m).base ≡ some b
  unfolding event_mgr_base
  event_mgr_base-keeps m b is =
      ap (λ p. (init lib p).1.base) (ap (λ o. make_base lib o m) is) ∙ (init-keeps m b is).0

  event_mgr_base-looping : (m : Manager) → (event_mgr_base lib m).looping ≡ m.looping
  unfolding event_mgr_base
  event_mgr_base-looping m = init-looping _ ∙ make_base-looping m.base m

  -- What the callbacks of a running loop call; the cleanups are called after it.
  pub data Runs : Manager → Manager → Type 0 where
    no_more : (m : Manager) → Runs m m
    run_base : {n : Manager} (m : Manager) → Runs (event_mgr_base lib m) n → Runs m n
    run_init : {n : Manager} (m : Manager) → Runs (init lib m).1 n → Runs m n
    run_loop :
        {n : Manager} (m : Manager) (callbacks : Manager → Manager)
        → Runs (loop lib callbacks m).1 n
        → Runs m n

  loop_again :
      (callbacks : Manager → Manager) (m : Manager)
      → m.looping ≡ true
      → (loop lib callbacks m).1 ≡ m
  unfolding loop
  loop_again callbacks m e = simp e refl

  Runs-IsSound :
      (m n : Manager)
      → Runs m n
      → m.looping ≡ true
      → IsSound m
      → IsSound n × ((b : ℕ) → m.base ≡ some b → n.base ≡ some b)
  Runs-IsSound m _ (no_more _) e i = (i, λ b is. is)
  Runs-IsSound _ n (run_base m more) e i =
      let rest =
        Runs-IsSound _ n more (event_mgr_base-looping m ∙ e) (event_mgr_base-IsSound lib m i) in
      (rest.0, λ b is. rest.1 b (event_mgr_base-keeps m b is))
  Runs-IsSound _ n (run_init m more) e i =
      let rest = Runs-IsSound _ n more (init-looping m ∙ e) (init-IsSound lib m i) in
      (rest.0, λ b is. rest.1 b (init-keeps m b is).0)
  Runs-IsSound _ n (run_loop m callbacks more) e i =
      let same = loop_again callbacks m e in
      let rest =
        Runs-IsSound _ n more (ap (λ p. p.looping) same ∙ e) (subst IsSound (sym same) i) in
      (rest.0, λ b is. rest.1 b (ap (λ p. p.base) same ∙ is))

  pub loop-IsSound :
      (callbacks : Manager → Manager)
      → ((p : Manager) → Runs p (callbacks p))
      → Keeps (λ m. (loop lib callbacks m).1)
  unfolding loop cleanup_dnsbase cleanup_signal_events
  loop-IsSound callbacks runs m i = elim (Bool-cases m.looping) [
    | inl e ↦ simp e i
    | inr e ↦
        (let j = init-IsSound lib m i in
          let m0 = (init lib m).1 in
          let begun : Manager = record m0 { looping = true } in
          let c = callbacks begun in
          let (l, base) = Runs-IsSound begun c (runs begun) refl (record {
            on_base = j.on_base;
            signals_on = j.signals_on;
            none_yet = j.none_yet;
            no_signals_yet = j.no_signals_yet;
            unmisused = j.unmisused;
            once = j.once;
            unmade = j.unmade;
          }) in
          let looped = unfreed c m0.base l (still_on m0.base c base) in
          let signals = unfreed c _ l (signals_used-IsOn c.base c.signals l.signals_on) in
          let resolver = unfreed c c.dnsbase l l.on_base in
          let so_far = l.unmisused in
          simp e (record {
            on_base = tt;
            signals_on = tt;
            none_yet = λ q. refl;
            no_signals_yet = λ q. refl;
            unmisused = omega (arith, looped, signals, resolver, so_far);
            once = l.once;
            unmade = l.unmade;
          }))
  ]
    where
      still_on :
          (o : Option ℕ) (c : Manager) → ((b : ℕ) → o ≡ some b → c.base ≡ some b) → IsOn c.base o
      still_on none c keeps = tt
      still_on (some b) c keeps = keeps b refl
