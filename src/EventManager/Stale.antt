-- ===== src/EventManager/Stale.antt =====
-- src/event_mgr.c: a resolver that is kept when its base is freed.
use luafan.Common.{
  ℕ, ◌≡◌, refl, sym, ap, ◌∙◌, true, false, none, some, ◌∷◌, Bool-cases, inl, inr, if◌then◌else◌,
}
use mathlib.Core.Path.{subst}
use luafan.EventManager.Manager.{
  Manager, Libevent, make_base, make_dnsbase, init, event_mgr_base, cleanup_dnsbase,
  cleanup_eventbase, free_base, loop, loop_cleanup,
}

make_base_kept :
    (lib : Libevent) (m : Manager) (b : ℕ) → m.base ≡ some b → make_base lib m.base m ≡ m
make_base_kept lib m b is = ap (λ o. make_base lib o m) is

init-base :
    (lib : Libevent) (m : Manager) (b : ℕ)
    → m.base ≡ some b
    → ((init lib m).1.base ≡ some b)
      × ((init lib m).1.made ≡ m.made)
      × ((init lib m).1.freed ≡ m.freed)
unfolding init
init-base lib m b is = elim (Bool-cases m.initialized) [
  | inl e ↦ simp e (is, refl, refl)
  | inr e ↦ simp (e, make_base_kept lib m b is) (is, refl, refl)
]

after_loop :
    (lib : Libevent) (m : Manager) (b : ℕ)
    → m.looping ≡ false
    → m.base ≡ some b
    → ((loop lib (λ n. n) m).1.initialized ≡ false)
      × ((loop lib (λ n. n) m).1.base ≡ some b)
      × ((loop lib (λ n. n) m).1.made ≡ m.made)
      × ((loop lib (λ n. n) m).1.freed ≡ m.freed)
unfolding loop cleanup_dnsbase
after_loop lib m b idle is = let i = init-base lib m b is in simp idle (refl, i.0, i.1, i.2)

-- A manager with a resolver on its base.
record Resolves (p : Manager) (b : ℕ) (from : Manager) : Type 0 where
  base : p.base ≡ some b
  dnsbase : p.dnsbase ≡ some b
  ready : p.initialized ≡ true
  made : p.made ≡ from.made
  freed : p.freed ≡ from.freed

made_again :
    (lib : Libevent) (n : Manager) (b : ℕ)
    → n.base ≡ some b
    → n.initialized ≡ false
    → lib.resolves b ≡ true
    → Resolves (event_mgr_base lib n) b n
unfolding event_mgr_base init
made_again lib n b is new resolves =
    let kept = make_base_kept lib n b is in
    subst (λ p. Resolves p b n) (sym (ap (λ k. (init lib k).1) kept))
      (simp (new, kept)
        (record {
          base = is;
          dnsbase = ap (make_dnsbase lib) is ∙ ap (λ r. if r then some b else none) resolves;
          ready = refl;
          made = refl;
          freed = refl;
        }))

replaced :
    (lib : Libevent) (p : Manager) (b : ℕ) {from : Manager}
    → Resolves p b from
    → ((event_mgr_base lib (loop_cleanup p)).dnsbase ≡ some b)
      × (lib.grants p.made ≡ true → (event_mgr_base lib (loop_cleanup p)).base ≡ some p.made)
      × ((event_mgr_base lib (loop_cleanup p)).freed ≡ b ∷ p.freed)
unfolding event_mgr_base init loop_cleanup cleanup_eventbase
replaced lib p b r =
    rw r.ready (r.dnsbase, (λ grants. rw grants refl), ap (λ o. free_base o p.freed) r.base)

-- After a loop on a base whose callbacks leave the manager as it is, a call of event_mgr_base makes
-- a resolver again, on the same base; event_mgr_loop_cleanup then frees that base and keeps the
-- resolver, and the next call of event_mgr_base makes another base but no other resolver.
pub stale_resolver :
    (lib : Libevent) (m : Manager) (b : ℕ)
    → m.looping ≡ false
    → m.base ≡ some b
    → lib.resolves b ≡ true
    → lib.grants m.made ≡ true
    → let ended = (loop lib (λ n. n) m).1 in
      let again = event_mgr_base lib (loop_cleanup (event_mgr_base lib ended)) in
      (again.dnsbase ≡ some b) × (again.base ≡ some m.made) × (again.freed ≡ b ∷ m.freed)
stale_resolver lib m b idle is resolves grants =
    let ended = (loop lib (λ n. n) m).1 in
    let e = after_loop lib m b idle is in
    let r = made_again lib ended b e.1 e.0 resolves in
    let s = replaced lib (event_mgr_base lib ended) b r in
    (
      s.0,
      s.1 (ap lib.grants (r.made ∙ e.2) ∙ grants) ∙ ap some (r.made ∙ e.2),
      s.2 ∙ ap (λ l. b ∷ l) (r.freed ∙ e.3),
    )
