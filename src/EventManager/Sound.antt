-- ===== src/EventManager/Sound.antt =====
-- src/event_mgr.c: the resolver and the signal events are on the base in use.
use luafan.Common.{
  ℕ, ◌+◌, ◌≤◌, ◌≡◌, refl, ap, ◌∙◌, Bool, true, false, Option, none, some, List, ◌==◌, ==→eq,
  Bool-cases, inl, inr, if◌then◌else◌, arith,
}
use luafan.EventManager.Manager.{
  Manager, Libevent, make_base, make_dnsbase, init, event_mgr_base, times, misuse, signals_used,
}

-- The resolver is on the base that is in use, if there is one.
abbrev pub IsOn : Option ℕ → Option ℕ → Type 0
IsOn base none = Unit
IsOn base (some d) = base ≡ some d

abbrev pub is_base : Option ℕ → ℕ → ℕ
is_base none b = 0
is_base (some x) b = if x == b then 1 else 0

-- The resolver and the signal events are on the base in use, and there are none where the manager is
-- not initialized; a base is in use or has been freed, once, if it was made; and none has been used
-- after it was freed.
pub record IsSound (m : Manager) : Type 0 where
  pub on_base : IsOn m.base m.dnsbase
  pub signals_on : IsOn m.base m.signals
  pub none_yet : m.initialized ≡ false → m.dnsbase ≡ none
  pub no_signals_yet : m.initialized ≡ false → m.signals ≡ none
  pub unmisused : m.misuses ≡ 0
  pub once : (b : ℕ) → times b m.freed + is_base m.base b ≤ 1
  pub unmade : (b : ℕ) → m.made ≤ b → times b m.freed + is_base m.base b ≡ 0

make_dnsbase-IsOn : (lib : Libevent) (b : Option ℕ) → IsOn b (make_dnsbase lib b)
make_dnsbase-IsOn lib none = tt
make_dnsbase-IsOn lib (some b) = go (lib.resolves b)
  where
    go : (r : Bool) → IsOn (some b) (if r then some b else none)
    go true = refl
    go false = tt

IsOn-self : (b : Option ℕ) → IsOn b b
IsOn-self none = tt
IsOn-self (some b) = refl

pub signals_used-IsOn : (b signals : Option ℕ) → IsOn b signals → IsOn b (signals_used b signals)
signals_used-IsOn none signals on = tt
signals_used-IsOn (some b) signals on = on

-- What is on the base in use has not been freed.
pub unfreed : (m : Manager) (o : Option ℕ) → IsSound m → IsOn m.base o → misuse o m.freed ≡ 0
unfreed m none i on = refl
unfreed m (some d) i on =
    let same : (d == d) ≡ true = ground arith in
    let held : is_base m.base d ≡ 1 =
      ap (λ o. is_base o d) on ∙ ap (λ b. if b then 1 else 0) same in
    omega (arith, held, i.once d)

abbrev pub Keeps : (Manager → Manager) → Type 0
Keeps f = (m : Manager) → IsSound m → IsSound (f m)

module _ (lib : Libevent) where
  -- A new base has not been freed.
  new_base-once :
      (made : ℕ) (freed : List ℕ) (granted : Bool)
      → ((b : ℕ) → times b freed ≤ 1)
      → ((b : ℕ) → made ≤ b → times b freed ≡ 0)
      → ((b : ℕ) → times b freed + is_base (if granted then some made else none) b ≤ 1)
        × ((b : ℕ)
            → made + 1 ≤ b
            → times b freed + is_base (if granted then some made else none) b ≡ 0)
  new_base-once made freed false once unmade =
      ((λ b. omega (arith, once b)), (λ b q. omega (arith, unmade b (omega arith))))
  new_base-once made freed true once unmade = (
    (λ b. elim (Bool-cases (made == b)) [
      | inl e ↦ rw e (omega (arith, unmade b (omega (arith, ==→eq made b e))))
      | inr e ↦ rw e (omega (arith, once b))
    ]),
    (λ b q. elim (Bool-cases (made == b)) [
      | inl e ↦ absurd (omega (arith, ==→eq made b e))
      | inr e ↦ rw e (omega (arith, unmade b (omega arith)))
    ]),
  )

  pub make_base-IsSound :
      (b : Option ℕ) (m : Manager) → m.base ≡ b → IsSound m → IsSound (make_base lib b m)
  make_base-IsSound (some b) m e i = i
  make_base-IsSound none m e i =
      let (once, unmade) =
        new_base-once m.made m.freed (lib.grants m.made) (λ b. omega (arith, i.once b))
          λ b q. omega (arith, i.unmade b q) in
      record {
        on_base = go m.dnsbase (rw e at i.on_base);
        signals_on = go m.signals (rw e at i.signals_on);
        none_yet = i.none_yet;
        no_signals_yet = i.no_signals_yet;
        unmisused = i.unmisused;
        once = once;
        unmade = unmade;
      }
    where
      go : (d : Option ℕ) → IsOn none d → IsOn (if lib.grants m.made then some m.made else none) d
      go none on = tt
      go (some d) on = absurd (impossible on)
        where
          impossible : none ≡ some d → ⊥
          impossible q = cc

  pub init-IsSound : Keeps (λ m. (init lib m).1)
  unfolding init
  init-IsSound m i = elim (Bool-cases m.initialized) [
    | inl e ↦ simp e i
    | inr e ↦
        (let j = make_base-IsSound m.base m refl i in
          simp e (record {
            on_base = make_dnsbase-IsOn lib _;
            signals_on = IsOn-self _;
            none_yet = λ q. absurd (impossible q);
            no_signals_yet = λ q. absurd (impossible q);
            unmisused =
                let none_so_far = j.unmisused in
                omega (arith, unfreed _ _ j (IsOn-self (make_base lib m.base m).base));
            once = j.once;
            unmade = j.unmade;
          }))
  ]
    where
      impossible : true ≡ false → ⊥
      impossible q = cc

  pub event_mgr_base-IsSound : Keeps (event_mgr_base lib)
  unfolding event_mgr_base
  event_mgr_base-IsSound m i = init-IsSound _ (make_base-IsSound m.base m refl i)
