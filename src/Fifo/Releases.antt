-- ===== src/Fifo/Releases.antt =====
-- src/fifo.c: each event and the socket of a pipe are released once.
use luafan.Common.{
  ℕ, ◌+◌, ◌≤◌, ◌≡◌, refl, ap, ◌∙◌, Bool, true, false, Option, none, some, List, [], ◌∷◌, ltb, leb,
  Bool-cases, Option-cases, inl, inr, arith, ◌&&◌,
}
use luafan.Fifo.Pipe.{
  Event, read_event, write_event, Argument, Action, unlink, event_add, event_free, close_fd, unref,
  resume, thread_unref, State, act,
}
use luafan.Fifo.Calls.{
  Setup, no_thread, no_function, function, call_ref, write_cb, read_cb, send_request, send,
  drop_write_ev, free_event, close, close_socket, clear_ref, unlink_name,
}

-- How often the action that a test accepts has been done.
unfoldable pub times : (Action → ℕ) → List Action → ℕ
times f [] = 0
times f (a ∷ more) = f a + times f more

abbrev pub frees_read : Action → ℕ
frees_read (event_free read_event) = 1
frees_read _ = 0

abbrev pub frees_write : Action → ℕ
frees_write (event_free write_event) = 1
frees_write _ = 0

abbrev pub closes : Action → ℕ
closes (close_fd fd) = 1
closes _ = 0

abbrev pub one_if : Bool → ℕ
one_if true = 1
one_if false = 0

abbrev pub one_if_open : Option ℕ → ℕ
one_if_open (some fd) = 1
one_if_open none = 0

-- What is held and what has been released are, together, what connect acquired; an event needs the
-- socket.
pub record IsSound (read write : Bool) (s : State) : Type 0 where
  pub read_once : one_if s.fifo.read_ev + times frees_read s.log ≡ one_if read
  pub write_once : one_if s.fifo.write_ev + times frees_write s.log ≡ one_if write
  pub socket_once : one_if_open s.fifo.socket + times closes s.log ≡ 1
  pub read_open : one_if s.fifo.read_ev ≤ one_if_open s.fifo.socket
  pub write_open : one_if s.fifo.write_ev ≤ one_if_open s.fifo.socket

module _ (f : Action → ℕ) where
  times-free_event_other :
      (b : Bool) (e : Event) (log : List Action)
      → f (event_free e) ≡ 0
      → times f (free_event b e log) ≡ times f log
  unfolding times free_event
  times-free_event_other true e log q = omega (arith, q)
  times-free_event_other false e log q = refl

  times-free_event :
      (b : Bool) (e : Event) (log : List Action)
      → f (event_free e) ≡ 1
      → times f (free_event b e log) ≡ one_if b + times f log
  unfolding times free_event
  times-free_event true e log q = omega (arith, q)
  times-free_event false e log q = omega arith

  times-clear_ref :
      (ref : Option ℕ) (log : List Action)
      → ((n : ℕ) → f (unref n) ≡ 0)
      → times f (clear_ref ref log) ≡ times f log
  unfolding times
  times-clear_ref none log q = refl
  times-clear_ref (some n) log q = omega (arith, q n)

  times-close_socket_other :
      (fd : Option ℕ) (log : List Action)
      → ((n : ℕ) → f (close_fd n) ≡ 0)
      → times f (close_socket fd log) ≡ times f log
  unfolding times
  times-close_socket_other none log q = refl
  times-close_socket_other (some n) log q = omega (arith, q n)

  times-unlink_name :
      (b : Bool) (name : Option (List ℕ)) (log : List Action)
      → f (unlink name) ≡ 0
      → times f (unlink_name b name log) ≡ times f log
  unfolding times
  times-unlink_name true name log q = omega (arith, q)
  times-unlink_name false name log q = refl

closes-close_socket :
    (fd : Option ℕ) (log : List Action)
    → times closes (close_socket fd log) ≡ one_if_open fd + times closes log
unfolding times
closes-close_socket none log = omega arith
closes-close_socket (some n) log = refl

-- What a function does to a state that fulfils a predicate.
abbrev pub Keeps : (State → Type 0) → (State → State) → Type 0
Keeps P f = (s : State) → P s → P (f s)

-- An action that frees and closes nothing.
act-IsSound :
    {r w : Bool} (a : Action) (s : State)
    → frees_read a ≡ 0
    → frees_write a ≡ 0
    → closes a ≡ 0
    → IsSound r w s
    → IsSound r w (act a s)
unfolding times
act-IsSound a s no_read no_write no_close i = record {
  read_once = let q = i.read_once in omega (arith, no_read);
  write_once = let q = i.write_once in omega (arith, no_write);
  socket_once = let q = i.socket_once in omega (arith, no_close);
  read_open = i.read_open;
  write_open = i.write_open;
}

module _ {r w : Bool} (lua_code : State → State) (keeps : Keeps (IsSound r w) lua_code) where
  call_ref-IsSound :
      (ref : Option ℕ) (setup : Setup) (a : Argument)
      → Keeps (IsSound r w) (call_ref ref setup a lua_code)
  call_ref-IsSound none setup a s i = i
  call_ref-IsSound (some n) no_thread a s i = i
  call_ref-IsSound (some n) no_function a s i = act-IsSound thread_unref s refl refl refl i
  call_ref-IsSound (some n) function a s i =
      act-IsSound thread_unref _ refl refl refl
        (keeps _ (act-IsSound (resume n a) s refl refl refl i))

  pub write_cb-IsSound : (setup : Setup) → Keeps (IsSound r w) (write_cb setup lua_code)
  unfolding write_cb
  write_cb-IsSound setup s i = call_ref-IsSound _ setup _ s i

  pub read_cb-IsSound :
      (len : ℕ) (again : Bool) (buf : List ℕ) (setup : Setup)
      → Keeps (IsSound r w) (read_cb len again buf setup lua_code)
  unfolding read_cb
  read_cb-IsSound len again buf setup s i = elim (Bool-cases (leb len 0)) [
    | inl e ↦ elim (Bool-cases (ltb len 0 && again)) [
      | inl e1 ↦ rw (e, e1) i
      | inr e1 ↦ rw (e, e1) (call_ref-IsSound _ setup _ s i)
    ]
    | inr e ↦ rw e (call_ref-IsSound _ setup _ s i)
  ]

  drop_write_ev-IsSound : Keeps (IsSound r w) drop_write_ev
  unfolding drop_write_ev
  drop_write_ev-IsSound s i =
      let b = s.fifo.write_ev in
      let reads = times-free_event_other frees_read b write_event s.log refl in
      let writes = times-free_event frees_write b write_event s.log refl in
      let closed = times-free_event_other closes b write_event s.log refl in
      record {
        read_once = let q = i.read_once in omega (arith, reads);
        write_once = let q = i.write_once in omega (arith, writes);
        socket_once = let q = i.socket_once in omega (arith, closed);
        read_open = i.read_open;
        write_open = omega arith;
      }

  pub send-IsSound :
      (data_ : Option (List ℕ)) (len : ℕ) (again : Bool) (setup : Setup)
      → Keeps (IsSound r w) (λ s. (send data_ len again setup lua_code s).1)
  unfolding send
  send-IsSound none len again setup s i = i
  send-IsSound (some []) len again setup s i = i
  send-IsSound (some (c ∷ cs)) len again setup s i = elim (Bool-cases (leb len 0)) [
    | inl e ↦ elim (Bool-cases (ltb len 0 && again)) [
      | inl e1 ↦ rw (e, e1) i
      | inr e1 ↦ rw (e, e1) (drop_write_ev-IsSound _ (call_ref-IsSound _ setup _ s i))
    ]
    | inr e ↦ rw e i
  ]

pub send_request-IsSound : {r w : Bool} → Keeps (IsSound r w) (λ s. (send_request s).1)
unfolding send_request
send_request-IsSound s i = elim (Bool-cases s.fifo.write_ev) [
  | inl e ↦ simp e (act-IsSound (event_add write_event) s refl refl refl i)
  | inr e ↦ elim (Option-cases s.fifo.on_send_ready_ref) [
    | inl n ↦ rw (e, n) i
    | inr (x, n) ↦ rw (e, n) i
  ]
]

module _ (s : State) where
  abbrev cleared : List Action
  cleared =
      clear_ref s.fifo.on_disconnected_ref
        (clear_ref s.fifo.on_send_ready_ref (clear_ref s.fifo.on_read_ref s.log))

  times-cleared : (f : Action → ℕ) → ((n : ℕ) → f (unref n) ≡ 0) → times f cleared ≡ times f s.log
  times-cleared f q =
      times-clear_ref f s.fifo.on_disconnected_ref _ q
      ∙ times-clear_ref f s.fifo.on_send_ready_ref _ q
      ∙ times-clear_ref f s.fifo.on_read_ref s.log q

  -- What `close` adds to the counts.
  times-close :
      (times frees_read (close s).log ≡ one_if s.fifo.read_ev + times frees_read s.log)
      × (times frees_write (close s).log ≡ one_if s.fifo.write_ev + times frees_write s.log)
      × (times closes (close s).log ≡ one_if_open s.fifo.socket + times closes s.log)
  unfolding close
  times-close =
      let f = s.fifo in
      let l1 = free_event f.read_ev read_event cleared in
      let l2 = free_event f.write_ev write_event l1 in
      let l3 = close_socket f.socket l2 in
      (
        times-unlink_name frees_read f.delete_on_close f.name l3 refl
            ∙ times-close_socket_other frees_read f.socket l2 (λ n. refl)
            ∙ times-free_event_other frees_read f.write_ev write_event l1 refl
            ∙ times-free_event frees_read f.read_ev read_event cleared refl
            ∙ ap (λ k. one_if f.read_ev + k) (times-cleared frees_read (λ n. refl)),
        times-unlink_name frees_write f.delete_on_close f.name l3 refl
            ∙ times-close_socket_other frees_write f.socket l2 (λ n. refl)
            ∙ times-free_event frees_write f.write_ev write_event l1 refl
            ∙ ap (λ k. one_if f.write_ev + k)
                (times-free_event_other frees_write f.read_ev read_event cleared refl
                  ∙ times-cleared frees_write (λ n. refl)),
        times-unlink_name closes f.delete_on_close f.name l3 refl
            ∙ closes-close_socket f.socket l2
            ∙ ap (λ k. one_if_open f.socket + k)
                (times-free_event_other closes f.write_ev write_event l1 refl
                  ∙ times-free_event_other closes f.read_ev read_event cleared refl
                  ∙ times-cleared closes (λ n. refl)),
      )

pub close-IsSound : {r w : Bool} → Keeps (IsSound r w) close
unfolding close
close-IsSound s i =
    let (reads, writes, closed) = times-close s in
    record {
      read_once = let q = i.read_once in omega (arith, reads);
      write_once = let q = i.write_once in omega (arith, writes);
      socket_once = let q = i.socket_once in omega (arith, closed);
      read_open = omega arith;
      write_open = omega arith;
    }

-- A second close, such as the finalizer's, changes nothing but to unlink a NULL name where the name
-- is to be deleted.
pub close-close :
    (s : State)
    → close (close s)
      ≡ record (close s) { log = unlink_name s.fifo.delete_on_close none (close s).log }
unfolding close free_event
close-close s = refl
