-- ===== src/Server/Safe.antt =====
-- Nothing that is done with the connection follows NULL.
use boxi.Prelude.{
  ℕ, zero, suc, ◌+◌, ◌≡◌, ◌≢◌, refl, Bool, true, false, not, ◌&&◌, ◌==◌, ◌⊎◌, inl, inr, Option,
  none, some, List, [], ◌∷◌, if_either, if_known, Bool-cases,
}
use boxi.Server.Session.{
  Answer, on_answer, returns, throws_tls_read_failed, throws_other, Net, Settings, Session,
  new_session, called, disconnect, handle_exception, message_after,
}
use boxi.Server.Connecting.{
  Attempt, connected, not_connected, failed, init_tls_context, calling, log_in, check_version,
  make_protocol, open_socket, connect2, is_empty, bool_eq, after_attempt, connect,
}
use boxi.Server.Operations.{
  Operation, wants_to_write, calls_of, Result, succeeded, gave_up, crashed, try_calls, perform,
  Event, connects, disconnects, performs, asks_error, restores, restore_calls, step, and_run, run,
}

-- Where it is connected, both objects are there.
abbrev pub Sound : Session → Type 0
Sound s = (s.is_connected ≡ false) ⊎ ((s.socket ≡ true) × (s.protocol ≡ true))

-- An attempt leaves the mark of being connected unset; one that succeeded made both objects.
abbrev Made : Session × Attempt → Type 0
Made (s, connected) = (s.is_connected ≡ false) × (s.socket ≡ true) × (s.protocol ≡ true)
Made (s, not_connected) = s.is_connected ≡ false
Made (s, failed tls) = s.is_connected ≡ false

-- `ErrorString()` and `Restore` do not connect first: they need the protocol object.
abbrev pub connects_first : Event → Session → Bool
connects_first (connects writable) s = true
connects_first disconnects s = true
connects_first (performs op) s = true
connects_first asks_error s = s.protocol
connects_first (restores n) s = s.protocol

abbrev pub is_crash : Result → Bool
is_crash succeeded = false
is_crash gave_up = false
is_crash crashed = true

whole : (r : Result) → r ≢ crashed → is_crash r ≡ false
whole succeeded h = refl
whole gave_up h = refl
whole crashed h = absurd (h refl)

on_answer_either {ℓ κ} :
    {A : Type ℓ} (P : A → Type κ) (a : Answer) {x y z : A} → P x → P y → P z → P (on_answer a x y z)
on_answer_either P returns p q r = p
on_answer_either P throws_tls_read_failed p q r = q
on_answer_either P throws_other p q r = r

module _ (net : Net) (c : Settings) where
  calling-Made :
      (go : Session → Session × Attempt) (s : Session)
      → s.is_connected ≡ false
      → Made (go (called s))
      → Made (calling net go s)
  unfolding calling
  calling-Made go s q h = on_answer_either Made (net.answer s.calls) h q q

  log_in-Made :
      (s : Session)
      → s.is_connected ≡ false
      → s.socket ≡ true
      → s.protocol ≡ true
      → Made (log_in net c s)
  unfolding log_in
  log_in-Made s q h k = by_account c.account_number
    where
      by_account :
          (o : Option ℕ)
          → Made (elim o [
            | none ↦ (s, not_connected)
            | some n ↦ calling net (λ s'. (s', connected)) s
          ])
      by_account none = q
      by_account (some n) = calling-Made (λ s'. (s', connected)) s q (q, h, k)

  connect2-Made : (s : Session) → s.is_connected ≡ false → Made (connect2 net c s)
  unfolding connect2 init_tls_context open_socket make_protocol check_version
  connect2-Made s q = if_either Made (is_empty c.store_hostname) q (
      if_either Made (is_empty c.keys_file) q (
        if_either Made (is_empty c.certificate_file) q (
          if_either Made (is_empty c.private_key_file) q (
            if_either Made (is_empty c.trusted_cas_file) q (
              on_answer_either Made (net.answer s.calls)
                (calling-Made (open_socket net c) (called s) q (
                  calling-Made (make_protocol net c) _ q (
                    calling-Made (calling net (check_version net c)) _ q (
                      calling-Made (check_version net c) _ q (
                        if_either Made (net.version _ == net.expected_version)
                          (log_in-Made _ q refl refl) q)))))
                q q)))))

  -- `connect` leaves the connection sound, and connected where it returns true.
  abbrev Joined : Session × Bool → Type 0
  Joined (s, ok) = Sound s × ((ok ≡ false) ⊎ (s.protocol ≡ true))

  disconnect_marks : (s : Session) → (disconnect s).is_connected ≡ false
  unfolding disconnect
  disconnect_marks s = refl

  disconnect-Sound : (s : Session) → Sound (disconnect s)
  disconnect-Sound s = inl (disconnect_marks s)

  handle_exception-Sound : (tls : Bool) (s : Session) → Sound s → Sound (handle_exception net tls s)
  unfolding handle_exception
  handle_exception-Sound true s h =
      disconnect-Sound (record s { error_message = message_after net s; boxes = s.boxes + 1 })
  handle_exception-Sound false s h = h

  after_attempt-Joined :
      (writable : Bool) (o : Session × Attempt) → Made o → Joined (after_attempt net writable o)
  unfolding after_attempt
  after_attempt-Joined writable (s, connected) h = (inr (h.1, h.2), inr h.2)
  after_attempt-Joined writable (s, not_connected) h = (inl refl, inl refl)
  after_attempt-Joined writable (s, failed tls) h = (handle_exception-Sound tls s (inl h), inl refl)

  connect-Joined : (writable : Bool) (s : Session) → Sound s → Joined (connect net c writable s)
  unfolding connect
  connect-Joined writable s h =
      if_known Joined (s.is_connected && bool_eq s.is_writable writable)
        (λ q. (h, elim h [ inl e ↦ cc | inr (e, e') ↦ inr e' ]))
        (λ q. after_attempt-Joined writable _ (
          if_known (λ s'. Made (connect2 net c s')) s.is_connected
            (λ e. connect2-Made (disconnect s) (disconnect_marks s)) (λ e. connect2-Made s e)))

  -- A step did not crash, and left the connection sound.
  abbrev Safe : Session × Result → Type 0
  Safe (s, r) = Sound s × (r ≢ crashed)

  try_calls-Safe : (n : ℕ) (s : Session) → Sound s → s.protocol ≡ true → Safe (try_calls net n s)
  unfolding try_calls
  try_calls-Safe zero s h k = (h, λ e. cc)
  try_calls-Safe (suc n) s h k =
      if_known Safe (not s.protocol) (λ q. cc)
        (λ q.
          on_answer_either Safe (net.answer s.calls) (try_calls-Safe n (called s) h k)
            (handle_exception-Sound true (called s) h, λ e. cc)
            (handle_exception-Sound false (called s) h, λ e. cc))

  perform-Safe : (op : Operation) (s : Session) → Sound s → Safe (perform net c op s)
  unfolding perform
  perform-Safe op s h =
      let (sound, joined) = connect-Joined (wants_to_write op) s h in
      if_known Safe (connect net c (wants_to_write op) s).1
        (λ q. elim joined [
          | inl e ↦ cc
          | inr e ↦ try_calls-Safe (calls_of op) (connect net c (wants_to_write op) s).0 sound e
        ])
        (λ q. (sound, λ e. cc))

  restore_calls-Safe : (n : ℕ) (s : Session) → Sound s → Safe (restore_calls net n s)
  unfolding restore_calls
  restore_calls-Safe zero s h = (h, λ e. cc)
  restore_calls-Safe (suc n) s h =
      on_answer_either Safe (net.answer s.calls) (restore_calls-Safe n (called s) h) (h, λ e. cc)
        (h, λ e. cc)

  step-Sound : (e : Event) (s : Session) → Sound s → Sound (step net c e s).0
  unfolding step
  step-Sound (connects writable) s h = (connect-Joined writable s h).0
  step-Sound disconnects s h = disconnect-Sound s
  step-Sound (performs op) s h = (perform-Safe op s h).0
  step-Sound asks_error s h = if_either (λ (o : Session × Result). Sound o.0) s.protocol h h
  step-Sound (restores n) s h =
      if_either (λ (o : Session × Result). Sound o.0) s.protocol (restore_calls-Safe n s h).0 h

  step-Safe :
      (e : Event) (s : Session) → connects_first e s ≡ true → Sound s → Safe (step net c e s)
  unfolding step
  step-Safe asks_error s q h = if_known Safe s.protocol (λ p. (h, λ e. cc)) (λ p. cc)
  step-Safe (restores n) s q h = if_known Safe s.protocol (λ p. restore_calls-Safe n s h) (λ p. cc)
  step-Safe (connects writable) s k h = (
    (connect-Joined writable s h).0,
    if_either (λ (r : Result). r ≢ crashed) (connect net c writable s).1 (λ q. cc) (λ q. cc),
  )
  step-Safe disconnects s k h = (disconnect-Sound s, λ q. cc)
  step-Safe (performs op) s k h = perform-Safe op s h

  unguarded-crashes :
      (e : Event) (s : Session) → connects_first e s ≡ false → is_crash (step net c e s).1 ≡ true
  unfolding step
  unguarded-crashes asks_error s q = rw q refl
  unguarded-crashes (restores n) s q = rw q refl
  unguarded-crashes (connects writable) s q = cc
  unguarded-crashes disconnects s q = cc
  unguarded-crashes (performs op) s q = cc

  -- Whether each event finds what it needs: `ErrorString()` and `Restore` need the protocol object.
  abbrev pub guarded : List Event → Session → Bool
  guarded [] s = true
  guarded (e ∷ es) s = connects_first e s && guarded es (step net c e s).0

  step-crashes :
      (e : Event) (s : Session) → Sound s → is_crash (step net c e s).1 ≡ not (connects_first e s)
  step-crashes e s h = elim (Bool-cases (connects_first e s)) [
    | inl q ↦ rw q (whole (step net c e s).1 (step-Safe e s q h).1)
    | inr q ↦ rw q (unguarded-crashes e s q)
  ]

  run-crashes :
      (es : List Event) (s : Session)
      → Sound s
      → (is_crash (run net c es s).1 ≡ not (guarded es s)) × Sound (run net c es s).0
  unfolding run
  run-crashes [] s h = (refl, h)
  run-crashes (e ∷ es) s h =
      on_result (step net c e s) (connects_first e s) (step-crashes e s h) (step-Sound e s h)
        (λ s' k. run-crashes es s' k)
    where
      on_result :
          (o : Session × Result)
          → (b : Bool) → is_crash o.1 ≡ not b
          → Sound o.0
          → ((s' : Session)
              → Sound s'
              → (is_crash (run net c es s').1 ≡ not (guarded es s')) × Sound (run net c es s').0)
          → (is_crash (and_run o (run net c es)).1 ≡ not (b && guarded es o.0))
            × Sound (and_run o (run net c es)).0
      on_result (s', succeeded) true q k rest = rest s' k
      on_result (s', gave_up) true q k rest = rest s' k
      on_result (s', crashed) true q k rest = cc
      on_result (s', succeeded) false q k rest = cc
      on_result (s', gave_up) false q k rest = cc
      on_result (s', crashed) false q k rest = (refl, k)

-- Whatever the network answers and the settings are: connecting, disconnecting and the operations,
-- in any order, from a new object on, follow `mpConnection` where it is NULL exactly where
-- `ErrorString()` is called, or a `Restore` comes to its directory, while there is no protocol
-- object; and whenever the object is connected afterwards, both its socket and its protocol object
-- are there.
pub run_safe :
    (net : Net) (c : Settings) (es : List Event)
    → (is_crash (run net c es new_session).1 ≡ not (guarded net c es new_session))
      × Sound (run net c es new_session).0
unfolding new_session
run_safe net c es = run-crashes net c es new_session (inl refl)
