-- ===== src/Server/Leaks.antt =====
-- What failed attempts leave behind.
use boxi.Prelude.{
  ℕ, zero, suc, ◌+◌, ◌≡◌, refl, ap, Bool, true, false, ◌&&◌, none, List, [], ◌∷◌, if◌then◌else◌,
  arith,
}
use boxi.Server.Session.{Net, Settings, Session, new_session, disconnect}
use boxi.Server.Connecting.{not_connected, log_in, connect2, bool_eq, after_attempt, connect}
use boxi.Server.Operations.{
  Event, connects, step, Result, crashed, succeeded, gave_up, and_run, run,
}
use boxi.Server.Recovers.{Answers, Configured, made, connect2-returns}

abbrev pub attempts : ℕ → Bool → List Event
attempts zero writable = []
attempts (suc n) writable = connects writable ∷ attempts n writable

-- Not connected, and so many objects of the two classes.
record Left (n : ℕ) (s : Session) : Type 0 where
  apart : s.is_connected ≡ false
  sockets : s.live_sockets ≡ n
  protocols : s.live_protocols ≡ n

and_run-gave_up :
    (o : Session × Result) (go : Session → Session × Result) → o.1 ≡ gave_up → and_run o go ≡ go o.0
and_run-gave_up (s, succeeded) go h = cc
and_run-gave_up (s, gave_up) go h = refl
and_run-gave_up (s, crashed) go h = cc

module _ (net : Net) (c : Settings) (answers : Answers net 0) (set : Configured c)
    (no_account : c.account_number ≡ none) where
  connect-apart :
      (writable : Bool) (s : Session)
      → s.is_connected ≡ false
      → connect net c writable s ≡ after_attempt net writable (connect2 net c s)
  unfolding connect
  connect-apart writable s h = by_flag s.is_connected h
    where
      by_flag :
          (b : Bool)
          → b ≡ false
          → (if b && bool_eq s.is_writable writable
              then (s, true)
              else after_attempt net writable (connect2 net c (if b then disconnect s else s)))
            ≡ after_attempt net writable (connect2 net c s)
      by_flag true e = cc
      by_flag false e = refl

  log_in_lem : (s : Session) → log_in net c s ≡ (s, not_connected)
  unfolding log_in
  log_in_lem s = rw no_account refl

  step-Left :
      (n : ℕ) (writable : Bool) (s : Session)
      → Left n s
      → ((step net c (connects writable) s).1 ≡ gave_up)
        × Left (n + 1) (step net c (connects writable) s).0
  unfolding step after_attempt
  step-Left n writable s h =
      rw
        (
          connect-apart writable s h.apart,
          connect2-returns net c 0 answers set s (omega arith),
          log_in_lem (made s),
        )
        (
          refl,
          record { apart = refl; sockets = ap (◌+ 1) h.sockets; protocols = ap (◌+ 1) h.protocols },
        )

  run-Left :
      (m n : ℕ) (writable : Bool) (s : Session)
      → Left n s
      → Left (n + m) (run net c (attempts m writable) s).0
  unfolding run
  run-Left zero n writable s h = record {
    apart = h.apart;
    sockets = omega (arith, h.sockets);
    protocols = omega (arith, h.protocols);
  }
  run-Left (suc m) n writable s h =
      let (g, next) = step-Left n writable s h in
      let s' = (step net c (connects writable) s).0 in
      let rest = run-Left m (n + 1) writable s' next in
      rw (and_run-gave_up (step net c (connects writable) s) (run net c (attempts m writable)) g)
        (record {
          apart = rest.apart;
          sockets = omega (arith, rest.sockets);
          protocols = omega (arith, rest.protocols);
        })

-- Where all is configured but the account, and every call returns and finds the right version: n
-- attempts to connect leave a new object unconnected, with n sockets and n protocol objects
-- allocated.
pub connect_leaks :
    (net : Net) (c : Settings) (n : ℕ) (writable : Bool)
    → Answers net 0
    → Configured c
    → c.account_number ≡ none
    → let s = (run net c (attempts n writable) new_session).0 in
      (s.is_connected ≡ false) × (s.live_sockets ≡ n) × (s.live_protocols ≡ n)
unfolding new_session
connect_leaks net c n writable answers set no_account =
    let left =
      run-Left net c answers set no_account n 0 writable new_session
        (record { apart = refl; sockets = refl; protocols = refl }) in
    (left.apart, omega (arith, left.sockets), omega (arith, left.protocols))
