-- ===== src/Server/Recovers.antt =====
-- Where the server answers, every operation succeeds, whatever went wrong before.
use boxi.Prelude.{
  ℕ, zero, suc, ◌+◌, ◌≤◌, ◌≡◌, ◌≢◌, Bool-cases, refl, sym, ap, ◌∙◌, Bool, true, false, not, ◌&&◌,
  ◌==◌, inl, inr, some, if◌then◌else◌, if_either, if_known, arith,
}
use boxi.Server.Session.{
  returns, Net, Settings, Session, called, drop_protocol, drop_socket, disconnect,
}
use boxi.Server.Connecting.{
  Attempt, connected, init_tls_context, calling, log_in, check_version, make_protocol, open_socket,
  connect2, is_empty, bool_eq, after_attempt, connect,
}
use boxi.Server.Operations.{
  Operation, wants_to_write, calls_of, Result, succeeded, try_calls, perform,
}
use boxi.Server.Safe.{Sound}

-- From call number k on every call returns, and the server has the right version.
abbrev pub Answers : Net → ℕ → Type 0
Answers net k = (n : ℕ) → k ≤ n → (net.answer n ≡ returns) × (net.version n ≡ net.expected_version)

-- Everything that is asked for is configured, but perhaps the account.
pub record Configured (c : Settings) : Type 0 where
  pub store_hostname : is_empty c.store_hostname ≡ false
  pub keys_file : is_empty c.keys_file ≡ false
  pub certificate_file : is_empty c.certificate_file ≡ false
  pub private_key_file : is_empty c.private_key_file ≡ false
  pub trusted_cas_file : is_empty c.trusted_cas_file ≡ false

-- What `connect2` makes before it logs in.
abbrev pub made : Session → Session
made s = record s {
  socket = true;
  live_sockets = s.live_sockets + 1;
  protocol = true;
  live_protocols = s.live_protocols + 1;
  calls = s.calls + 1 + 1 + 1 + 1 + 1;
}

-- As many calls or more, and the same index.
record Since (s s' : Session) : Type 0 where
  calls : s.calls ≤ s'.calls
  index : s'.connection_index ≡ s.connection_index

drop_protocol-Since : (s : Session) → Since s (drop_protocol s)
unfolding drop_protocol
drop_protocol-Since s =
    if_either (Since s) s.protocol (record { calls = omega arith; index = refl })
      (record { calls = omega arith; index = refl })

drop_socket-Since : (s : Session) → Since s (drop_socket s)
unfolding drop_socket
drop_socket-Since s =
    if_either (Since s) s.socket (record { calls = omega arith; index = refl })
      (record { calls = omega arith; index = refl })

disconnect-Since : (s : Session) → Since s (disconnect s)
unfolding disconnect
disconnect-Since s =
    let first = drop_protocol-Since s in
    let second = drop_socket-Since (drop_protocol s) in
    record { calls = omega (arith, first.calls, second.calls); index = second.index ∙ first.index }

bool_eq-eq : (a b : Bool) → bool_eq a b ≡ true → a ≡ b
bool_eq-eq true b h = sym h
bool_eq-eq false false h = refl
bool_eq-eq false true h = cc

and-left : (a b : Bool) → (a && b) ≡ true → a ≡ true
and-left a b h = ground arith

and-right : (a b : Bool) → (a && b) ≡ true → b ≡ true
and-right a b h = ground arith

true≢false : true ≢ false
true≢false h = cc

module _ (net : Net) (c : Settings) (k : ℕ) (answers : Answers net k) (set : Configured c) where
  calling-returns :
      (go : Session → Session × Attempt) (s : Session)
      → k ≤ s.calls
      → calling net go s ≡ go (called s)
  unfolding calling
  calling-returns go s l = rw ((answers s.calls l).0) refl

  check_version-returns : (s : Session) → k ≤ s.calls → check_version net c s ≡ log_in net c s
  unfolding check_version
  check_version-returns s l = rw ((answers s.calls l).1, same net.expected_version) refl
    where
      same : (n : ℕ) → (n == n) ≡ true
      same n = ground arith

  -- Up to the login.
  pub connect2-returns : (s : Session) → k ≤ s.calls → connect2 net c s ≡ log_in net c (made s)
  unfolding connect2 init_tls_context open_socket make_protocol
  connect2-returns s l =
      rw
        (
          set.store_hostname,
          set.keys_file,
          set.certificate_file,
          set.private_key_file,
          set.trusted_cas_file,
          (answers s.calls l).0,
        )
        (calling-returns (open_socket net c) (called s) (omega (arith, l))
          ∙ calling-returns (make_protocol net c) _ (omega (arith, l))
          ∙ calling-returns (calling net (check_version net c)) _ (omega (arith, l))
          ∙ calling-returns (check_version net c) _ (omega (arith, l))
          ∙ check_version-returns _ (omega (arith, l)))

  module _ (account : ℕ) (has_account : c.account_number ≡ some account) where
    connect2-succeeds :
        (s : Session) → k ≤ s.calls → connect2 net c s ≡ (called (made s), connected)
    unfolding log_in
    connect2-succeeds s l =
        connect2-returns s l
        ∙ rw has_account (calling-returns (λ s'. (s', connected)) (made s) (omega (arith, l)))

    -- Connected as wanted, with a given index.
    record Ready (writable : Bool) (i : ℕ) (s : Session) : Type 0 where
      connected : s.is_connected ≡ true
      protocol : s.protocol ≡ true
      mode : s.is_writable ≡ writable
      index : s.connection_index ≡ i
      calls : k ≤ s.calls

    abbrev next_index : Bool → Session → ℕ
    next_index writable s =
        if s.is_connected && bool_eq s.is_writable writable
        then s.connection_index
        else s.connection_index + 1

    connect-Ready :
        (writable : Bool) (s : Session)
        → Sound s
        → k ≤ s.calls
        → ((connect net c writable s).1 ≡ true)
          × Ready writable (next_index writable s) (connect net c writable s).0
    unfolding connect after_attempt
    connect-Ready writable s h l =
        elim (Bool-cases (s.is_connected && bool_eq s.is_writable writable)) [
          | inl q ↦ rw q (
            refl,
            record {
              connected = and-left _ _ q;
              protocol = elim h [
                | inl e ↦ absurd (true≢false (sym (and-left _ _ q) ∙ e))
                | inr e ↦ e.1
              ];
              mode = bool_eq-eq _ _ (and-right s.is_connected _ q);
              index = refl;
              calls = l;
            },
          )
          | inr q ↦
              let s' = if s.is_connected then disconnect s else s in
              let since : Since s s' =
                if_either (Since s) s.is_connected (disconnect-Since s)
                  (record { calls = omega arith; index = refl }) in
              rw (q, connect2-succeeds s' (omega (arith, since.calls, l)))
                (
                  refl,
                  record {
                    connected = refl;
                    protocol = refl;
                    mode = refl;
                    index = ap (◌+ 1) since.index;
                    calls = omega (arith, since.calls, l);
                  },
                )
        ]

    try_calls-Ready :
        (n : ℕ) (writable : Bool) (i : ℕ) (s : Session)
        → Ready writable i s
        → ((try_calls net n s).1 ≡ succeeded) × Ready writable i (try_calls net n s).0
    unfolding try_calls
    try_calls-Ready zero writable i s h = (refl, h)
    try_calls-Ready (suc n) writable i s h =
        if_known (λ (o : Session × Result). (o.1 ≡ succeeded) × Ready writable i o.0)
          (not s.protocol) (λ q. cc)
          (λ q. rw ((answers s.calls h.calls).0) (
            try_calls-Ready n writable i (called s) (record {
              connected = h.connected;
              protocol = h.protocol;
              mode = h.mode;
              index = h.index;
              calls = omega (arith, h.calls);
            })))

-- Where everything is configured, and every call from now on returns and finds the right version:
-- whatever state the object is in, if it is sound, an operation succeeds, and leaves it connected in the mode that
-- the operation wants. It connects again, with the next index, only where it was not connected, or
-- in the other mode.
pub perform_recovers :
    (net : Net) (c : Settings) (op : Operation) (s : Session)
    → Answers net s.calls
    → Configured c
    → (account : ℕ) → c.account_number ≡ some account
    → Sound s
    → let (s', r) = perform net c op s in
      (r ≡ succeeded)
      × (s'.is_connected ≡ true)
      × (s'.is_writable ≡ wants_to_write op)
      × (s'.connection_index ≡ (
          if s.is_connected && bool_eq s.is_writable (wants_to_write op)
          then s.connection_index
          else s.connection_index + 1))
unfolding perform
perform_recovers net c op s answers set account has h =
    let (ok, ready) =
      connect-Ready net c s.calls answers set account has (wants_to_write op) s h (omega arith) in
    let (r, ready') =
      try_calls-Ready net c s.calls answers set account has (calls_of op) (wants_to_write op) _
        (connect net c (wants_to_write op) s).0 ready in
    rw ok (r, ready'.connected, ready'.mode, ready'.index)
