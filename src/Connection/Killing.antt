-- ===== src/Connection/Killing.antt =====
-- Which process `KillClient` signals.
use mathlib.Core.Path.{subst}
use boxi.Prelude.{
  ℕ, zero, suc, ◌*◌, ◌^◌, ◌<◌, ◌≡◌, refl, ap, ◌∙◌, true, false, none, some, if◌then◌else◌, arith,
  Bool-cases, ◌⊎◌, inl, inr,
}
use boxi.Prelude.Text.{Text}
use boxi.Prelude.Int.{ℤ, pos, negsuc, int_eq}
use boxi.Connection.State.{Connection}
use boxi.Connection.Pid.{
  KillError, kill_ok, kill_bad_signal, kill_access_denied, kill_no_process, kill_error, PidFile,
  not_configured, not_found, not_opened, short_read, contents, System, int_of_long, is_positive,
  on_probe, read_client_pid, pid_after, get_client_pid_slow, kill_client,
}

-- The file holds the PID of a process, with what the probe of it said.
abbrev pub Holds : System → PidFile → ℕ → Type 0
Holds y f n =
    (text : Text) × (f ≡ contents text)
    × (y.strtol10 text ≡ pos n)
    × (0 < n)
    × (y.probe (int_of_long (pos n)) ≡ kill_ok)

positive_cases :
    (z : ℤ) → ((n : ℕ) × (z ≡ pos n) × (0 < n) × (is_positive z ≡ true)) ⊎ (is_positive z ≡ false)
positive_cases (pos zero) = inr refl
positive_cases (pos (suc n)) = inl (suc n, refl, omega arith, ground arith)
positive_cases (negsuc n) = inr refl

probe-cases :
    (y : System) (z : ℤ) (k : KillError)
    → (pid_after y (on_probe z k) ≡ negsuc 0)
      ⊎ ((k ≡ kill_ok) × (pid_after y (on_probe z k) ≡ int_of_long z))
probe-cases y z kill_ok = inr (refl, refl)
probe-cases y z kill_bad_signal = inl refl
probe-cases y z kill_access_denied = inl refl
probe-cases y z kill_no_process = inl refl
probe-cases y z kill_error = inl refl

-- Nothing is known, or the file holds it.
read-cases :
    (y : System) (f : PidFile)
    → (pid_after y (read_client_pid y f) ≡ negsuc 0)
      ⊎ ((n : ℕ) × Holds y f n × (pid_after y (read_client_pid y f) ≡ int_of_long (pos n)))
unfolding read_client_pid
read-cases y not_configured = inl refl
read-cases y not_found = inl refl
read-cases y not_opened = inl refl
read-cases y short_read = inl refl
read-cases y (contents text) = elim (positive_cases (y.strtol10 text)) [
  | inr e ↦ inl (rw e refl)
  | inl (n, e, p, t) ↦
      elim (probe-cases y (y.strtol10 text) (y.probe (int_of_long (y.strtol10 text)))) [
        | inl q ↦ inl (rw t q)
        | inr (k, q) ↦ inr (
          n,
          (text, refl, e, p, subst (λ z. y.probe (int_of_long z) ≡ kill_ok) e k),
          rw t (q ∙ ap int_of_long e),
        )
      ]
]

-- What is signalled: the known PID, unless it is -1.
kill_client-signals :
    (kill : ℤ → KillError) (c : Connection)
    → (kill_client kill c).2 ≡ (if int_eq c.client_pid (negsuc 0) then none else some c.client_pid)
unfolding kill_client
kill_client-signals kill c = elim (Bool-cases (int_eq c.client_pid (negsuc 0))) [
  | inl e ↦ rw e refl
  | inr e ↦ rw e refl
]

int_of_long_small : (n : ℕ) → n < 2 ^ 31 → int_of_long (pos n) ≡ pos n
unfolding int_of_long
int_of_long_small n h = ground arith

-- After a look at a PID file whose numbers are in the range of an `int`, `KillClient` signals nothing, or the positive PID that the file holds and that a probe found.
pub kill_client-get_client_pid_slow :
    (y : System) (f : PidFile) (kill : ℤ → KillError) (c : Connection)
    → ((n : ℕ) → Holds y f n → n < 2 ^ 31)
    → let signalled = (kill_client kill (get_client_pid_slow y f c).0).2 in
      (signalled ≡ none)
      ⊎ ((n : ℕ) × Holds y f n × (y.probe (pos n) ≡ kill_ok) × (signalled ≡ some (pos n)))
unfolding get_client_pid_slow
kill_client-get_client_pid_slow y f kill c small =
    let what = kill_client-signals kill (get_client_pid_slow y f c).0 in
    elim (read-cases y f) [
      | inl q ↦ inl (what ∙ rw q refl)
      | inr (n, h, q) ↦
          let same : int_of_long (pos n) ≡ pos n = int_of_long_small n (small n h) in
          let (text, f_is, e, p, k) = h in
          inr (n, h, subst (λ z. y.probe z ≡ kill_ok) same k, what ∙ rw (q, same) refl)
    ]

int_of_long_multiple : (m : ℕ) → int_of_long (pos (m * 2 ^ 32)) ≡ pos 0
unfolding int_of_long
int_of_long_multiple m = ground arith

-- A PID file that holds a positive multiple of 2^32 makes `KillClient` signal PID 0, which stands for the caller's own process group, if the probe of 0 succeeds.
pub kill_client_own_group :
    (y : System) (text : Text) (m : ℕ) (kill : ℤ → KillError) (c : Connection)
    → y.strtol10 text ≡ pos (m * 2 ^ 32)
    → 0 < m
    → y.probe (pos 0) ≡ kill_ok
    → (kill_client kill (get_client_pid_slow y (contents text) c).0).2 ≡ some (pos 0)
unfolding get_client_pid_slow read_client_pid
kill_client_own_group y text m kill c e p k =
    let positive : is_positive (pos (m * 2 ^ 32)) ≡ true = ground arith in
    let zero_pid : int_of_long (pos (m * 2 ^ 32)) ≡ pos 0 = int_of_long_multiple m in
    kill_client-signals kill (get_client_pid_slow y (contents text) c).0
    ∙ rw (e, positive, zero_pid, k) (rw zero_pid refl)
