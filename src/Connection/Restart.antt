-- ===== src/Connection/Restart.antt =====
-- Restarting the client: `OnRestartClient`.
use boxi.Prelude.{◌≡◌, refl, ap, true, List}
use boxi.Connection.State.{bst_restart, bst_restarting, err_none, Connection, state_eq}
use boxi.Connection.Worker.{
  Event, run_events, Handled, done, threw, Sent, was_sent, send_threw, on_restart_client,
}
use boxi.Connection.Listening.{Restarting, run-Restarting}

-- The state and the fields after a restart, whether the write returned or threw.
abbrev pub RestartLeft : Sent → Handled → Type 0
RestartLeft was_sent h =
    (c : Connection) × (h ≡ done c) × Restarting c.current_state × (c.last_error ≡ err_none)
RestartLeft send_threw h = (c : Connection) × (h ≡ threw c) × Restarting c.current_state

-- Whatever other threads do while "terminate" is written, and whether the write returns or throws, the handler of a restart that was asked for fails no assertion and leaves the state RESTARTING, or START where the process was reported to have ended.
on_restart_client_lem :
    (sent : Sent) (es : List Event) (c : Connection)
    → c.current_state ≡ bst_restart
    → RestartLeft sent (on_restart_client sent es c)
unfolding on_restart_client
on_restart_client_lem was_sent es c h =
    let c1 = run_events es (record c { current_state = bst_restarting }) in
    let here : state_eq c.current_state bst_restart ≡ true = ap (λ s. state_eq s bst_restart) h in
    (
      record c1 { last_error = err_none },
      rw here refl,
      run-Restarting es (record c { current_state = bst_restarting }) refl,
      refl,
    )
on_restart_client_lem send_threw es c h =
    let here : state_eq c.current_state bst_restart ≡ true = ap (λ s. state_eq s bst_restart) h in
    (
      run_events es (record c { current_state = bst_restarting }),
      rw here refl,
      run-Restarting es (record c { current_state = bst_restarting }) refl,
    )
