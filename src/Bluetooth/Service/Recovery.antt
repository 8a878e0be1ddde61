-- ===== src/Bluetooth/Service/Recovery.antt =====
-- A supervisor that loses its adapter connects again.
use carrera_monitor.Prelude.{
  ℕ, String, Bool, true, false, not, ◌≡◌, sym, ap, ◌∙◌, Option, none, some, List, [], ◌∷◌, leb,
  if◌then◌else◌, arith,
}
use mathlib.Core.Path.{subst}
use carrera_monitor.Client.Frames.{Stamp}
use carrera_monitor.Bluetooth.Supervisor.{
  BluetoothConnectionSupervisor, rows, emit_lifecycle_event, disconnect_current,
}
use carrera_monitor.Bluetooth.Supervisor.Connecting.{opened, connect_cycle}
use carrera_monitor.Bluetooth.Supervisor.Pumping.{
  read_error, pump_live_events_once, handle_unexpected_disconnect,
}
use carrera_monitor.Bluetooth.Supervisor.Rounds.{
  Surroundings, run_once, drive, drive_adapter, after_sync, read_desired,
}
use carrera_monitor.Bluetooth.Service.Requests.{run_all, sync-old}
use carrera_monitor.Bluetooth.Service.Connect.{IsReadyWith, connect_cycle-ready}

module _ {F : Type 0} (isoformat show : ℕ → String) where
  -- No request is unread, and a connection is wanted.
  unfoldable pub IsWanted : BluetoothConnectionSupervisor F → Type 0
  IsWanted b =
      (leb b.runtime.bluetooth_command_seq b.last_command_seq ≡ true)
      × (b.runtime.bluetooth_desired_connected ≡ true)

  run_once-wanted :
      (w : Surroundings F) (b : BluetoothConnectionSupervisor F)
      → IsWanted b
      → run_once isoformat show w b
        ≡ drive_adapter isoformat show w b.adapter (read_desired isoformat show w.now b)
  unfolding run_once drive IsWanted
  run_once-wanted w b (old, on) =
      ap (after_sync isoformat show w) (sync-old isoformat show w.now w.command_scan b old)
      ∙ ap
          (λ t.
            if t
            then drive_adapter isoformat show w b.adapter (read_desired isoformat show w.now b)
            else read_desired isoformat show w.now b)
          on

  lost_by :
      (now : Stamp) (text : String) (b : BluetoothConnectionSupervisor F)
      → b.desired_connected ≡ true
      → ((handle_unexpected_disconnect isoformat show now text b).adapter ≡ none)
        × (((handle_unexpected_disconnect isoformat show now text b).runtime ≡ b.runtime)
            × (((handle_unexpected_disconnect isoformat show now text b).last_command_seq
                  ≡ b.last_command_seq)
                × ((handle_unexpected_disconnect isoformat show now text b).has_connected_once
                    ≡ b.has_connected_once)))
  unfolding handle_unexpected_disconnect disconnect_current emit_lifecycle_event
  lost_by now text b on = (ground arith, (ground arith, (ground arith, ground arith)))

  desired_of :
      (b : BluetoothConnectionSupervisor F)
      → IsWanted b
      → b.runtime.bluetooth_desired_connected ≡ true
  unfolding IsWanted
  desired_of b (old, on) = on

  same_requests :
      (b d : BluetoothConnectionSupervisor F)
      → d.runtime ≡ b.runtime
      → d.last_command_seq ≡ b.last_command_seq
      → IsWanted b
      → IsWanted d
  unfolding IsWanted
  same_requests b d runtime last (old, on) = (
    ap (λ r. leb r.bluetooth_command_seq d.last_command_seq) runtime
        ∙ ap (λ l. leb b.runtime.bluetooth_command_seq l) last
        ∙ old,
    ap (λ r. r.bluetooth_desired_connected) runtime ∙ on,
  )

  -- Where no request is unread, a connection is wanted, and a supervisor that has been connected
  -- before reads an error from its adapter, it becomes ready again in the next iteration if the
  -- scan of that returns and the new adapter opens, with no failed attempts, and with an adapter
  -- that does not reset the clock of the control unit.
  pub read_error-recovers :
      (w v : Surroundings F) (text : String) (rs : List (String × Option String)) (clock : Bool)
      → (b : BluetoothConnectionSupervisor F) → IsWanted b
      → b.adapter ≡ some clock
      → b.has_connected_once ≡ true
      → w.arrival ≡ read_error text
      → v.target_scan ≡ rows rs
      → v.opening ≡ opened
      → IsReadyWith isoformat show false (run_all isoformat show (w ∷ v ∷ []) b)
  unfolding pump_live_events_once
  read_error-recovers w v text rs clock b wanted held once lost found opens =
      let c = read_desired isoformat show w.now b in
      let d = handle_unexpected_disconnect isoformat show w.now text c in
      let e = read_desired isoformat show v.now d in
      let (empty, (runtime, (last, ever))) = lost_by w.now text c (desired_of b wanted) in
      let first =
        run_once-wanted w b wanted
        ∙ ap (λ a. drive_adapter isoformat show w a c) held
        ∙ ap (λ x. pump_live_events_once isoformat show w.now x c) lost in
      let second =
        run_once-wanted v d (same_requests b d runtime last wanted)
        ∙ ap (λ a. drive_adapter isoformat show v a e) empty
        ∙ ap (λ x. connect_cycle isoformat show v.now x v.opening e) found
        ∙ ap (λ x. connect_cycle isoformat show v.now (rows rs) x e) opens in
      subst (IsReadyWith isoformat show false)
        (sym (ap (λ x. run_once isoformat show v x) first ∙ second))
        (subst
          (λ x.
            IsReadyWith isoformat show (not x)
              (connect_cycle isoformat show v.now (rows rs) opened e))
          (ever ∙ once) (connect_cycle-ready isoformat show v.now rs e))
