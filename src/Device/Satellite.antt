-- ===== src/Device/Satellite.antt =====
-- The functions of app/src/sat_board.c and the bounds of their globals.
use hubble_reference_thingy.Common.{
  ℕ, zero, suc, ◌-◌, ◌/◌, ◌^◌, ◌≤◌, ◌<◌, ◌≡◌, true, Option, none, some, List, [], ◌∷◌, arith, drop,
  length-memcpy,
}
use hubble_reference_thingy.Common.Int.{ℤ}
use hubble_reference_thingy.Config.{Config}
use hubble_reference_thingy.App.{AppEnv, AppWorld, PassInfo, Sat, with_sat, hubble_time_get}
use hubble_reference_thingy.Drivers.Led.{led_blink_start, led_blink_stop}
use hubble_reference_thingy.Sat.Passes.{sat_pass_add, next_in_table}
use hubble_reference_thingy.Sat.Table.{IsTable, added-IsTable}
use hubble_reference_thingy.Sat.Search.{next_in_table_refines}
use hubble_reference_thingy.Sat.Schedule.{
  find_pass, schedule_from_table, sat_schedule_next_transmission, ms_per_s, pass_info_of,
  pass_after, end_of,
}
use hubble_reference_thingy.Sat.Schedule.Predicted.{request, reply, asked}
use hubble_reference_thingy.Sat.Payload.{exactly, sat_payload_set, payload_get}
use hubble_reference_thingy.Sat.Transmit.{
  send_while_open, send_in_window, send_once, finish_transmit, send_packet, transmit_packet,
  sat_transmit,
}
use hubble_reference_thingy.Ble.Write.{
  le_value, entry_size, add_entries, set_ephemeris, device_location_set,
}
use hubble_reference_thingy.Device.State.{
  IsSat, IsApp, IsWithinBounds, AreBytes, AreEntries-set, drop-AreBytes, le_value_u16, le_value_u32,
  length-exactly,
}

module _ (c : Config) (m : ℕ) where
  sat_pass_add-IsSat :
      (t d : ℕ) {s : Sat} → t < 2 ^ 32 → d < 2 ^ 16 → IsSat m s → IsSat m (sat_pass_add c t d s).1
  unfolding sat_pass_add
  sat_pass_add-IsSat t d {s} ht hd v =
      let entries = AreEntries-set s.passes s.count _ v.entries (ht, hd) in
      ground (arith, added-IsTable t d v.table)

  add_entries-IsSat :
      (count available : ℕ) (p : List ℕ) (s : Sat)
      → AreBytes p
      → IsSat m s
      → IsSat m (add_entries c count available p s)
  unfolding add_entries
  add_entries-IsSat zero available p s b v = v
  add_entries-IsSat (suc count) available p s b v =
      let rest = add_entries-IsSat count (available - entry_size) (drop entry_size p) in
      let added =
        sat_pass_add-IsSat (le_value 4 p) (le_value 2 (drop 4 p)) (le_value_u32 p b)
          (le_value_u16 (drop 4 p) (drop-AreBytes 4 p b)) v in
      ground (arith, rest _ (drop-AreBytes entry_size p b) added)

  pub set_ephemeris-IsSat :
      (req : List ℕ) (len : ℕ) {s : Sat}
      → AreBytes req
      → IsSat m s
      → IsSat m (set_ephemeris c req len s)
  unfolding set_ephemeris
  set_ephemeris-IsSat req len {s} b v = ground (
    arith,
    add_entries-IsSat (le_value 4 (drop 2 req)) (len - 2 - 4) (drop 6 req) s (drop-AreBytes 6 req b)
        v,
  )

  pub device_location_set-IsSat :
      (lat lon : List ℕ) {s : Sat}
      → IsSat m s
      → IsSat m (device_location_set c (exactly 8 lat) (exactly 8 lon) s)
  unfolding device_location_set
  device_location_set-IsSat lat lon v = ground (arith, length-exactly 8 lat, length-exactly 8 lon)

pub sat_payload_set-IsSat :
    (m type : ℕ) (bytes : List ℕ) (len : ℕ) {s : Sat}
    → len < 13
    → 13 ≤ m
    → IsSat m s
    → IsSat m (sat_payload_set type bytes len s).1
unfolding sat_payload_set
sat_payload_set-IsSat m type bytes len {s} h room v =
    ground (arith, length-exactly len bytes, length-memcpy s.custom_buffer 0 (exactly len bytes))

IsSat-idx : (m : ℕ) {s t : Sat} → IsTable t → t ≡ record s { idx = t.idx } → IsSat m s → IsSat m t
IsSat-idx m {s} {t} table same v = ground arith

next_in_table-IsSat : (m now_s : ℕ) {s : Sat} → IsSat m s → IsSat m (next_in_table now_s s).1
next_in_table-IsSat m now_s {s} v =
    let k = next_in_table_refines now_s v.table in IsSat-idx m k.table k.same v

pass_after-start :
    (ret : ℤ) (out : List ℕ) (p : PassInfo)
    → p.start < 2 ^ 64
    → (pass_info_of out).start < 2 ^ 64
    → (pass_after (ret, out) p).start < 2 ^ 64
pass_after-start ret [] p old new = ground arith
pass_after-start ret (x ∷ out) p old new = new

module _ (c : Config) (env : AppEnv) (b : IsWithinBounds c env) where
  schedule_from_table-IsApp :
      (now_ms : ℕ) (w : AppWorld)
      → IsApp c w.state
      → IsApp c (schedule_from_table env now_ms w).1.state
  unfolding schedule_from_table
  schedule_from_table-IsApp now_ms w v =
      ground (arith, next_in_table-IsSat c.payload_max (now_ms / ms_per_s) v.sat)

  find_pass-IsApp :
      (fuel now_ms t : ℕ) (w : AppWorld)
      → IsApp c w.state
      → IsApp c (find_pass env fuel now_ms t w).1.state
  unfolding find_pass
  find_pass-IsApp zero now_ms t w v = v
  find_pass-IsApp (suc fuel) now_ms t w v =
      let s = w.state.sat in
      let next =
        pass_after-start (env.ret w.trace (request t w)) (env.out w.trace (request t w)) s.next_pass
          v.sat.start (b.times w.trace t s.lat s.lon) in
      let stored : IsApp c (asked env t w).state = ground (arith, next) in
      ground (arith, find_pass-IsApp fuel now_ms (end_of (reply env t w)) (asked env t w) stored)

  pub sat_schedule-IsApp :
      (fuel : ℕ) (w : AppWorld)
      → IsApp c w.state
      → IsApp c (sat_schedule_next_transmission c env fuel w).1.state
  unfolding sat_schedule_next_transmission
  sat_schedule-IsApp fuel w v =
      let now_ms = env.val w.trace hubble_time_get in
      let w' : AppWorld = record w { trace = hubble_time_get ∷ w.trace } in
      ground (arith, find_pass-IsApp fuel now_ms now_ms w' v, schedule_from_table-IsApp now_ms w' v)

  led_blink_start-IsApp :
      (w : AppWorld) → IsApp c w.state → IsApp c (led_blink_start c env w).1.state
  unfolding led_blink_start
  led_blink_start-IsApp w v = ground arith

  payload_get-IsApp : (w : AppWorld) → IsApp c w.state → IsApp c (payload_get c env w).1.state
  unfolding payload_get
  payload_get-IsApp w v = ground arith

  finish_transmit-IsApp :
      (r : Option ℤ) (w : AppWorld) → IsApp c w.state → IsApp c (finish_transmit c env r w).1.state
  unfolding finish_transmit led_blink_stop
  finish_transmit-IsApp none w v = v
  finish_transmit-IsApp (some ret) w v = ground arith

  send_while_open-IsApp :
      (fuel now start : ℕ) (duration : ℤ) (pkt : List ℕ) (w : AppWorld)
      → IsApp c w.state
      → IsApp c (send_while_open env fuel now start duration pkt w).1.state
  unfolding send_while_open
  send_while_open-IsApp zero now start duration pkt w v = v
  send_while_open-IsApp (suc fuel) now start duration pkt w v =
      grind (arith, b.others, send_while_open-IsApp fuel)

  send_in_window-IsApp :
      (fuel : ℕ) (pkt : List ℕ) (w : AppWorld)
      → IsApp c w.state
      → IsApp c (send_in_window env fuel pkt w).1.state
  unfolding send_in_window
  send_in_window-IsApp fuel pkt w v = grind (arith, send_while_open-IsApp)

  send_once-IsApp :
      (pkt : List ℕ) (w : AppWorld) → IsApp c w.state → IsApp c (send_once env pkt w).1.state
  unfolding send_once
  send_once-IsApp pkt w v = grind (arith, b.others)

  send_packet-IsApp :
      (fuel : ℕ) (pkt : List ℕ) (w : AppWorld)
      → IsApp c w.state
      → IsApp c (send_packet c env fuel pkt w).1.state
  unfolding send_packet
  send_packet-IsApp fuel pkt w v =
      ground (arith, send_once-IsApp pkt w v, send_in_window-IsApp fuel pkt w v)

  transmit_packet-IsApp :
      (fuel : ℕ) (ret : ℤ) (pkt : List ℕ) (w : AppWorld)
      → IsApp c w.state
      → IsApp c (transmit_packet c env fuel ret pkt w).1.state
  unfolding transmit_packet
  transmit_packet-IsApp fuel ret pkt w v =
      let w' : AppWorld = record w {
        state = with_sat (λ s. record s { transmitting = true }) w.state;
      } in
      let lit = led_blink_start-IsApp w' (ground (arith, v)) in
      let on = (led_blink_start c env w').1 in
      let sent = send_packet c env fuel pkt on in
      ground (arith, finish_transmit-IsApp sent.0 sent.1 (send_packet-IsApp fuel pkt on lit))

  pub sat_transmit-IsApp :
      (fuel : ℕ) (w : AppWorld) → IsApp c w.state → IsApp c (sat_transmit c env fuel w).1.state
  unfolding sat_transmit
  sat_transmit-IsApp fuel w v = transmit_packet-IsApp fuel _ _ _ (payload_get-IsApp w v)
