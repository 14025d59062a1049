-- ===== src/Session.antt =====
-- The camera's end of a connection: class CEncTcp of camera server/userendp.h and server.cpp. What the
-- system, H264, KsRead and CreateInfo return is the record `Machine`, which may differ at each event.
pub mod Owned
pub mod Released
mod Tests
use camera_udp.Base.{
  ℕ, suc, ◌-◌, ◌^◌, Bool, true, false, List, [], ◌∷◌, ◌++◌, Option, none, some, ltb, ◌==◌,
  if◌then◌else◌, length, get_or, Memory,
}
use camera_udp.Capture.{is_success}
use camera_udp.Formats.{ulong_at, get_format_info}

-- `buffers` and `readers` count the buffers and the KsRead objects that the session has made and not
-- given back; `sent` is what it passed to SendUserData, the last first. No code keeps these three.
pub record CEncTcp : Type 0 where
  pub m_buf : Option ℕ
  pub pin : Option ℕ
  pub buffers : ℕ
  pub readers : ℕ
  pub sent : List (ℕ × List ℕ)

-- `formats` is the payload of CreateInfo, if it succeeds.
pub record Machine : Type 0 where
  pub memory : Memory
  pub size_video : ℕ
  pub fuel : ℕ
  pub opens : ℕ → Bool
  pub new_h264 : Bool
  pub init : ℕ → ℕ
  pub new_ks_read : Option ℕ
  pub create : ℕ → ℕ
  pub set_state : ℕ
  pub new_buffer : Option ℕ
  pub new_payload : Bool
  pub formats : Option (List ℕ)

-- E_FAIL
abbrev pub e_fail : ℕ
e_fail = 0x80004005

abbrev pub status_invalid_device_request : ℕ
status_invalid_device_request = 0xC0000010

abbrev pub type_strt : ℕ
type_strt = 0x73747274

abbrev pub type_stop : ℕ
type_stop = 0x73746F70

abbrev pub type_init : ℕ
type_init = 0x696E6974

abbrev pub type_fmts : ℕ
type_fmts = 0x666D7473

-- What a fresh object holds.
abbrev pub empty : CEncTcp
empty = record { m_buf = none; pin = none; buffers = 0; readers = 0; sent = [] }

unfoldable pub release_pin : CEncTcp → CEncTcp
release_pin s = record s { readers = s.readers - 1 }

unfoldable pub stop_pin : Option ℕ → CEncTcp → ℕ × CEncTcp
unfolding release_pin
stop_pin none s = (e_fail, s)
stop_pin (some pin) s = (0, record (release_pin s) { pin = none })

unfoldable pub stop : CEncTcp → ℕ × CEncTcp
unfolding stop_pin
stop s = stop_pin s.pin s

-- if (_M_buf) delete[] _M_buf, _M_buf = 0
unfoldable pub delete_buf : Option ℕ → CEncTcp → CEncTcp
delete_buf none s = s
delete_buf (some buf) s = record s { m_buf = none; buffers = s.buffers - 1 }

unfoldable pub delete_m_buf : CEncTcp → CEncTcp
unfolding delete_buf
delete_m_buf s = delete_buf s.m_buf s

module _ (machine : Machine) where
  -- After Create: the state of the pin is set, and the reads begin.
  unfoldable pub run_pin : (pin status : ℕ) → CEncTcp → ℕ × CEncTcp
  unfolding release_pin
  run_pin pin status s =
      if is_success status
      then (if is_success machine.set_state
          then (0, record s { pin = some pin })
          else (e_fail, release_pin s))
      else (e_fail, s)

  -- After Init: without a pin the status is a failure.
  unfoldable pub create_pin : Option ℕ → (format : ℕ) → CEncTcp → ℕ × CEncTcp
  unfolding run_pin
  create_pin none format s = (e_fail, s)
  create_pin (some pin) format s =
      run_pin pin (machine.create format) (record s { readers = suc s.readers })

  unfoldable pub start : (name format : ℕ) → CEncTcp → ℕ × CEncTcp
  unfolding create_pin
  start name format s =
      if machine.opens name
      then (if machine.new_h264
          then (if is_success (machine.init format)
              then create_pin machine.new_ks_read format s
              else (e_fail, s))
          else (e_fail, s))
      else (e_fail, s)

  unfoldable pub start_found : Option (Option (ℕ × ℕ)) → CEncTcp → ℕ × CEncTcp
  unfolding start
  start_found none s = (0, s)
  start_found (some none) s = (0, s)
  start_found (some (some (name, format))) s = start name format s

  -- The two numbers of SELECT in the message.
  unfoldable pub select : Option ℕ → List ℕ → CEncTcp → ℕ × CEncTcp
  unfolding start_found
  select none bytes s = (0, s)
  select (some buf) bytes s =
      let payload : Memory = λ at. get_or bytes at 0 in
      let format =
        get_format_info machine.size_video machine.fuel machine.memory buf (ulong_at payload 0)
          (ulong_at payload 4) in
      if length bytes == 8 then start_found format s else (0, s)

  unfoldable pub on_start : Option ℕ → List ℕ → CEncTcp → ℕ × CEncTcp
  unfolding select
  on_start none bytes s = select s.m_buf bytes s
  on_start (some pin) bytes s = (0, s)

  -- CreateInfo succeeded or not; the buffers are given back, but the one that _M_buf keeps.
  unfoldable pub refresh_info : Option (List ℕ) → (buf : ℕ) → CEncTcp → ℕ × CEncTcp
  refresh_info none buf s = (e_fail, s)
  refresh_info (some bytes) buf s = (
    0,
    record s { m_buf = some buf; buffers = suc s.buffers; sent = (type_fmts, bytes) ∷ s.sent },
  )

  unfoldable pub refresh_with : Option ℕ → CEncTcp → ℕ × CEncTcp
  unfolding refresh_info
  refresh_with none s = (e_fail, s)
  refresh_with (some buf) s =
      if machine.new_payload then refresh_info machine.formats buf s else (e_fail, s)

  unfoldable pub refresh : CEncTcp → ℕ × CEncTcp
  unfolding refresh_with delete_m_buf
  refresh s = refresh_with machine.new_buffer (delete_m_buf s)

  unfoldable pub on_user_data : (type : ℕ) → List ℕ → CEncTcp → ℕ × CEncTcp
  unfolding on_start stop refresh
  on_user_data type bytes s =
      if type == type_strt
      then on_start s.pin bytes s
      else if type == type_stop
      then stop s
      else if type == type_init
      then refresh s
      else (status_invalid_device_request, s)

unfoldable pub on_disconnect : CEncTcp → CEncTcp
unfolding stop delete_m_buf
on_disconnect s = delete_m_buf (stop s).1

-- The destructor.
unfoldable pub destroy : CEncTcp → CEncTcp
unfolding stop delete_m_buf
destroy s = (stop (delete_m_buf s)).1

-- `OnStop`
unfoldable pub on_stop : CEncTcp → CEncTcp
on_stop s = record s { sent = (type_stop, []) ∷ s.sent }

-- What happens to a session. Accept and OnConnect return 0 and change nothing.
pub data Event : Type 0 where
  user_data : Machine → (type : ℕ) → List ℕ → Event
  disconnected : Event
  stopped : Event

unfoldable pub step : Event → CEncTcp → CEncTcp
unfolding on_user_data on_disconnect on_stop
step (user_data machine type bytes) s = (on_user_data machine type bytes s).1
step disconnected s = on_disconnect s
step stopped s = on_stop s

unfoldable pub run : List Event → CEncTcp → CEncTcp
unfolding step
run [] s = s
run (event ∷ events) s = run events (step event s)
