-- ===== src/Viewer.antt =====
-- The viewer's end of a connection: class CClient of remote camera/client.h and client.cpp. A picture
-- (class VBmp) and a key are addresses. What the windows, SendUserData and the decoder return are
-- arguments.
pub mod Pictures
pub mod Frames
mod Tests
use camera_udp.Base.{
  one, ℕ, suc, ◌+◌, ◌-◌, ◌%◌, ◌^◌, Bool, true, false, List, [], ◌∷◌, Option, none, some, ◌==◌,
  if◌then◌else◌, Memory,
}
use camera_udp.Endpoint.{status_bad_data}
use camera_udp.Formats.{validate_formats}
use camera_udp.Session.{e_fail, type_strt, type_stop, type_init, type_fmts}

-- The messages to the windows.
pub data Post : Type 0 where
  e_set : Option ℕ → Post
  e_update : Post
  e_list : ℕ → Post
  e_connected : Post
  e_disconnected : Post

-- `references` counts the references to each picture that the client holds, and `posted` are its
-- messages, the last first; no code keeps these. Before `Start`, `bi_compression` and `cb_data` hold
-- what was in memory.
pub record CClient : Type 0 where
  pub vid : Option ℕ
  pub bi_compression : ℕ
  pub cb_data : ℕ
  pub key : Option ℕ
  pub references : ℕ → ℕ
  pub posted : List Post

-- `faulted` is an access through a null pointer; `unfinished` says that the fuel of ValidateFormats
-- ended.
pub data Outcome : Type 0 where
  returned : ℕ → CClient → Outcome
  faulted : Outcome
  unfinished : Outcome

abbrev pub type_h264 : ℕ
type_h264 = 0x48323634

-- '2YUY'
abbrev pub format_yuy2 : ℕ
format_yuy2 = 0x32595559

unfoldable pub post : Post → CClient → CClient
post message s = record s { posted = message ∷ s.posted }

unfoldable pub add_ref : ℕ → CClient → CClient
add_ref vid s = record s { references = λ a. s.references a + one vid a }

unfoldable pub release : ℕ → CClient → CClient
release vid s = record s { references = λ a. s.references a - one vid a }

unfoldable pub release_any : Option ℕ → CClient → CClient
unfolding release
release_any none s = s
release_any (some vid) s = release vid s

-- if (_vid) _vid->Release(), _vid = 0
unfoldable pub drop_vid : CClient → CClient
unfolding release_any
drop_vid s = record (release_any s.vid s) { vid = none }

unfoldable pub destroy_key : CClient → CClient
destroy_key s = record s { key = none }

-- `SetPrivateKey`; `none` is its __debugbreak.
unfoldable pub set_private_key : ℕ → CClient → Option CClient
set_private_key key s = elim s.key [ none ↦ some (record s { key = some key }) | some old ↦ none ]

unfoldable pub on_connect : CClient → ℕ × CClient
unfolding post destroy_key
on_connect s = (0, post e_connected (destroy_key s))

unfoldable pub on_disconnect : CClient → CClient
unfolding post destroy_key drop_vid
on_disconnect s = post e_disconnected (drop_vid (destroy_key s))

-- The destructor.
unfoldable pub destroy : CClient → CClient
unfolding release_any destroy_key
destroy s = destroy_key (release_any s.vid s)

-- `Start`: `send` is what SendUserData returns for 'strt' and the two numbers.
unfoldable pub start : (vid bi_compression send : ℕ) → CClient → Bool × CClient
unfolding release_any add_ref post release
start vid bi_compression send s =
    let held = add_ref vid (record (release_any s.vid s) { vid = some vid }) in
    let shown =
      post (e_set (some vid)) (record held { bi_compression = bi_compression; cb_data = 0 }) in
    let cleared = record (post (e_set none) shown) { vid = none } in
    if send == 0 then (true, shown) else (false, release vid cleared)

-- The list of formats: `posts` is what PostMessageW returns.
unfoldable pub on_formats : (posts : Bool) → Option Bool → (cb : ℕ) → CClient → Outcome
unfolding post
on_formats posts none cb s = unfinished
on_formats posts (some false) cb s = returned status_bad_data s
on_formats posts (some true) cb s =
    if posts then returned 0 (post (e_list cb) s) else returned e_fail s

unfoldable pub on_stop : CClient → Outcome
unfolding post drop_vid
on_stop s = returned 0 (drop_vid (post (e_set none) s))

-- A frame for the picture: `on_frame` is what OnFrame returns.
unfoldable pub on_frame : (posts : Bool) → (on_frame : ℕ) → Option ℕ → CClient → Outcome
unfolding post
on_frame posts status none s = faulted
on_frame posts status (some vid) s =
    let shown = (if posts then returned 0 (post e_update s) else returned e_fail s) in
    if status == 0 then shown else returned 0 s

unfoldable pub on_h264 : (posts : Bool) → (status cb : ℕ) → CClient → Outcome
unfolding on_frame
on_h264 posts status cb s =
    let counted = record s { cb_data = (s.cb_data + cb) % 2 ^ 64 } in
    if s.bi_compression == format_yuy2
    then on_frame posts status s.vid counted
    else returned status_bad_data counted

-- `OnUserData` for `cb` bytes at `pb`.
unfoldable pub on_user_data :
    (posts : Bool) → (status : ℕ) → Memory → (type pb cb : ℕ) → CClient → Outcome
unfolding on_formats on_stop on_h264
on_user_data posts status m type pb cb s =
    if type == type_fmts
    then on_formats posts (validate_formats (cb + 1) m pb cb) cb s
    else if type == type_stop
    then on_stop s
    else if type == type_h264
    then on_h264 posts status cb s
    else returned status_bad_data s

-- What happens to a client.
pub data Event : Type 0 where
  user_data : (posts : Bool) → (status : ℕ) → Memory → (type pb cb : ℕ) → Event
  started : (vid bi_compression send : ℕ) → Event
  connected : Event
  disconnected : Event

unfoldable pub step : Event → CClient → Outcome
unfolding on_user_data start on_connect on_disconnect
step (user_data posts status m type pb cb) s = on_user_data posts status m type pb cb s
step (started vid bi_compression send) s = returned 0 (start vid bi_compression send s).1
step connected s = returned 0 (on_connect s).1
step disconnected s = returned 0 (on_disconnect s)

unfoldable pub continue : (CClient → Outcome) → Outcome → Outcome
continue next (returned status s) = next s
continue next faulted = faulted
continue next unfinished = unfinished

unfoldable pub run : List Event → CClient → Outcome
unfolding step continue
run [] s = returned 0 s
run (event ∷ events) s = continue (run events) (step event s)
