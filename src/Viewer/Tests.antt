-- ===== src/Viewer/Tests.antt =====
-- Runs of a client, and its theorems at concrete events.
use camera_udp.Base.{one, ℕ, ◌≡◌, refl, true, [], none, some}
use camera_udp.Viewer.{CClient, returned, type_h264, format_yuy2, Event, user_data, step}
use camera_udp.Viewer.Pictures.{Expected, step-Expected}

-- A picture at 9 is shown.
showing : CClient
showing = record {
  vid = some 9;
  bi_compression = format_yuy2;
  cb_data = 0;
  key = none;
  references = one 9;
  posted = [];
}

frame : Event
frame = user_data true 0 (λ _. 0) type_h264 0 4

-- The frame is counted.
frame-counted : (o : ℕ) × (t : CClient) × (step frame showing ≡ returned o t) × (t.cb_data ≡ 4)
unfolding showing frame step
frame-counted = (0, _, refl, refl)

step-Expected_example : Expected showing (step frame showing)
unfolding showing frame
step-Expected_example = step-Expected frame showing refl (λ a. refl)
