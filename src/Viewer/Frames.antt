-- ===== src/Viewer/Frames.antt =====
-- A frame that arrives after the picture was given back.
use camera_udp.Base.{ℕ, ◌≡◌, refl, Bool, [], ◌∷◌, Memory}
use camera_udp.Session.{type_stop}
use camera_udp.Viewer.{
  CClient, faulted, type_h264, format_yuy2, on_user_data, on_stop, on_h264, on_frame, drop_vid,
  start, add_ref, post, user_data, started, step, continue, run,
}

-- After a start with the format YUY2 that the camera took, a message 'stop' and a frame after it fault,
-- whatever state the client was in.
frame_after_stop-faulted :
    (s : CClient) (vid status status' : ℕ) (posts posts' : Bool) (m m' : Memory) (pb pb' cb cb' : ℕ)
    → run
        (started vid format_yuy2 0
          ∷ user_data posts status m type_stop pb cb
          ∷ user_data posts' status' m' type_h264 pb' cb'
          ∷ [])
        s
      ≡ faulted
unfolding run continue step start on_user_data on_stop on_h264 on_frame drop_vid post add_ref
frame_after_stop-faulted s vid status status' posts posts' m m' pb pb' cb cb' = refl
