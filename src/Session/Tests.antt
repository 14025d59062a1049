-- ===== src/Session/Tests.antt =====
-- Runs of a session, and its theorems at concrete machines.
use camera_udp.Base.{◌≡◌, refl, true, List, [], ◌∷◌, some, copy}
use camera_udp.Formats.{
  wcs_end, then_at, get_strings_end, align_data_range, find_format, after_walk, find_device,
  get_format_info,
}
use camera_udp.Session.{Machine, Event, user_data, empty, type_strt, type_init, destroy, run}
use camera_udp.Session.Released.{AllCreate, destroy-releases_all}

-- At 1024: the name "A", the end of the list, and, at 1032, one format of eight bytes and a 0.
machine : Machine
machine = record {
  memory = copy (λ _. 0) 1024 (65 ∷ 0 ∷ 0 ∷ 0 ∷ 0 ∷ 0 ∷ 0 ∷ 0 ∷ 8 ∷ 0 ∷ 0 ∷ 0 ∷ 1 ∷ 0 ∷ 0 ∷ 0 ∷ []);
  size_video = 8;
  fuel = 9;
  opens = λ _. true;
  new_h264 = true;
  init = λ _. 0;
  new_ks_read = some 5;
  create = λ _. 0;
  set_state = 0;
  new_buffer = some 1024;
  new_payload = true;
  formats = some (7 ∷ []);
}

events : List Event
events =
    user_data machine type_init []
    ∷ user_data machine type_strt (0 ∷ 0 ∷ 0 ∷ 0 ∷ 0 ∷ 0 ∷ 0 ∷ 0 ∷ [])
    ∷ []

-- The first format is started.
running : (run events empty).pin ≡ some 5
unfolding events machine run copy get_format_info get_strings_end find_device find_format after_walk
    then_at wcs_end align_data_range
running = refl

events-AllCreate : AllCreate events
unfolding events machine
events-AllCreate = ((λ _. refl), ((λ _. refl), tt))

destroy-releases_all_example :
    let s = destroy (run events empty) in (s.readers ≡ 0) × (s.buffers ≡ 0)
destroy-releases_all_example = destroy-releases_all events events-AllCreate

failing : Machine
failing = record machine { create = λ _. 0xC0000001 }
