-- ===== src/Submix/Tests.antt =====
-- A route at concrete inputs.
use android_device_brcm_rpi.Common.{◌≡◌, refl, true, [], Host, arith}
use android_device_brcm_rpi.Submix.Route.{
  Config, Call, Answer, done, initial_route, create_pipe, status_ok,
}
use android_device_brcm_rpi.Submix.Blocking.{opens, closes, close_stream-open_stream}

abbrev stereo : Config
stereo = record {
  sample_rate = 48000;
  format = 1;
  channel_layout = 3;
  frame_size = 4;
  frame_count = 0;
}

abbrev pipe : Host Call Answer
pipe w c = done 0

-- A pipe is made when all its calls succeed.
create_pipe_new : (create_pipe pipe stereo (initial_route stereo) []).0 ≡ status_ok
unfolding create_pipe
create_pipe_new = refl

close_stream-open_stream_example :
    (closes pipe 2
      (opens pipe 3 (initial_route stereo) []).0
      (opens pipe 3 (initial_route stereo) []).1).0.stream_in_open
    ≡ true
close_stream-open_stream_example =
    close_stream-open_stream pipe 2 2 (initial_route stereo) [] refl (omega arith)
