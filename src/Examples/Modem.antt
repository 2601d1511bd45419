-- ===== src/Examples/Modem.antt =====
-- The controller of the modem at concrete bytes and ticks.
use tm4c123gxl_ota.Base.{
  ◌+◌, ◌<◌, ◌≤◌, ◌≡◌, ◌≢◌, ◌⊎◌, refl, List, [], ◌∷◌, some, true, false, length, eq_bytes,
}
use tm4c123gxl_ota.Config.{slot_header_size, slot_payload_size, max_retries}
use tm4c123gxl_ota.Types.Layout.{metadata_of_bytes}
use tm4c123gxl_ota.Crc32
use tm4c123gxl_ota.Text.{Text, codes, same_text, starts_with, has_part}
use tm4c123gxl_ota.Image.{crc_loop, vector_validate}
use tm4c123gxl_ota.Metadata.{commit, finalize, next_record, record_valid, record_crc}
use tm4c123gxl_ota.Update.{
  update_init, ready_to_boot, handle, handle_end, fail, ack, nack, payload_matches, vector_matches,
  read_payload_crc, pending_metadata,
}
use tm4c123gxl_ota.CloudOta.{zero_cloud, finish, flush_chunk, submit}
use tm4c123gxl_ota.Controller.Unattached.{no_start}
use tm4c123gxl_ota.Controller.{
  AtConfig, Controller, Machine, retry, online, ota_download, ota_range_header, line_size, literal,
}
use tm4c123gxl_ota.Controller.Range.{http_chunk_size}
use tm4c123gxl_ota.Controller.Lines.{process_line, ok_line, ok_chunk}
use tm4c123gxl_ota.Controller.Diagram.Bytes.{
  Event, received, ticked, IsWalk, run_events, states_of, states_of-IsWalk,
}
use tm4c123gxl_ota.Controller.Sound.Runs.{set_up, run_events_bounds}
use tm4c123gxl_ota.Controller.Exhausted.{is_exhausted, run_events-is_exhausted}
use tm4c123gxl_ota.Controller.Reboot.{reboot-ready_to_boot}
use tm4c123gxl_ota.Examples.{pending_b, version_2}
use tm4c123gxl_ota.Examples.Engine.{Flash, flash_services, downloaded, flash_b}

abbrev network : AtConfig
network = record {
  wifi_ssid = codes "ssid";
  wifi_password = codes "password";
  thingsboard_token = codes "token";
  mqtt_host = codes "host";
  mqtt_port = 1883;
  client_id = codes "model";
}

-- A controller that the bootloader has set up for version 2.3.0, behind the announcement.
abbrev asked : Controller
asked = set_up network true 0 true false (some version_2) pending_b false

abbrev machine : Machine Flash
machine = record {
  controller = asked;
  cloud = zero_cloud;
  update = update_init pending_b 0;
  store = flash_b;
  out = [];
}

-- The modem answers the first command, and then nothing.
abbrev events : List Event
events =
    ticked 10
    ∷ received b'O' 20
    ∷ received b'K' 20
    ∷ received b'\r' 20
    ∷ received b'\n' 20
    ∷ ticked 6000
    ∷ []

states_of-IsWalk_example :
    IsWalk machine.controller.state (states_of flash_services no_start machine events)
states_of-IsWalk_example = states_of-IsWalk flash_services no_start machine events

run_events_bounds_example :
    let c = (run_events flash_services no_start machine events).controller in
    (length c.line < line_size)
    × (c.retry_count ≤ max_retries)
    × (((c.state ≢ ota_range_header) × (c.state ≢ ota_download))
        ⊎ ((0 < c.ota_chunk_size)
            × (c.ota_chunk_size ≤ http_chunk_size)
            × (c.ota_offset + c.ota_chunk_size ≤ c.remote_size)
            × (c.remote_size ≤ slot_header_size + slot_payload_size)))
run_events_bounds_example =
    run_events_bounds flash_services no_start machine events network true 0 true false
      (some version_2) pending_b false refl

-- The third failure has brought the controller to RETRY.
abbrev exhausted : Machine Flash
exhausted = record machine {
  controller = record asked { state = retry; retry_count = max_retries; command_sent = false };
}

run_events-is_exhausted_example :
    is_exhausted (run_events flash_services no_start exhausted events).controller ≡ true
run_events-is_exhausted_example =
    run_events-is_exhausted flash_services no_start exhausted events refl

-- The last chunk of a package is complete, and the modem closes its command.
abbrev last_chunk : Machine Flash
last_chunk = record {
  controller = record asked {
    state = ota_download;
    command_sent = true;
    ota_chunk_complete = true;
    remote_size = 1032;
    ota_offset = 1024;
    ota_chunk_size = 8;
  };
  cloud = downloaded.0;
  update = downloaded.1;
  store = flash_b;
  out = [];
}

last_chunk_online :
    (process_line flash_services no_start last_chunk (codes "OK") 50).controller.state ≡ online
unfolding process_line ok_line ok_chunk literal same_text starts_with has_part finish flush_chunk
    submit handle handle_end fail ack nack payload_matches vector_matches read_payload_crc crc_loop
    vector_validate pending_metadata commit finalize next_record record_valid record_crc
    metadata_of_bytes eq_bytes Crc32.crc32 Crc32.init Crc32.update Crc32.byte_step Crc32.bit_loop
    Crc32.bit_step Crc32.finish
last_chunk_online = refl

reboot-ready_to_boot_example :
    let after = process_line flash_services no_start last_chunk (codes "OK") 50 in
    (after.update.state ≡ ready_to_boot)
    × (last_chunk.cloud.started ≡ true)
    × (last_chunk.cloud.package_received ≡ last_chunk.cloud.remote_size)
reboot-ready_to_boot_example =
    reboot-ready_to_boot flash_services no_start last_chunk (codes "OK") 50 refl last_chunk_online

-- A chunk in the middle of a package of 1060 bytes is being downloaded.
abbrev second_chunk : Machine Flash
second_chunk = record last_chunk {
  controller = record last_chunk.controller {
    remote_size = 1060;
    ota_offset = 288;
    ota_chunk_size = 256;
  };
}

abbrev quoted : Text
quoted = codes "{\"accepted\":true}"
