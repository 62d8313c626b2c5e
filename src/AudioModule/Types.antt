-- ===== src/AudioModule/Types.antt =====
-- audio/include/core-impl/Module.h: the state of a module, over the AIDL types that it uses.
use android_device_brcm_rpi.Common.{ℕ, Bool, Option, List, []}

-- A format and a channel mask stand as a number, 0 for the default one; a connection and an address
-- as a number, 0 for the empty one.
pub record Profile : Type 0 where
  pub format : ℕ
  pub channel_masks : List ℕ
  pub sample_rates : List ℕ

pub record Device : Type 0 where
  pub device_type : ℕ
  pub connection : ℕ
  pub address : ℕ

pub record Mix : Type 0 where
  pub handle : ℕ
  pub usecase : ℕ
  pub max_open_stream_count : ℕ

pub data Ext : Type 0 where
  unspecified session : Ext
  device : Device → Ext
  mix : Mix → Ext

pub data Flags : Type 0 where
  input output : ℕ → Flags

pub record Port : Type 0 where
  pub id : ℕ
  pub flags : Flags
  pub profiles : List Profile
  pub ext : Ext

pub record PortConfig : Type 0 where
  pub id : ℕ
  pub port_id : ℕ
  pub sample_rate : Option ℕ
  pub channel_mask : Option ℕ
  pub format : Option ℕ
  pub flags : Option Flags
  pub ext : Ext

pub record Route : Type 0 where
  pub source_port_ids : List ℕ
  pub sink_port_id : ℕ
  pub is_exclusive : Bool

pub record Patch : Type 0 where
  pub id : ℕ
  pub source_port_config_ids : List ℕ
  pub sink_port_config_ids : List ℕ
  pub minimum_stream_buffer_size_frames : ℕ
  pub latencies_ms : List ℕ

abbrev pub empty_patch : Patch
empty_patch = record {
  id = 0;
  source_port_config_ids = [];
  sink_port_config_ids = [];
  minimum_stream_buffer_size_frames = 0;
  latencies_ms = [];
}

-- The fields of the module and of its configuration that the operations read. `registered` is
-- `mPatches`, a multimap from the ids of ports and port configs to those of patches; `streams` has
-- for each key of `mStreams` whether the stream has been closed.
pub record State : Type 0 where
  pub ports : List Port
  pub port_configs : List PortConfig
  pub initial_configs : List PortConfig
  pub routes : List Route
  pub patches : List Patch
  pub next_port_id : ℕ
  pub next_patch_id : ℕ
  pub connected_device_ports : List (ℕ × List ℕ)
  pub registered : List (ℕ × ℕ)
  pub streams : List (ℕ × Bool)
  pub connected_profiles : List (ℕ × List Profile)
  pub simulate_device_connections : Bool

-- `aborted` is where LOG(FATAL) ends the process; `undefined` where the code has undefined behaviour,
-- with the state at that moment; `refused` is a status that a call returned.
pub data Status : Type 0 where
  ok illegal_argument illegal_state aborted undefined : Status
  refused : ℕ → Status

pub data Creation : Type 0 where
  mmap_buffer context stream : Creation

-- The calls of a stream, by the id of its port config, and of the methods that a module of some kind
-- overrides.
pub data Call : Type 0 where
  connect_stream : ℕ → List Device → Call
  check_endpoints : List ℕ → List ℕ → Call
  nominal_latency : ℕ → Call
  buffer_size : Option ℕ → ℕ → ℕ → Call
  populate_port : Port → ℕ → Call
  connection_changed : Port → Bool → Call
  create : Creation → ℕ → ℕ → Call

-- `done` is success, with the number that is returned; `populated` the profiles of a port.
pub data Answer : Type 0 where
  done : ℕ → Answer
  populated : List Profile → Answer
  failed : ℕ → Answer
