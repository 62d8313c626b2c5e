-- ===== src/AudioModule/Lookup.antt =====
-- audio/include/core-impl/utils.h and the searches of audio/Module.cpp.
use android_device_brcm_rpi.Common.{
  ℕ, ◌+◌, Bool, true, false, not, ◌&&◌, ◌||◌, ◌==◌, ltb, Option, none, some, List, [], ◌∷◌,
  if◌then◌else◌,
}
use android_device_brcm_rpi.AudioModule.Types.{
  Ext, unspecified, session, device, mix, Port, PortConfig, Patch, Status, ok, illegal_argument,
  illegal_state, aborted, undefined, refused, Answer, done, populated, failed,
}

abbrev pub elem : ℕ → List ℕ → Bool
elem i [] = false
elem i (j ∷ js) = j == i || elem i js

abbrev pub all_unique : List ℕ → Bool
all_unique [] = true
all_unique (i ∷ is) = not (elem i is) && all_unique is

abbrev pub is_empty : List ℕ → Bool
is_empty [] = true
is_empty (i ∷ is) = false

-- The instances of `findById` on a vector.
abbrev pub find_port : ℕ → List Port → Option Port
find_port i [] = none
find_port i (p ∷ ps) = if p.id == i then some p else find_port i ps

abbrev pub find_config : ℕ → List PortConfig → Option PortConfig
find_config i [] = none
find_config i (c ∷ cs) = if c.id == i then some c else find_config i cs

abbrev pub find_patch : ℕ → List Patch → Option Patch
find_patch i [] = none
find_patch i (p ∷ ps) = if p.id == i then some p else find_patch i ps

-- `*it = value` at what `findById` found.
abbrev pub replace_patch : ℕ → Patch → List Patch → List Patch
replace_patch i new [] = []
replace_patch i new (p ∷ ps) = if p.id == i then new ∷ ps else p ∷ replace_patch i new ps

abbrev pub erase_patch : ℕ → List Patch → List Patch
erase_patch i [] = []
erase_patch i (p ∷ ps) = if p.id == i then ps else p ∷ erase_patch i ps

abbrev pub replace_config : ℕ → PortConfig → List PortConfig → List PortConfig
replace_config i new [] = []
replace_config i new (c ∷ cs) = if c.id == i then new ∷ cs else c ∷ replace_config i new cs

abbrev pub erase_config : ℕ → List PortConfig → List PortConfig
erase_config i [] = []
erase_config i (c ∷ cs) = if c.id == i then cs else c ∷ erase_config i cs

-- The elements that `selectByIds` returns; the ids of port configs are unique.
abbrev pub select_configs : List PortConfig → List ℕ → List PortConfig
select_configs [] is = []
select_configs (c ∷ cs) is =
    let rest = select_configs cs is in if elem c.id is then c ∷ rest else rest

-- Whether `selectByIds` finds them all.
abbrev pub all_found : List PortConfig → List ℕ → Bool
all_found cs [] = true
all_found cs (i ∷ is) = elim (find_config i cs) [ none ↦ false | some c ↦ all_found cs is ]

-- The number of values of a multimap at a key.
abbrev pub count : ℕ → List (ℕ × ℕ) → ℕ
count k [] = 0
count k ((j, v) ∷ m) = if j == k then count k m + 1 else count k m

-- `erase_all_values` for one value.
abbrev pub erase_value : ℕ → List (ℕ × ℕ) → List (ℕ × ℕ)
erase_value v [] = []
erase_value v ((k, u) ∷ m) = if u == v then erase_value v m else (k, u) ∷ erase_value v m

abbrev pub find_ids : ℕ → List (ℕ × List ℕ) → Option (List ℕ)
find_ids k [] = none
find_ids k ((j, ids) ∷ m) = if j == k then some ids else find_ids k m

-- `Streams::count`: it counts open streams, and forgets the closed ones.
abbrev pub open_streams : List (ℕ × Bool) → List (ℕ × Bool)
open_streams [] = []
open_streams ((i, closed) ∷ ss) = if closed then open_streams ss else (i, closed) ∷ open_streams ss

abbrev pub stream_count : ℕ → List (ℕ × Bool) → ℕ
stream_count i [] = 0
stream_count i ((j, closed) ∷ ss) =
    if not closed && j == i then stream_count i ss + 1 else stream_count i ss

abbrev pub has_stream : ℕ → List (ℕ × Bool) → Bool
has_stream i ss = ltb 0 (stream_count i ss)

abbrev pub is_mix : Ext → Bool
is_mix unspecified = false
is_mix session = false
is_mix (device d) = false
is_mix (mix x) = true

abbrev pub is_device : Ext → Bool
is_device unspecified = false
is_device session = false
is_device (device d) = true
is_device (mix x) = false

abbrev pub status_of : Answer → Status
status_of (done n) = ok
status_of (populated ps) = ok
status_of (failed n) = refused n

abbrev pub value_of : Answer → ℕ
value_of (done n) = n
value_of (populated ps) = 0
value_of (failed n) = 0

abbrev pub is_ok : Status → Bool
is_ok ok = true
is_ok illegal_argument = false
is_ok illegal_state = false
is_ok aborted = false
is_ok undefined = false
is_ok (refused n) = false
