-- ===== src/A2b/Loading.antt =====
-- audio/a2b/A2bController.cpp: load.
use android_device_brcm_rpi.Common.{
  ℕ, Bool, true, false, not, ◌&&◌, ◌||◌, ◌==◌, ltb, leb, eq_bytes, Option, none, some, List, [],
  ◌∷◌, length, if◌then◌else◌, Host, call,
}
use android_device_brcm_rpi.A2b.Profile.{
  Profile, Call, lstat_override, open_profile, read_profile, Answer, done, failed, absent, text,
  opened, parsed,
}
use android_device_brcm_rpi.A2b.Controller.{
  Fault, invalid_id, cannot_inspect, bad_file, bad_text, id_mismatch,
}

-- The conditions on the file of a profile.
abbrev pub is_trusted : Answer → Bool
is_trusted (opened s) = s.is_regular && (s.uid == 0 && (not s.others_write && leb s.size 262144))
is_trusted (done n) = false
is_trusted failed = false
is_trusted absent = false
is_trusted (text t) = false
is_trusted (parsed p) = false

-- What `load` writes to `*profile`, and its error if it returns false.
abbrev pub Loaded : Type 0
Loaded = Option Profile × Option Fault

-- `profile->id() != id` on what was parsed: parseProfile has written it already.
abbrev pub check_id : List ℕ → Answer → Loaded
check_id id (parsed p) = (some p, if eq_bytes p.id id then none else some id_mismatch)
check_id id (done n) = (none, some bad_text)
check_id id failed = (none, some bad_text)
check_id id absent = (none, some bad_text)
check_id id (text t) = (none, some bad_text)
check_id id (opened s) = (none, some bad_text)

-- `lstat` of the override: whether there is one, or it cannot be told.
abbrev pub override : Answer → Option Bool
override absent = some false
override failed = none
override (done n) = some true
override (text t) = some true
override (opened s) = some true
override (parsed p) = some true

-- `validId`: 1 to 64 bytes of a-z, 0-9, _ and -.
abbrev pub is_id_byte : ℕ → Bool
is_id_byte b = (leb 97 b && leb b 122) || ((leb 48 b && leb b 57) || (b == 95 || b == 45))

abbrev pub all_id_bytes : List ℕ → Bool
all_id_bytes [] = true
all_id_bytes (b ∷ bs) = is_id_byte b && all_id_bytes bs

abbrev pub valid_id : List ℕ → Bool
valid_id id = ltb 0 (length id) && (leb (length id) 64 && all_id_bytes id)

-- The profile's file, of the override or of the vendor.
unfoldable pub read_file : Host Call Answer → List ℕ → Bool → List Call → Loaded × List Call
read_file h id overridden w =
    let (file, w) = call h (open_profile overridden id) w in
    if not (is_trusted file)
    then ((none, some bad_file), w)
    else (let (a, w) = call h read_profile w in (check_id id a, w))

abbrev load_from : Host Call Answer → List ℕ → Option Bool → List Call → Loaded × List Call
load_from h id none w = ((none, some cannot_inspect), w)
load_from h id (some overridden) w = read_file h id overridden w

unfoldable pub load : Host Call Answer → List ℕ → List Call → Loaded × List Call
unfolding read_file
load h id w =
    if not (valid_id id)
    then ((none, some invalid_id), w)
    else (let (a, w) = call h (lstat_override id) w in load_from h id (override a) w)
