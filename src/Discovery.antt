-- ===== src/Discovery.antt =====
-- donglora/discovery.py: the serial port of a dongle, by its USB vendor and product.
pub mod Choice
pub mod Waiting
use client_py.Prelude.{
  ℕ, zero, suc, Bool, true, false, ◌&&◌, ◌||◌, not, Option, none, some, List, [], ◌∷◌, ◌++◌, ◌==◌,
  ltb, if◌then◌else◌,
}
use client_py.Python.Text.{Text, codes, same, is_empty, lower, split_first, lines_from}
use client_py.Host.{Host}

abbrev pub usb_vid_pid : Text
usb_vid_pid = codes "1209:5741"

abbrev pub bridge_vid_pids : List Text
bridge_vid_pids =
    codes "10c4:ea60"
    ∷ codes "1a86:55d4"
    ∷ codes "1a86:7522"
    ∷ codes "1a86:7523"
    ∷ codes "0403:6001"
    ∷ []

unfoldable pub is_among : Text → List Text → Bool
unfolding same
is_among t [] = false
is_among t (u ∷ us) = let rest = is_among t us in same u t || rest

-- `dict(line.split("=", 1) ...).get(key, "")`: the last line of the key counts.
abbrev pair_value : Text → Text → Option (Text × Text) → Text
pair_value key found none = found
pair_value key found (some (k, v)) = if same k key then v else found

unfoldable pub value_of : Text → Text → List Text → Text
unfolding same split_first
value_of key found [] = found
value_of key found (line ∷ lines) = value_of key (pair_value key found (split_first 61 line)) lines

unfoldable pub vid_pid : Text → Text
unfolding value_of lines_from lower
vid_pid stdout =
    let lines = lines_from [] stdout in
    lower (value_of (codes "ID_VENDOR_ID") [] lines)
    ++ codes ":"
    ++ lower (value_of (codes "ID_MODEL_ID") [] lines)

unfoldable pub is_usb : Text → Bool
unfolding vid_pid same
is_usb stdout = same (vid_pid stdout) usb_vid_pid

unfoldable pub is_bridge : Text → Bool
unfolding vid_pid is_among
is_bridge stdout = is_among (vid_pid stdout) bridge_vid_pids

-- s <= t, by code points
unfoldable pub text_leb : Text → Text → Bool
text_leb [] t = true
text_leb (c ∷ s) [] = false
text_leb (c ∷ s) (d ∷ t) = let rest = text_leb s t in ltb c d || (c == d && rest)

unfoldable pub insert_sorted : Text → List Text → List Text
unfolding text_leb
insert_sorted t [] = t ∷ []
insert_sorted t (u ∷ us) =
    let rest = insert_sorted t us in if text_leb t u then t ∷ u ∷ us else u ∷ rest

-- sorted
unfoldable pub sorted : List Text → List Text
unfolding insert_sorted
sorted [] = []
sorted (t ∷ ts) = insert_sorted t (sorted ts)

-- The loop has returned a path, or it has come to its end with `bridge_match`.
pub data Scan : Type 0 where
  native : Text → Scan
  bridge_match : Option Text → Scan

abbrev pub is_none {ℓ} : {A : Type ℓ} → Option A → Bool
is_none none = true
is_none (some a) = false

-- `ports[0] if ports else None`
abbrev pub first_of : List Text → Option Text
first_of [] = none
first_of (path ∷ paths) = some path

module _ {W : Type 0} (host : Host W) where
  -- The body of the loop for a path; `again` is the rest of the loop.
  abbrev pub judge : Text → Option Text → Option Text × W → (Option Text → W → Scan × W) → Scan × W
  judge path bridge (none, w) again = again bridge w
  judge path bridge (some stdout, w) again =
      if is_usb stdout
      then (native path, w)
      else again (if is_none bridge && is_bridge stdout then some path else bridge) w

  unfoldable pub scan : List Text → Option Text → W → Scan × W
  scan [] bridge w = (bridge_match bridge, w)
  scan (path ∷ paths) bridge w = judge path bridge (host.udevadm path w) (scan paths)

  -- sorted(glob.glob("/dev/ttyACM*")) + sorted(glob.glob("/dev/ttyUSB*"))
  unfoldable pub ports : W → List Text × W
  unfolding sorted
  ports w =
      let (acm, w1) = host.glob (codes "/dev/ttyACM*") w in
      let (usb, w2) = host.glob (codes "/dev/ttyUSB*") w1 in (sorted acm ++ sorted usb, w2)

  abbrev pub after_scan : Scan × W → Option Text × W
  after_scan (native path, w) = (some path, w)
  after_scan (bridge_match (some path), w) = (some path, w)
  after_scan (bridge_match none, w) = let (paths, w1) = ports w in (first_of paths, w1)

  unfoldable pub find_port : W → Option Text × W
  unfolding scan ports
  find_port w = let (paths, w1) = ports w in after_scan (scan paths none w1)

  -- `if port:`
  abbrev pub after_find : Option Text × W → (W → Option Text × W) → Option Text × W
  after_find (none, w) again = again (host.sleep 500 w)
  after_find (some [], w) again = again (host.sleep 500 w)
  after_find (some (c ∷ port), w) again = (some (c ∷ port), host.sleep 300 w)

  -- `fuel` bounds the polls; `none` means that it did not suffice.
  unfoldable pub wait_for_device : ℕ → W → Option Text × W
  wait_for_device zero w = (none, w)
  wait_for_device (suc fuel) w = after_find (find_port w) (wait_for_device fuel)
