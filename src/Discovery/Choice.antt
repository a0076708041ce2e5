-- ===== src/Discovery/Choice.antt =====
-- Which port find_port chooses.
use client_py.Prelude.{
  ◌≡◌, refl, ap, ◌∙◌, Bool, false, Option, none, some, List, [], ◌∷◌, ◌++◌, if◌then◌else◌,
  Bool-cases, inl, inr,
}
use client_py.Python.Text.{Text, codes}
use client_py.Host.{Host}
use client_py.Discovery.{
  is_usb, is_bridge, sorted, Scan, native, bridge_match, judge, scan, ports, first_of, after_scan,
  find_port,
}

-- The system answers the same while the scan is made: the paths under the two patterns, and the output
-- of udevadm for each path.
pub record IsSteady {W : Type 0} (host : Host W) (w : W) (acm usb : List Text)
    (outputs : Text → Option Text) : Type 0 where
  pub acm_paths : host.glob (codes "/dev/ttyACM*") w ≡ (acm, w)
  pub usb_paths : host.glob (codes "/dev/ttyUSB*") w ≡ (usb, w)
  pub outputs_are : (path : Text) → host.udevadm path w ≡ (outputs path, w)

abbrev pub satisfies : (Text → Bool) → Option Text → Bool
satisfies test none = false
satisfies test (some output) = test output

-- The first path whose output satisfies the test.
abbrev pub first_where : (Text → Bool) → (Text → Option Text) → List Text → Option Text
first_where test outputs [] = none
first_where test outputs (path ∷ paths) =
    let rest = first_where test outputs paths in
    if satisfies test (outputs path) then some path else rest

abbrev pub or_else {ℓ} : {A : Type ℓ} → Option A → Option A → Option A
or_else none other = other
or_else (some a) other = some a

abbrev pub chosen : (Text → Option Text) → List Text → Option Text
chosen outputs paths =
    or_else (first_where is_usb outputs paths)
      (or_else (first_where is_bridge outputs paths) (first_of paths))

abbrev scan_of : Option Text → Option Text → Scan
scan_of none bridge = bridge_match bridge
scan_of (some path) bridge = native path

module _ {W : Type 0} (host : Host W) (w : W) (outputs : Text → Option Text)
    (steady : (path : Text) → host.udevadm path w ≡ (outputs path, w)) where
  judge_lem :
      (path : Text) (paths : List Text) (bridge output : Option Text)
      (again : Option Text → W → Scan × W)
      → outputs path ≡ output
      → ((b : Option Text)
          → again b w ≡ (
            scan_of
                (first_where is_usb outputs paths)
                (or_else b (first_where is_bridge outputs paths)),
            w,
          ))
      → judge host path bridge (output, w) again ≡ (
        scan_of
            (first_where is_usb outputs (path ∷ paths))
            (or_else bridge (first_where is_bridge outputs (path ∷ paths))),
        w,
      )
  judge_lem path paths bridge none again e ih = simp e (ih bridge)
  judge_lem path paths none (some output) again e ih = elim (Bool-cases (is_usb output)) [
    | inl u ↦ simp (e, u)
    | inr n ↦ elim (Bool-cases (is_bridge output)) [
      | inl b ↦ simp (e, n, b) (ih (some path))
      | inr o ↦ simp (e, n, o) (ih none)
    ]
  ]
  judge_lem path paths (some b) (some output) again e ih = elim (Bool-cases (is_usb output)) [
    | inl u ↦ simp (e, u)
    | inr n ↦ simp (e, n) (ih (some b))
  ]

  scan_lem :
      (paths : List Text) (bridge : Option Text)
      → scan host paths bridge w ≡ (
        scan_of
            (first_where is_usb outputs paths)
            (or_else bridge (first_where is_bridge outputs paths)),
        w,
      )
  unfolding scan
  scan_lem [] none = refl
  scan_lem [] (some b) = refl
  scan_lem (path ∷ paths) bridge =
      ap (λ r. judge host path bridge r (scan host paths)) (steady path)
      ∙ judge_lem path paths bridge (outputs path) (scan host paths) refl (scan_lem paths)

module _ {W : Type 0} (host : Host W) (w : W) (acm usb : List Text)
    (outputs : Text → Option Text) where
  ports_lem : IsSteady host w acm usb outputs → ports host w ≡ (sorted acm ++ sorted usb, w)
  unfolding ports
  ports_lem s =
      ap
        (λ (r : List Text × W). (
          sorted r.0 ++ sorted (host.glob (codes "/dev/ttyUSB*") r.1).0,
          (host.glob (codes "/dev/ttyUSB*") r.1).1,
        ))
        s.acm_paths
      ∙ ap (λ (r : List Text × W). (sorted acm ++ sorted r.0, r.1)) s.usb_paths

  after_scan_lem :
      (paths : List Text) (usb_match bridge : Option Text)
      → ports host w ≡ (paths, w)
      → after_scan host (scan_of usb_match bridge, w)
        ≡ (or_else usb_match (or_else bridge (first_of paths)), w)
  after_scan_lem paths (some p) bridge h = refl
  after_scan_lem paths none (some p) h = refl
  after_scan_lem paths none none h = ap (λ (r : List Text × W). (first_of r.0, r.1)) h

  -- While the system answers the same, find_port leaves the world as it is and chooses, among the paths
  -- /dev/ttyACM* in order and then the paths /dev/ttyUSB* in order, the first one that udevadm reports as
  -- 1209:5741, else the first one that it reports as a known bridge, else the first one; an error of
  -- udevadm for a path hides no other path.
  pub find_port-chosen :
      IsSteady host w acm usb outputs
      → find_port host w ≡ (chosen outputs (sorted acm ++ sorted usb), w)
  unfolding find_port
  find_port-chosen s =
      let paths = sorted acm ++ sorted usb in
      ap (λ (r : List Text × W). after_scan host (scan host r.0 none r.1)) (ports_lem s)
      ∙ ap (after_scan host) (scan_lem host w outputs s.outputs_are paths none)
      ∙ after_scan_lem paths (first_where is_usb outputs paths)
          (first_where is_bridge outputs paths) (ports_lem s)
