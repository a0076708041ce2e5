-- ===== src/Host.antt =====
-- What donglora/connect.py and donglora/discovery.py use of the operating system and of pyserial: an
-- interface over a world `W`. Nothing of it is under src/.
use client_py.Prelude.{ℕ, Bool, Option, List}
use client_py.Python.Result.{Result}
use client_py.Python.Text.{Text}

pub record Host (W : Type 0) : Type 0 where
  -- os.environ.get
  pub get_env : Text → W → Option Text
  -- os.path.exists
  pub path_exists : Text → W → Bool × W
  -- time.sleep, in milliseconds
  pub sleep : ℕ → W → W
  -- socket.socket(AF_UNIX), connect(path)
  pub connect_unix : Text → W → Result (Unit {0}) × W
  -- The address lookup of connect((host, port)).
  pub resolve : Text → W → Result (Unit {0}) × W
  -- The connection to the address that was found, at a port that fits 16 bits.
  pub connect_tcp : Text → ℕ → W → Result (Unit {0}) × W
  -- serial.Serial(port, 115200), reset_input_buffer()
  pub open_serial : Text → W → Result (Unit {0}) × W
  -- glob.glob
  pub glob : Text → W → List Text × W
  -- The output of `udevadm info --query=property --name=path`; `none` is any exception.
  pub udevadm : Text → W → Option Text × W
