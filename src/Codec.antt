-- ===== src/Codec.antt =====
-- donglora/codec.py: cobs_encode, the COBS form of a text of bytes with its end.
use client_py.Prelude.{[], ◌∷◌, ◌++◌}
use client_py.Python.Struct.{Bytes}
use client_py.Frame.{Cobs}

module _ (cobs : Cobs) where
  unfoldable pub cobs_encode : Bytes → Bytes
  cobs_encode bytes = cobs.encode bytes ++ 0 ∷ []
