-- ===== src/Examples/Defaults.antt =====
-- Runs of _top_level.py on a world that keeps the ledger itself, and the bound on the wire.
use client_py.Prelude.{ℕ, ◌≤◌, ◌≡◌, refl, [], ◌∷◌, ◌++◌, List, none, false, length, arith}
use client_py.Prelude.Int.{pos}
use client_py.Python.Result.{ok}
use client_py.Python.Struct.{pack_unsigned, in_unsigned}
use client_py.Errors.{donglora_error}
use client_py.Frame.{Cobs, encode_frame, max_wire_frame}
use client_py.Frame.Bounds.{IsCompact, encode_frame-max_wire_frame}
use client_py.Crc.{crc16, crc_from, crc_byte, crc_bits, crc_bit}
use client_py.Dongle.{finished, raised}
use client_py.Default.{Dongles, Use, uses_tx, uses_recv, uses_close, use_all, leave}
use client_py.Default.Ledger.{Act, opened, closed, IsLedger, OneByOne, use_all-OneByOne}

-- The dongles are numbered by the length of the ledger; a closing raises, and so does each recv.
abbrev numbered : Dongles ℕ (Unit {0}) (List (Act ℕ))
numbered = record {
  connect = λ w. (finished (length w), w ++ opened (length w) ∷ []);
  tx = λ d bytes skip_cad w. (raised donglora_error, w);
  rx = λ d w. (finished tt, w);
  recv = λ d w. (raised donglora_error, w);
  close = λ d w. (raised donglora_error, w ++ closed d ∷ []);
}

numbered-IsLedger : IsLedger numbered (λ w. w)
numbered-IsLedger = record {
  connects = λ w. refl;
  transmits = λ d bytes skip_cad w. refl;
  receives_all = λ d w. refl;
  receives = λ d w. refl;
  closes = λ d w. refl;
}

abbrev two_uses : List Use
two_uses = uses_tx (1 ∷ []) false ∷ uses_close ∷ uses_recv ∷ []

use_all-OneByOne_example :
    let m = use_all numbered two_uses (record { default = none; registered = 0; world = [] }) in
    OneByOne m.world m.default × OneByOne (leave numbered m).world none
use_all-OneByOne_example = use_all-OneByOne numbered (λ w. w) numbered-IsLedger two_uses [] refl

-- A byte in front, as COBS adds at least.
abbrev fronted : Cobs
fronted = record { encode = λ bs. 1 ∷ bs; decode = λ bs. none }

fronted-IsCompact : IsCompact fronted
unfolding IsCompact
fronted-IsCompact = λ bs. omega arith

fronted_wire : encode_frame fronted (pos 1) (pos 1) [] ≡ ok (1 ∷ 1 ∷ 1 ∷ 0 ∷ 0x9d ∷ 0xc8 ∷ 0 ∷ [])
unfolding encode_frame pack_unsigned in_unsigned crc16 crc_from crc_byte crc_bits crc_bit
fronted_wire = refl

encode_frame-max_wire_frame_example :
    length {A = ℕ} (1 ∷ 1 ∷ 1 ∷ 0 ∷ 0x9d ∷ 0xc8 ∷ 0 ∷ []) ≤ max_wire_frame
encode_frame-max_wire_frame_example =
    encode_frame-max_wire_frame fronted (pos 1) (pos 1) [] (1 ∷ 1 ∷ 1 ∷ 0 ∷ 0x9d ∷ 0xc8 ∷ 0 ∷ [])
      fronted-IsCompact fronted_wire
