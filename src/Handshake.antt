-- ===== src/Handshake.antt =====
-- The handshake of a control connection (crates/pyre-proto/src/handshake.rs): a tag and the protocol
-- version. A stream is the list of the bytes that are still to be read.
use pyre.Prelude.{ℕ, ◌+◌, ◌*◌, ◌/◌, ◌%◌, ◌<◌, ◌^◌, ◌≡◌, List, [], ◌∷◌, ◌++◌, ◌==◌}
use pyre.Prelude.{if◌then◌else◌, ap, arith}

abbrev pub mode_control : ℕ
mode_control = 1

abbrev pub proto_version : ℕ
proto_version = 7

-- `to_le_bytes` of a `u32`.
abbrev pub to_le_bytes : ℕ → List ℕ
to_le_bytes v = v % 256 ∷ v / 256 % 256 ∷ v / 65536 % 256 ∷ v / 16777216 % 256 ∷ []

abbrev pub from_le_bytes : ℕ → ℕ → ℕ → ℕ → ℕ
from_le_bytes a b c d = a + b * 256 + c * 65536 + d * 16777216

-- What the server makes of the stream: it goes on with the rest, or answers an error.
pub data Outcome : Type 0 where
  accepted : (rest : List ℕ) → Outcome
  unexpected_eof : Outcome
  wrong_tag : (tag : ℕ) → Outcome
  version_mismatch : (client : ℕ) → Outcome

unfoldable pub write_control_client : List ℕ
write_control_client = mode_control ∷ to_le_bytes proto_version

unfoldable pub read_control_version_after_tag : List ℕ → Outcome
read_control_version_after_tag (a ∷ (b ∷ (c ∷ (d ∷ rest)))) =
    let client_ver = from_le_bytes a b c d in
    if client_ver == proto_version then accepted rest else version_mismatch client_ver
read_control_version_after_tag _ = unexpected_eof

unfoldable pub read_control_server : List ℕ → Outcome
read_control_server [] = unexpected_eof
read_control_server (tag ∷ rest) =
    if tag == mode_control then read_control_version_after_tag rest else wrong_tag tag

le_bytes_roundtrip :
    (v : ℕ)
    → v < 2 ^ 32
    → from_le_bytes (v % 256) (v / 256 % 256) (v / 65536 % 256) (v / 16777216 % 256) ≡ v
le_bytes_roundtrip v h = omega (arith, h)

-- What a client of any version writes is read as its version: the server goes on behind the header
-- where the versions agree and answers the client's version where they do not.
pub read_control_server-of_version :
    (version : ℕ) (rest : List ℕ)
    → version < 2 ^ 32
    → read_control_server (mode_control ∷ (to_le_bytes version ++ rest))
      ≡ (if version == proto_version then accepted rest else version_mismatch version)
unfolding read_control_server read_control_version_after_tag
read_control_server-of_version version rest h =
    ap (λ v. if v == proto_version then accepted rest else version_mismatch v)
      (le_bytes_roundtrip version h)
