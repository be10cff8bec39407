-- ===== src/Tests/HandshakeRuns.antt =====
-- A client of the same version, and one of version 6.
use pyre.Prelude.{◌≡◌, refl, [], ◌∷◌, ◌++◌, arith}
use pyre.Handshake.{
  mode_control, to_le_bytes, version_mismatch, accepted, write_control_client, read_control_server,
  read_control_version_after_tag, read_control_server-of_version,
}

read_control_server-of_version_example :
    read_control_server (mode_control ∷ (to_le_bytes 6 ++ (9 ∷ []))) ≡ version_mismatch 6
read_control_server-of_version_example = read_control_server-of_version 6 (9 ∷ []) (omega arith)

handshake_roundtrip : read_control_server (write_control_client ++ (9 ∷ [])) ≡ accepted (9 ∷ [])
unfolding read_control_server read_control_version_after_tag write_control_client
handshake_roundtrip = refl
