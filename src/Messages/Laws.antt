-- ===== src/Messages/Laws.antt =====
-- smbprotocol/open.py and session.py: the messages with a buffer whose length stands before it.
use smbprotocol.Prelude.{ℕ, ◌≡◌, refl, List, [], ◌∷◌, ◌++◌, ok, length}
use smbprotocol.Bytes.{Bytes}
use smbprotocol.Structure.{Value, num, bytes, calculated_value, parse_value}
use smbprotocol.Structure.FieldLaws.{an_int, an_enum, a_flag, a_string}
use smbprotocol.Structure.Walk.{Structure, view_of, view, get_field, pack, unpack}
use smbprotocol.Structure.RoundTrip.{fill, unpack-pack_filled}
use smbprotocol.Messages.ReadWrite.{smb2_write_request}
use smbprotocol.Messages.SignIn.{smb2_session_setup_request}

-- A write: its data, and the channel information that follows it.
pub record WriteRequest : Type 0 where
  pub offset : ℕ
  pub file_id : Bytes
  pub channel : ℕ
  pub remaining_bytes : ℕ
  pub write_channel_info_offset : ℕ
  pub flags : ℕ
  pub buffer : Bytes
  pub buffer_channel_info : Bytes

abbrev pub write_values : WriteRequest → List Value
write_values w =
    num 49
    ∷ num 0x70
    ∷ num (length w.buffer)
    ∷ num w.offset
    ∷ bytes w.file_id
    ∷ num w.channel
    ∷ num w.remaining_bytes
    ∷ num w.write_channel_info_offset
    ∷ num (length w.buffer_channel_info)
    ∷ num w.flags
    ∷ bytes w.buffer
    ∷ bytes w.buffer_channel_info
    ∷ []

unfoldable pub write_request : WriteRequest → Structure
unfolding smb2_write_request
write_request w = fill smb2_write_request (write_values w)

-- A packed write request unpacks to the request, with both buffers found by their lengths, and leaves
-- what follows it in the packet.
pub write_request-round_trip :
    (w : WriteRequest) (rest : Bytes) {b : Bytes}
    → pack (write_request w) ≡ ok b
    → unpack smb2_write_request (b ++ rest) ≡ ok (write_request w, rest)
unfolding write_request view_of view get_field calculated_value parse_value
write_request-round_trip w rest {b} p =
    unpack-pack_filled smb2_write_request (write_values w) rest
      (
        an_int,
        tt,
        (
          an_int,
          tt,
          (
            an_int,
            tt,
            (
              an_int,
              tt,
              (
                a_string,
                tt,
                (
                  a_flag,
                  tt,
                  (
                    an_int,
                    tt,
                    (
                      an_int,
                      tt,
                      (an_int, tt, (a_flag, tt, (a_string, refl, (a_string, refl, tt)))),
                    ),
                  ),
                ),
              ),
            ),
          ),
        ),
      )
      p

-- A session setup request: the token of the security provider stands in the buffer.
pub record SessionSetup : Type 0 where
  pub flags : ℕ
  pub security_mode : ℕ
  pub capabilities : ℕ
  pub channel : ℕ
  pub previous_session_id : ℕ
  pub buffer : Bytes

abbrev pub session_setup_values : SessionSetup → List Value
session_setup_values s =
    num 25
    ∷ num s.flags
    ∷ num s.security_mode
    ∷ num s.capabilities
    ∷ num s.channel
    ∷ num 88
    ∷ num (length s.buffer)
    ∷ num s.previous_session_id
    ∷ bytes s.buffer
    ∷ []

unfoldable pub session_setup : SessionSetup → Structure
unfolding smb2_session_setup_request
session_setup s = fill smb2_session_setup_request (session_setup_values s)

-- A packed session setup request unpacks to the request, with the token found by its length, and leaves
-- what follows it in the packet.
pub session_setup-round_trip :
    (s : SessionSetup) (rest : Bytes) {b : Bytes}
    → pack (session_setup s) ≡ ok b
    → unpack smb2_session_setup_request (b ++ rest) ≡ ok (session_setup s, rest)
unfolding session_setup view_of view get_field calculated_value parse_value
session_setup-round_trip s rest {b} p =
    unpack-pack_filled smb2_session_setup_request (session_setup_values s) rest
      (
        an_int,
        tt,
        (
          an_int,
          tt,
          (
            an_enum,
            tt,
            (
              a_flag,
              tt,
              (an_int, tt, (an_int, tt, (an_int, tt, (an_int, tt, (a_string, refl, tt))))),
            ),
          ),
        ),
      )
      p
