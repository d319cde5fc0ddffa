-- ===== src/Server/Delivery.antt =====
-- sendMessage: to whom, and what the client reads back.
use foxglove_bridge_release.Base.{
  ℕ, ◌<◌, ◌^◌, ◌≡◌, inl, inr, some, List, [], ◌∷◌, ◌++◌, arith, Option-cases,
}
use foxglove_bridge_release.Base.Eq.{id_eq}
use foxglove_bridge_release.Base.Lists.{drop}
use foxglove_bridge_release.Base.Exec.{ok}
use foxglove_bridge_release.Wire.Serialization.{
  read_u32_le, read_u64_le, write_uint32_le, write_uint64_le,
}
use foxglove_bridge_release.Server.{Server, Network, Connection, binary}
use foxglove_bridge_release.Server.Send.{send_binary}
use foxglove_bridge_release.Server.Channels.{send_message, message_frame, subscription_of}

-- What a client reads in a binary frame of the server: opcode, subscription id, timestamp, data.
abbrev pub read_frame : List ℕ → ℕ × ℕ × ℕ × List ℕ
read_frame [] = (0, 0, 0, [])
read_frame (op ∷ rest) = (op, read_u32_le rest, read_u64_le (drop 4 rest), drop 12 rest)

-- A client that reads a message frame gets back the opcode of message data, the subscription id
-- (below 2 ^ 32), the timestamp (below 2 ^ 64) and the data, which begin at offset 13.
pub read-message_frame :
    (sub timestamp : ℕ) (bytes : List ℕ)
    → sub < 2 ^ 32
    → timestamp < 2 ^ 64
    → read_frame (message_frame sub timestamp bytes) ≡ (1, sub, timestamp, bytes)
unfolding message_frame write_uint32_le write_uint64_le read_u32_le read_u64_le
read-message_frame sub timestamp bytes h k = ground arith

module _ {B : Type 0} (net : Network) (hdl chan timestamp : ℕ) (bytes : List ℕ) (s : Server B) where
  -- To a client that is connected, below its buffer limit and subscribed to the channel,
  -- sendMessage sends one frame, under the client's subscription id, and changes nothing else.
  pub send_message_delivers :
      (con : Connection) (sub : ℕ)
      → net hdl ≡ some con
      → con.buffered_amount < s.send_buffer_limit_bytes
      → subscription_of hdl chan s ≡ some sub
      → send_message net hdl chan timestamp bytes s ≡ (
        ok tt,
        record s { sent = s.sent ++ (hdl, binary (message_frame sub timestamp bytes)) ∷ [] },
      )
  unfolding send_message send_binary
  send_message_delivers con sub e room h = ground arith

  -- Where the client is not connected, not below its buffer limit or not subscribed to the
  -- channel, sendMessage throws nothing, sends nothing and changes nothing.
  pub send_message_drops :
      ((con : Connection) (sub : ℕ)
        → net hdl ≡ some con
        → con.buffered_amount < s.send_buffer_limit_bytes
        → subscription_of hdl chan s ≡ some sub
        → ⊥)
      → send_message net hdl chan timestamp bytes s ≡ (ok tt, s)
  unfolding send_message send_binary
  send_message_drops never = elim (Option-cases (net hdl)) [
    | inl e ↦ ground arith
    | inr (con, e) ↦ elim (Option-cases (subscription_of hdl chan s)) [
      | inl h ↦ ground arith
      | inr (sub, h) ↦ ground (arith, never con sub e)
    ]
  ]
