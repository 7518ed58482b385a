-- ===== src/Protocol/Packet.antt =====
-- internal/modules/broker/protocol/packet.go and errors.go. A byte is a number below 256.
use microbroker_mqtt_edge.Prelude.Codes.{codes}
use microbroker_mqtt_edge.Prelude.{
  ◌≡◌, ◌↔◌, ◌⊎◌, ◌<◌, arith, if◌then◌else◌, ℕ, ◌/◌, ◌^◌, Bool, not, List, Text, ◌==◌, bit_and,
}

-- `io_eof` and `io_unexpected_eof` are io.EOF and io.ErrUnexpectedEOF, which are passed on as they
-- are; the others are the package's sentinels.
pub data ProtocolError : Type 0 where
  io_eof io_unexpected_eof malformed_remaining_length invalid_protocol : ProtocolError
  invalid_packet_type invalid_qos empty_payload truncated_data : ProtocolError
  invalid_reserved_bit empty_topic_name : ProtocolError

-- The four-bit codes of PacketType.
abbrev pub reserved_1 : ℕ
reserved_1 = 0

abbrev pub connect : ℕ
connect = 1

abbrev pub connack : ℕ
connack = 2

abbrev pub publish : ℕ
publish = 3

abbrev pub puback : ℕ
puback = 4

abbrev pub pubrec : ℕ
pubrec = 5

abbrev pub pubrel : ℕ
pubrel = 6

abbrev pub pubcomp : ℕ
pubcomp = 7

abbrev pub subscribe : ℕ
subscribe = 8

abbrev pub suback : ℕ
suback = 9

abbrev pub unsubscribe : ℕ
unsubscribe = 10

abbrev pub unsuback : ℕ
unsuback = 11

abbrev pub pingreq : ℕ
pingreq = 12

abbrev pub pingresp : ℕ
pingresp = 13

abbrev pub disconnect : ℕ
disconnect = 14

abbrev pub reserved_15 : ℕ
reserved_15 = 15

-- PacketType.String, case by case.
unfoldable pub packet_type_string : ℕ → Text
packet_type_string p =
    if p == connect
    then codes "CONNECT"
    else (if p == connack
        then codes "CONNACK"
        else (if p == publish
            then codes "PUBLISH"
            else (if p == puback
                then codes "PUBACK"
                else (if p == pubrec
                    then codes "PUBREC"
                    else (if p == pubrel
                        then codes "PUBREL"
                        else (if p == pubcomp
                            then codes "PUBCOMP"
                            else (if p == subscribe
                                then codes "SUBSCRIBE"
                                else (if p == suback
                                    then codes "SUBACK"
                                    else (if p == unsubscribe
                                        then codes "UNSUBSCRIBE"
                                        else (if p == unsuback
                                            then codes "UNSUBACK"
                                            else (if p == pingreq
                                                then codes "PINGREQ"
                                                else (if p == pingresp
                                                    then codes "PINGRESP"
                                                    else (if p == disconnect
                                                        then codes "DISCONNECT"
                                                        else codes "RESERVED")))))))))))))

-- The codes of ConnackReturnCode.
abbrev pub conn_accepted : ℕ
conn_accepted = 0x00

abbrev pub conn_refused_unavailable : ℕ
conn_refused_unavailable = 0x03

abbrev pub conn_refused_bad_auth : ℕ
conn_refused_bad_auth = 0x04

pub record FixedHeader : Type 0 where
  pub packet_type : ℕ
  pub flags : ℕ
  pub remaining_length : ℕ

pub record ConnectPacket : Type 0 where
  pub protocol_name : Text
  pub protocol_level : ℕ
  pub connect_flags : ℕ
  pub keep_alive : ℕ
  pub client_id : Text
  pub will_topic : Text
  pub will_message : List ℕ
  pub username : Text
  pub password : List ℕ

-- The accessors of ConnectPacket read its flags byte.
unfoldable pub has_username : ℕ → Bool
has_username connect_flags = not (bit_and connect_flags 0x80 == 0)

unfoldable pub has_password : ℕ → Bool
has_password connect_flags = not (bit_and connect_flags 0x40 == 0)

unfoldable pub will_retain : ℕ → Bool
will_retain connect_flags = not (bit_and connect_flags 0x20 == 0)

unfoldable pub will_qos : ℕ → ℕ
will_qos connect_flags = bit_and (connect_flags / 2 ^ 3) 0x03

unfoldable pub has_will : ℕ → Bool
has_will connect_flags = not (bit_and connect_flags 0x04 == 0)

unfoldable pub is_clean_session : ℕ → Bool
is_clean_session connect_flags = not (bit_and connect_flags 0x02 == 0)

pub record PublishPacket : Type 0 where
  pub dup : Bool
  pub qos : ℕ
  pub retain : Bool
  pub topic_name : Text
  pub packet_id : ℕ
  pub payload : List ℕ

pub record Subscription : Type 0 where
  pub topic_filter : Text
  pub qos : ℕ

pub record SubscribePacket : Type 0 where
  pub packet_id : ℕ
  pub subscriptions : List Subscription

-- Just the types of the packets that exist have a name.
pub packet_type_string-reserved :
    (p : ℕ) → (packet_type_string p ≡ codes "RESERVED") ↔ ((p ≡ reserved_1) ⊎ (disconnect < p))
unfolding packet_type_string
packet_type_string-reserved p = (λ h. ground arith, λ h. ground arith)
