-- ===== src/Tests/Packets.antt =====
-- Packets of internal/modules/broker/protocol.
use microbroker_mqtt_edge.Prelude.{
  ℕ, ◌≡◌, ◌↔◌, refl, false, List, [], ◌∷◌, ◌++◌, ok, arith, All, IsByte,
}
use microbroker_mqtt_edge.Prelude.Codes.{codes}
use microbroker_mqtt_edge.Protocol.Packet.{
  ConnectPacket, PublishPacket, SubscribePacket, has_will, has_username, has_password,
}
use microbroker_mqtt_edge.Protocol.Codec.{
  decode_length_loop, read_full, uint16_bytes, decode_remaining_length, encode_remaining_length,
  write_utf8_string,
}
use microbroker_mqtt_edge.Protocol.Codec.Lengths.{decode-encode_remaining_length}
use microbroker_mqtt_edge.Protocol.Reader.{read_packet, read_body}
use microbroker_mqtt_edge.Protocol.Reader.Framing.{IsRead, read_packet-IsRead, header_of}
use microbroker_mqtt_edge.Protocol.Decoder.{decode_connect, decode_publish, decode_subscribe}
use microbroker_mqtt_edge.Protocol.Decoder.Connect.{
  IsConnect, connect_body, connect_payload, optional, decode-connect_body,
}
use microbroker_mqtt_edge.Protocol.Decoder.Connect.Reads.{decode_connect-ok}
use microbroker_mqtt_edge.Protocol.Decoder.Publish.{
  IsPublish, publish_flags, publish_body, decode_publish_exact,
}
use microbroker_mqtt_edge.Protocol.Decoder.Subscribe.{
  IsSubscribe, subscribe_body, decode_subscribe_exact,
}
use microbroker_mqtt_edge.Tests.{bytes_lem}

decode-encode_remaining_length_example :
    decode_remaining_length (encode_remaining_length 321 ++ 7 ∷ []) ≡ ok (321, 7 ∷ [])
decode-encode_remaining_length_example = decode-encode_remaining_length 321 (7 ∷ []) (omega arith)

-- A PINGREQ with a byte behind it.
pingreq_read : read_packet (0xc0 ∷ 0x00 ∷ 0x30 ∷ []) ≡ ok (header_of 12 0 [], [], 0x30 ∷ [])
unfolding read_packet read_body decode_remaining_length decode_length_loop read_full header_of
pingreq_read = refl

read_packet-IsRead_example : IsRead (0xc0 ∷ 0x00 ∷ 0x30 ∷ []) (header_of 12 0 []) [] (0x30 ∷ [])
read_packet-IsRead_example =
    read_packet-IsRead (0xc0 ∷ 0x00 ∷ 0x30 ∷ []) (header_of 12 0 []) [] (0x30 ∷ [])
      (bytes_lem (0xc0 ∷ 0x00 ∷ 0x30 ∷ []) refl) pingreq_read

abbrev hello : ConnectPacket
hello = record {
  protocol_name = codes "MQTT";
  protocol_level = 4;
  connect_flags = 0xc2;
  keep_alive = 60;
  client_id = codes "cnc";
  will_topic = [];
  will_message = [];
  username = codes "u";
  password = codes "p";
}

hello-IsConnect : IsConnect hello
unfolding has_username has_password
hello-IsConnect = record {
  name_mqtt = refl;
  level_four = refl;
  reserved_clear = refl;
  keep_alive_fits = omega arith;
  client_id_fits = omega arith;
  will_topic_field = record { fits = omega arith; absent = λ _. refl };
  will_message_field = record { fits = omega arith; absent = λ _. refl };
  username_field = record { fits = omega arith; absent = λ h. absurd (ground arith) };
  password_field = record { fits = omega arith; absent = λ h. absurd (ground arith) };
}

decode-connect_body_example : decode_connect (connect_body hello (1 ∷ [])) ≡ ok hello
decode-connect_body_example = decode-connect_body hello (1 ∷ []) hello-IsConnect

hello_bytes : All IsByte (connect_body hello [])
unfolding connect_body connect_payload optional write_utf8_string uint16_bytes has_will has_username
    has_password
hello_bytes =
    bytes_lem
      (0 ∷ 4 ∷ 0x4d ∷ 0x51 ∷ 0x54 ∷ 0x54 ∷ 4 ∷ 0xc2 ∷ 0 ∷ 60 ∷ 0 ∷ 3 ∷ 0x63 ∷ 0x6e ∷ 0x63 ∷ 0 ∷ 1
        ∷ 0x75 ∷ 0 ∷ 1 ∷ 0x70 ∷ [])
      refl

decode_connect-ok_example :
    (rest : List ℕ) × (connect_body hello [] ≡ connect_body hello rest) × IsConnect hello
decode_connect-ok_example =
    decode_connect-ok (connect_body hello []) hello hello_bytes
      (decode-connect_body hello [] hello-IsConnect)

abbrev reading : PublishPacket
reading = record {
  dup = false;
  qos = 1;
  retain = false;
  topic_name = codes "m/1";
  packet_id = 10;
  payload = 0x31 ∷ [];
}

abbrev reading_body : List ℕ
reading_body = 0 ∷ 3 ∷ 0x6d ∷ 0x2f ∷ 0x31 ∷ 0 ∷ 10 ∷ 0x31 ∷ []

decode_publish_exact_example :
    (decode_publish (header_of 3 2 reading_body) reading_body ≡ ok reading) ↔ (
      IsPublish reading
      × ((header_of 3 2 reading_body).flags ≡ publish_flags reading)
      × (reading_body ≡ publish_body reading))
decode_publish_exact_example =
    decode_publish_exact (header_of 3 2 reading_body) reading_body reading
      (unfold header_of in omega arith) (bytes_lem reading_body refl)

abbrev two_filters : SubscribePacket
two_filters = record {
  packet_id = 5;
  subscriptions =
      record { topic_filter = codes "a"; qos = 1 }
      ∷ record { topic_filter = codes "b"; qos = 0 }
      ∷ [];
}

abbrev two_filters_body : List ℕ
two_filters_body = 0 ∷ 5 ∷ 0 ∷ 1 ∷ 0x61 ∷ 1 ∷ 0 ∷ 1 ∷ 0x62 ∷ 0 ∷ []

decode_subscribe_exact_example :
    (decode_subscribe two_filters_body ≡ ok two_filters)
    ↔ (IsSubscribe two_filters × (two_filters_body ≡ subscribe_body two_filters))
decode_subscribe_exact_example =
    decode_subscribe_exact two_filters_body two_filters (bytes_lem two_filters_body refl)
