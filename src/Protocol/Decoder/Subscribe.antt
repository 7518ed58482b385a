-- ===== src/Protocol/Decoder/Subscribe.antt =====
-- DecodeSubscribe of decoder.go against the layout of a SUBSCRIBE packet.
use mathlib.Core.List.{append-nil, append_assoc}
use native.Mathlib.Nat.{le_refl}
use microbroker_mqtt_edge.Prelude.{
  ℕ, zero, suc, ◌+◌, ◌*◌, ◌^◌, ◌≤◌, ◌<◌, ◌≡◌, ◌≢◌, ◌↔◌, refl, sym, ap, subst, ◌∙◌, List, [], ◌∷◌,
  ◌++◌, bit_and, ok, inl, inr, Result-cases, length, length-append, All, All-back, IsByte, arith,
}
use microbroker_mqtt_edge.Prelude.Bits.{low_two}
use microbroker_mqtt_edge.Protocol.Packet.{Subscription, SubscribePacket}
use microbroker_mqtt_edge.Protocol.Codec.{
  read_full, uint16_of, uint16_bytes, read_utf8_string, write_utf8_string,
}
use microbroker_mqtt_edge.Protocol.Codec.Strings.{
  read_full-append, read-write_utf8_string, read_utf8_string-ok, uint16_of-bytes, uint16_bytes-of,
}
use microbroker_mqtt_edge.Protocol.Decoder.{
  byte_of, read_subscription, subscriptions_loop, nonempty, decode_subscribe,
}

unfoldable pub subscription_bytes : Subscription → List ℕ
subscription_bytes s = write_utf8_string s.topic_filter ++ (s.qos ∷ [])

unfoldable pub subscriptions_bytes : List Subscription → List ℕ
subscriptions_bytes [] = []
subscriptions_bytes (s ∷ subs) = subscription_bytes s ++ subscriptions_bytes subs

-- The bytes of a SUBSCRIBE packet behind its fixed header.
unfoldable pub subscribe_body : SubscribePacket → List ℕ
subscribe_body p = uint16_bytes p.packet_id ++ subscriptions_bytes p.subscriptions

pub record IsSubscription (s : Subscription) : Type 0 where
  pub filter_fits : length s.topic_filter < 2 ^ 16
  pub qos_valid : s.qos ≤ 2

pub record IsSubscribe (p : SubscribePacket) : Type 0 where
  pub id_fits : p.packet_id < 2 ^ 16
  pub some_filter : p.subscriptions ≢ []
  pub each : All IsSubscription p.subscriptions

low_two_valid : (q : ℕ) → q ≤ 2 → bit_and q 0x03 ≡ q
low_two_valid q h = omega (arith, low_two q (omega arith))

read-subscription_bytes :
    (s : Subscription) (r : List ℕ)
    → IsSubscription s
    → read_subscription (subscription_bytes s ++ r) ≡ ok (s, r)
unfolding read_subscription subscription_bytes
read-subscription_bytes s r v = ground (
  arith,
  append_assoc (write_utf8_string s.topic_filter) (s.qos ∷ []) r,
  read-write_utf8_string s.topic_filter (s.qos ∷ r),
  read_full-append 1 (s.qos ∷ []) r refl,
  low_two_valid s.qos,
)

-- The qos byte behind a filter.
read_one-ok :
    (r buf rest : List ℕ)
    → read_full 1 r ≡ ok (buf, rest)
    → (r ≡ byte_of buf ∷ rest) × (buf ≡ byte_of buf ∷ [])
unfolding byte_of read_full
read_one-ok [] buf rest e = absurd (ground arith)
read_one-ok (b ∷ r) buf rest e = (ground arith, ground arith)

read_subscription-ok :
    (r : List ℕ) (s : Subscription) (rest : List ℕ)
    → All IsByte r
    → read_subscription r ≡ ok (s, rest)
    → (r ≡ subscription_bytes s ++ rest) × IsSubscription s
unfolding read_subscription subscription_bytes
read_subscription-ok r s rest bytes e = elim (Result-cases (read_utf8_string r)) [
  | inl ((f, r₁), e₁) ↦ elim (Result-cases (read_full 1 r₁)) [
    | inl ((buf, r₂), e₂) ↦
        let (split, fits) = read_utf8_string-ok r f r₁ bytes e₁ in
        let (one, same) = read_one-ok r₁ buf r₂ e₂ in
        (
          ground (
            arith,
            low_two_valid (byte_of buf),
            append_assoc (write_utf8_string f) (byte_of buf ∷ []) r₂,
          ),
          record {
            filter_fits = ground arith;
            qos_valid = ground (arith, low_two_valid (byte_of buf));
          },
        )
    | inr (x, e₂) ↦ absurd (ground arith)
  ]
  | inr (x, e₁) ↦ absurd (ground arith)
]

length-subscription :
    (s : Subscription) (r : List ℕ) → length r + 3 ≤ length (subscription_bytes s ++ r)
unfolding subscription_bytes write_utf8_string uint16_bytes
length-subscription s r = omega (
  arith,
  length-append (s.topic_filter ++ (s.qos ∷ [])) r,
  length-append s.topic_filter (s.qos ∷ []),
)

loop_step :
    (fuel : ℕ) (r : List ℕ) (acc : List Subscription) (s : Subscription) (rest : List ℕ)
    → read_subscription r ≡ ok (s, rest)
    → subscriptions_loop (suc fuel) r acc ≡ subscriptions_loop fuel rest (acc ++ s ∷ [])
unfolding subscriptions_loop
loop_step fuel [] acc s rest e = unfold read_subscription read_utf8_string read_full in cc
loop_step fuel (b ∷ r) acc s rest e = rw e

subscriptions_loop-bytes :
    (subs : List Subscription) (fuel : ℕ) (acc : List Subscription)
    → All IsSubscription subs
    → length (subscriptions_bytes subs) ≤ fuel
    → subscriptions_loop fuel (subscriptions_bytes subs) acc ≡ ok (acc ++ subs)
unfolding subscriptions_bytes
subscriptions_loop-bytes [] fuel acc v h = rw append-nil (unfold subscriptions_loop in refl)
subscriptions_loop-bytes (s ∷ subs) zero acc v h =
    absurd (omega (arith, length-subscription s (subscriptions_bytes subs)))
subscriptions_loop-bytes (s ∷ subs) (suc fuel) acc v h =
    loop_step fuel _ acc s _ (read-subscription_bytes s (subscriptions_bytes subs) v.0)
    ∙ subscriptions_loop-bytes subs fuel (acc ++ s ∷ []) v.1
        (omega (arith, length-subscription s (subscriptions_bytes subs)))
    ∙ ap ok (append_assoc acc (s ∷ []) subs)

subscriptions_loop-ok :
    (fuel : ℕ) (r : List ℕ) (acc out : List Subscription)
    → length r ≤ fuel
    → All IsByte r
    → subscriptions_loop fuel r acc ≡ ok out
    → (subs : List Subscription) × (out ≡ acc ++ subs)
      × (r ≡ subscriptions_bytes subs)
      × All IsSubscription subs
unfolding subscriptions_loop subscriptions_bytes
subscriptions_loop-ok fuel [] acc out h bytes e = ([], ground (arith, append-nil acc), refl, tt)
subscriptions_loop-ok zero (b ∷ r) acc out h bytes e = absurd (omega arith)
subscriptions_loop-ok (suc fuel) (b ∷ r) acc out h bytes e =
    elim (Result-cases (read_subscription (b ∷ r))) [
      | inl ((s, rest), e₁) ↦
          let (split, v) = read_subscription-ok (b ∷ r) s rest bytes e₁ in
          let (subs, same, more, vs) =
            subscriptions_loop-ok fuel rest (acc ++ s ∷ []) out
              (omega (arith, ap length split, length-subscription s rest))
              (All-back IsByte (subscription_bytes s) rest (subst (All IsByte) split bytes))
              (ground arith) in
          (
            s ∷ subs,
            same ∙ append_assoc acc (s ∷ []) subs,
            split ∙ ap (λ (t : List ℕ). subscription_bytes s ++ t) more,
            (v, vs),
          )
      | inr (x, e₁) ↦ absurd (ground arith)
    ]

module _ (p : SubscribePacket) where
  length-subscribe_body : IsSubscribe p → 5 ≤ length (subscribe_body p)
  unfolding subscribe_body subscriptions_bytes uint16_bytes
  length-subscribe_body v = go p.subscriptions v.some_filter
    where
      go :
          (subs : List Subscription)
          → subs ≢ []
          → 5 ≤ length (uint16_bytes p.packet_id ++ subscriptions_bytes subs)
      go [] some = absurd (some refl)
      go (s ∷ subs) some = omega (arith, length-subscription s (subscriptions_bytes subs))

  nonempty-some : p.subscriptions ≢ [] → nonempty p ≡ ok p
  nonempty-some some = ground arith

  read_id :
      read_full 2 (subscribe_body p)
      ≡ ok (uint16_bytes p.packet_id, subscriptions_bytes p.subscriptions)
  unfolding subscribe_body uint16_bytes
  read_id = read_full-append 2 (uint16_bytes p.packet_id) (subscriptions_bytes p.subscriptions) refl

  pub decode-subscribe_body : IsSubscribe p → decode_subscribe (subscribe_body p) ≡ ok p
  unfolding decode_subscribe
  decode-subscribe_body v = ground (
    arith,
    length-subscribe_body v,
    read_id,
    uint16_of-bytes p.packet_id,
    subscriptions_loop-bytes p.subscriptions _ [] v.each (le_refl _),
    nonempty-some v.some_filter,
  )

  decode_subscribe-loop :
      (hi lo : ℕ) (r : List ℕ)
      → decode_subscribe (hi ∷ lo ∷ r) ≡ ok p
      → (subscriptions_loop (length r) r [] ≡ ok p.subscriptions)
        × (p.packet_id ≡ hi * 256 + lo)
        × (p.subscriptions ≢ [])
  unfolding decode_subscribe uint16_of
  decode_subscribe-loop hi lo r e =
      let buf : read_full 2 (hi ∷ lo ∷ r) ≡ ok (hi ∷ lo ∷ [], r) =
        read_full-append 2 (hi ∷ lo ∷ []) r refl in
      elim (Result-cases (subscriptions_loop (length r) r [])) [
        | inl (subs, e₁) ↦ (ground arith, ground arith, ground arith)
        | inr (x, e₁) ↦ absurd (ground arith)
      ]

  decode_subscribe-ok :
      (body : List ℕ)
      → All IsByte body
      → decode_subscribe body ≡ ok p
      → IsSubscribe p × (body ≡ subscribe_body p)
  unfolding subscribe_body
  decode_subscribe-ok [] bytes e = unfold decode_subscribe in absurd (ground arith)
  decode_subscribe-ok (hi ∷ []) bytes e = unfold decode_subscribe in absurd (ground arith)
  decode_subscribe-ok (hi ∷ (lo ∷ r)) bytes e =
      let (done, same_id, some) = decode_subscribe-loop hi lo r e in
      let (subs, same, split, each) =
        subscriptions_loop-ok (length r) r [] p.subscriptions (le_refl _) bytes.1.1 done in
      (
        record {
          id_fits = omega arith;
          some_filter = some;
          each = subst (All IsSubscription) (sym same) each;
        },
        ground (arith, uint16_bytes-of hi lo),
      )

-- Of a body of bytes, DecodeSubscribe returns the packet p exactly if p is well formed and the body
-- is the layout of p.
pub decode_subscribe_exact :
    (body : List ℕ) (p : SubscribePacket)
    → All IsByte body
    → (decode_subscribe body ≡ ok p) ↔ (IsSubscribe p × (body ≡ subscribe_body p))
decode_subscribe_exact body p bytes =
    (decode_subscribe-ok p body bytes, λ (v, split). rw split (decode-subscribe_body p v))
