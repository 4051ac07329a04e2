-- ===== src/Tls/Reassembly.antt =====
-- Handshake messages that records cut anywhere, or carry several of: `recv_handshake_message` gives
-- them one by one.
use crypto_kiddie.Prelude.{
  ℕ, zero, suc, ◌+◌, ◌^◌, ◌≤◌, ◌<◌, ◌≡◌, refl, sym, ap, ◌∙◌, arith, List, [], ◌∷◌, ◌++◌, flatten,
  map, length, take, drop, get_or, be_value, be_value-be_bytes_three, take-append, drop-append,
  take-append_left, drop-append_left, get_or-append_left, length-append, length-drop, append_assoc,
  append-nil, le→ltb, ltb→le, ltb, All, Result, ok, Option, none, some, inl, inr, Bool-cases,
  Option-cases, some_injective,
}
use crypto_kiddie.Tls.Types.{handshake, ProtocolVersion, HandshakeType, handshake_type_code}
use crypto_kiddie.Tls.Wire.{TlsError, encode_record}
use crypto_kiddie.Tls.Transport.{split_message, recv_loop}
use crypto_kiddie.Tls.Framing.{read_record-encode_record}
use crypto_kiddie.Handshake.{frame_handshake}

-- A framed message at the head of the buffer is split off.
split_message-frame_handshake :
    (t : HandshakeType) (body tail : List ℕ)
    → length body < 2 ^ 24
    → split_message (frame_handshake t body ++ tail) ≡ some ((handshake_type_code t, body), tail)
unfolding split_message frame_handshake
split_message-frame_handshake t body tail h =
    let whole = frame_handshake t body ++ tail in
    let size : length whole ≡ 4 + length (body ++ tail) = omega arith in
    let fits = length-append body tail in
    let four : 4 + length body ≡ suc (suc (suc (suc (length body)))) = omega arith in
    rw
      (
        le→ltb (length whole) 4 (omega arith),
        be_value-be_bytes_three (length body) h,
        le→ltb (length whole) (4 + length body) (omega arith),
      )
      (rw (four, take-append body tail (length body) refl, drop-append body tail (length body) refl)
        refl)

abbrev extend : List ℕ → Option ((ℕ × List ℕ) × List ℕ) → Option ((ℕ × List ℕ) × List ℕ)
extend more none = none
extend more (some found) = some (found.0, found.1 ++ more)

-- The length in the header is the same where the buffer goes on.
header-append :
    (buf more : List ℕ) → 4 ≤ length buf → take 3 (drop 1 (buf ++ more)) ≡ take 3 (drop 1 buf)
header-append buf more h =
    ap (take 3) (drop-append_left buf more 1 (omega arith))
    ∙ take-append_left (drop 1 buf) more 3 (omega (arith, length-drop 1 buf))

-- A whole message at the head of the buffer.
split_message-whole :
    (buf : List ℕ) (total : ℕ)
    → total ≡ 4 + be_value (take 3 (drop 1 buf))
    → total ≤ length buf
    → split_message buf ≡ some ((get_or buf 0 0, drop 4 (take total buf)), drop total buf)
unfolding split_message
split_message-whole buf total e h =
    rw (sym e, le→ltb (length buf) 4 (omega arith), le→ltb (length buf) total h) refl

split_message-append_whole :
    (buf more : List ℕ) (total : ℕ)
    → total ≡ 4 + be_value (take 3 (drop 1 buf))
    → total ≤ length buf
    → split_message (buf ++ more) ≡ extend more (split_message buf)
split_message-append_whole buf more total e h =
    let header = header-append buf more (omega arith) in
    split_message-whole (buf ++ more) total (e ∙ ap (λ (t : List ℕ). 4 + be_value t) (sym header))
      (omega (arith, length-append buf more))
    ∙ rw
        (
          get_or-append_left buf more 0 0 (omega arith),
          take-append_left buf more total h,
          drop-append_left buf more total h,
        )
        refl
    ∙ ap (extend more) (sym (split_message-whole buf total e h))

-- More bytes behind the buffer do not change its first message.
split_message-append :
    (buf more : List ℕ) (found : (ℕ × List ℕ) × List ℕ)
    → split_message buf ≡ some found
    → split_message (buf ++ more) ≡ some (found.0, found.1 ++ more)
unfolding split_message
split_message-append buf more found e =
    let total = 4 + be_value (take 3 (drop 1 buf)) in
    elim (Bool-cases (ltb (length buf) 4)) [
      | inl short ↦ let is_none : split_message buf ≡ none = rw short refl in cc
      | inr header ↦ elim (Bool-cases (ltb (length buf) total)) [
        | inl short ↦ let is_none : split_message buf ≡ none = rw (header, short) refl in cc
        | inr whole ↦
            split_message-append_whole buf more total refl (ltb→le _ _ whole) ∙ ap (extend more) e
      ]
    ]

module _ (v : ProtocolVersion) where
  -- The records that carry the payloads.
  abbrev pub records : List (List ℕ) → List ℕ
  records payloads = flatten (map (encode_record handshake v) payloads)

  abbrev pub AreShort : List (List ℕ) → Type 0
  AreShort payloads = All (λ p. length p < 2 ^ 16) payloads

  -- A message was received, and what is buffered and still to come goes on with `tail`.
  pub record Received (payloads : List (List ℕ)) (rest tail : List ℕ) (m : ℕ × List ℕ)
      (got : Result TlsError ((ℕ × List ℕ) × (List ℕ × List ℕ))) : Type 0 where
    pub buf : List ℕ
    pub later : List (List ℕ)
    pub outcome : got ≡ ok (m, (buf, records later ++ rest))
    pub joined : buf ++ flatten later ≡ tail
    pub short : AreShort later
    pub used : List (List ℕ)
    pub split : used ++ later ≡ payloads

  recv_loop_found :
      (rounds : ℕ) (buf incoming : List ℕ) (found : (ℕ × List ℕ) × List ℕ)
      → split_message buf ≡ some found
      → recv_loop (suc rounds) buf incoming ≡ ok (found.0, (found.1, incoming))
  unfolding recv_loop
  recv_loop_found rounds buf incoming found e = rw (recv_loop, e) refl

  recv_loop_more :
      (rounds : ℕ) (buf payload rest : List ℕ)
      → split_message buf ≡ none
      → length payload < 2 ^ 16
      → recv_loop (suc rounds) buf (encode_record handshake v payload ++ rest)
        ≡ recv_loop rounds (buf ++ payload) rest
  unfolding recv_loop
  recv_loop_more rounds buf payload rest e h =
      rw (recv_loop, e, read_record-encode_record handshake v payload rest h) refl

  module _ (t : HandshakeType) (body tail rest : List ℕ) (fits : length body < 2 ^ 24) where
    recv_loop-Received_found :
        (payloads : List (List ℕ)) (rounds : ℕ) (buf : List ℕ) (found : (ℕ × List ℕ) × List ℕ)
        → AreShort payloads
        → buf ++ flatten payloads ≡ frame_handshake t body ++ tail
        → split_message buf ≡ some found
        → Received payloads rest tail
            (handshake_type_code t, body)
            (recv_loop (suc rounds) buf (records payloads ++ rest))
    recv_loop-Received_found payloads rounds buf found short e is =
        let same : (found.0 ≡ (handshake_type_code t, body))
            × (found.1 ++ flatten payloads ≡ tail) =
          let whole = some_injective (
            sym (split_message-append buf (flatten payloads) found is)
            ∙ ap split_message e
            ∙ split_message-frame_handshake t body tail fits) in
          (
            ap (λ (x : (ℕ × List ℕ) × List ℕ). x.0) whole,
            ap (λ (x : (ℕ × List ℕ) × List ℕ). x.1) whole,
          ) in
        record {
          buf = found.1;
          later = payloads;
          outcome =
              recv_loop_found rounds buf (records payloads ++ rest) found is
              ∙ ap
                  (λ (m : ℕ × List ℕ).
                    let r : Result TlsError ((ℕ × List ℕ) × (List ℕ × List ℕ)) =
                      ok (m, (found.1, records payloads ++ rest)) in
                    r)
                  same.0;
          joined = same.1;
          short = short;
          used = [];
          split = refl;
        }

    -- The loop gives the first framed message, whatever part of it is buffered.
    pub recv_loop-Received :
        (payloads : List (List ℕ)) (rounds : ℕ) (buf : List ℕ)
        → length payloads < rounds
        → AreShort payloads
        → buf ++ flatten payloads ≡ frame_handshake t body ++ tail
        → Received payloads rest tail
            (handshake_type_code t, body)
            (recv_loop rounds buf (records payloads ++ rest))
    unfolding flatten
    recv_loop-Received payloads zero buf enough short e = absurd (omega arith)
    recv_loop-Received [] (suc rounds) buf enough short e =
        elim (Option-cases (split_message buf)) [
          | inl waiting ↦
              let found =
                ap split_message (sym (append-nil buf) ∙ e)
                ∙ split_message-frame_handshake t body tail fits in
              absurd cc
          | inr (found, is) ↦ recv_loop-Received_found [] rounds buf found short e is
        ]
    recv_loop-Received (p ∷ payloads) (suc rounds) buf enough short e =
        let behind = records payloads ++ rest in
        elim (Option-cases (split_message buf)) [
          | inl waiting ↦
              let step : recv_loop (suc rounds) buf (records (p ∷ payloads) ++ rest)
                  ≡ recv_loop rounds (buf ++ p) behind =
                ap (recv_loop (suc rounds) buf)
                  (append_assoc (encode_record handshake v p) (records payloads) rest)
                ∙ recv_loop_more rounds buf p behind waiting short.0 in
              let r =
                recv_loop-Received payloads rounds (buf ++ p) (omega arith) short.1
                  (append_assoc buf p (flatten payloads) ∙ e) in
              record {
                buf = r.buf;
                later = r.later;
                outcome = step ∙ r.outcome;
                joined = r.joined;
                short = r.short;
                used = p ∷ r.used;
                split = ap (λ (x : List (List ℕ)). p ∷ x) r.split;
              }
          | inr (found, is) ↦ recv_loop-Received_found (p ∷ payloads) rounds buf found short e is
        ]
