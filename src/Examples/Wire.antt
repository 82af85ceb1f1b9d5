-- ===== src/Examples/Wire.antt =====
-- The codecs and the channels on a small object model: one type, whose objects are bytes.
use astral_go.Base.{
  ℕ, ◌≡◌, ◌≢◌, ◌≤◌, refl, inl, inr, true, none, some, List, [], ◌∷◌, ◌++◌, map, length, codes,
  str_eq, if◌then◌else◌, arith,
}
use astral_go.Wire.Out.{ok, invalid_magic}
use astral_go.Wire.Ledger.{max_codec_bytes}
use astral_go.Wire.Stream.{naked}
use astral_go.Wire.Writes.{sink}
use astral_go.Astral.Fixed.{big_endian, write_fixed, read_fixed}
use astral_go.Astral.Fixed.Laws.{Writes-write_fixed, Reads-read_fixed}
use astral_go.Astral.Sized.{w8}
use astral_go.Astral.Sized.Laws.{sized}
use astral_go.Astral.Header.{short_type_encoder, short_type_decoder}
use astral_go.Astral.Header.Laws.{stamp_bytes}
use astral_go.Channel.Objects.{ObjectModel, known, IsCodable}
use astral_go.Channel.Binary.Stream.{
  clean, stuck, collect, IsSendable, frames, collect-send_each, collect-ne-stuck, send_each,
  send_each-frames,
}
use astral_go.Channel.Canonical
use astral_go.Channel.Envelope.{encode, decode}
use astral_go.Channel.Envelope.Laws.{decode-encode}
use astral_go.Channel.Canonical.Laws.{receive_short, receive-send}

abbrev tail : List ℕ
tail = 9 ∷ []

abbrev pub name : List ℕ
name = codes "byte"

abbrev pub bytes_model : ObjectModel
bytes_model = record {
  Object = ℕ;
  object_type = λ o. name;
  write_to = λ o. write_fixed 1 o;
  new = λ t. if str_eq t name then some (read_fixed 1) else none;
}

unfoldable pub seven-IsCodable : IsCodable bytes_model 7 (big_endian 1 7)
seven-IsCodable = record {
  depth_needed = 0;
  frames_needed = 0;
  reader = read_fixed 1;
  registered = refl;
  writes = Writes-write_fixed 1 7;
  reads = Reads-read_fixed 1 7 (omega arith);
}

seven-IsSendable : IsSendable bytes_model 7
unfolding big_endian seven-IsCodable
seven-IsSendable = record {
  payload = 7 ∷ [];
  codable = seven-IsCodable;
  depth_fits = omega arith;
  frames_fit = omega arith;
  is_named = omega arith;
  frame_fits = (omega arith, omega arith);
}

abbrev sent : List ℕ
sent = 7 ∷ 7 ∷ []

collect-send_each_example :
    collect bytes_model true 3 []
      (naked (frames bytes_model sent (seven-IsSendable, (seven-IsSendable, tt))))
    ≡ ([] ++ map known sent, clean)
collect-send_each_example =
    collect-send_each bytes_model true sent (seven-IsSendable, (seven-IsSendable, tt)) 3 []
      (omega arith)

send_each-frames_example :
    (n : ℕ) × (send_each bytes_model sent (sink tail none)
      ≡ ok tt n
          (sink (tail ++ frames bytes_model sent (seven-IsSendable, (seven-IsSendable, tt))) none))
send_each-frames_example =
    send_each-frames bytes_model sent (seven-IsSendable, (seven-IsSendable, tt)) tail

collect-ne-stuck_example : (collect bytes_model true 4 [] (naked (1 ∷ 2 ∷ 3 ∷ []))).1 ≢ stuck
collect-ne-stuck_example =
    collect-ne-stuck bytes_model true 4 [] (naked (1 ∷ 2 ∷ 3 ∷ [])) (omega arith)

seven_frame : length (stamp_bytes ++ (sized w8 name ++ big_endian 1 7)) ≤ max_codec_bytes
unfolding big_endian
seven_frame = omega arith

canonical_receive-send_example :
    (n : ℕ) × (frame : List ℕ) × (Canonical.send bytes_model 7 (sink [] none)
      ≡ ok tt n (sink frame none))
    × (Canonical.receive bytes_model
          (record { transport = naked (frame ++ tail); stream_err = none })
        ≡ (record { transport = naked tail; stream_err = none }, inl 7))
unfolding seven-IsCodable
canonical_receive-send_example =
    receive-send bytes_model 7 (big_endian 1 7) tail seven-IsCodable (omega arith) (omega arith)
      (omega arith) seven_frame

receive_short_example :
    (r : Canonical.Receiver) × (Canonical.receive bytes_model
        (record { transport = naked []; stream_err = none })
      ≡ (r, inr invalid_magic))
    × (r.stream_err ≡ some invalid_magic)
receive_short_example = receive_short bytes_model [] (omega arith)

decode-encode_example :
    let bs = sized w8 name ++ (7 ∷ []) in
    (encode bytes_model short_type_encoder 7 (sink [] none)
      ≡ ok tt (length bs) (sink ([] ++ bs) none))
    × (decode bytes_model short_type_decoder (naked (bs ++ tail)) ≡ ok 7 (length bs) (naked tail))
unfolding seven-IsCodable big_endian
decode-encode_example =
    decode-encode bytes_model 7 (7 ∷ []) [] tail seven-IsCodable (omega arith) (omega arith)
      (omega arith) (omega arith) (omega arith)
