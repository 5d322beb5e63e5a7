-- ===== src/Protocol/Messages/Stream.antt =====
-- `message_stream` on a whole stream: the messages of a peer are read one after another, and the
-- fuel of the model suffices.
use chess_pyspec.Base.{
  ℕ, zero, suc, ◌+◌, ◌≤◌, ◌<◌, ◌≡◌, refl, ap, ◌∙◌, Option, List, [], ◌∷◌, ◌++◌, append_assoc, arith,
  inl, inr, Bytes, length, length-drop,
}
use chess_pyspec.Base.Int.{ℤ, pos, negsuc}
use chess_pyspec.Base.Result.{
  Error, ok, err, >>=-eq-ok, ok-injective, Result-cases, Ensures, returns, Ensures-bind, Ensures-eq,
}
use chess_pyspec.Bytes.Words.{Endian}
use chess_pyspec.Platform.{Floats, Numpy}
use chess_pyspec.Protocol.Messages.{
  Header, Clock, Packet, Message, Prefix, readexactly, read_prefix, unpack_prefix, serialize, wire,
  read_one_message, message_stream, messages, bytes_left,
}
use chess_pyspec.Bytes.Utf8.{decode}
use chess_pyspec.Protocol.Command
use chess_pyspec.Protocol.Fields.{Field}
use chess_pyspec.Protocol.Layout.{fields, determine_header_struct}
use chess_pyspec.Protocol.Struct.{read, int_attr, chars_attr}
use chess_pyspec.Protocol.Messages.RoundTrip.{order_of, IsSafe, read-serialize}
use chess_pyspec.Protocol.Payloads.{Data, deserialize_data}
use chess_pyspec.Protocol.Payloads.RoundTrip.{received}

-- What a read leaves, when it succeeds.
readexactly_leaves :
    (z : ℤ) (s : Bytes) {r : Bytes × Bytes} → readexactly z s ≡ ok r → length r.1 ≤ length s
unfolding readexactly
readexactly_leaves (pos n) s {r = r} h = ground (arith, length-drop n s)
readexactly_leaves (negsuc n) s h = absurd (ground arith)

readexactly_takes :
    (n : ℕ) (s : Bytes) {r : Bytes × Bytes}
    → readexactly (pos n) s ≡ ok r
    → length r.1 + n ≡ length s
unfolding readexactly
readexactly_takes n s {r = r} h = ground (arith, length-drop n s)

read_prefix_takes :
    (s : Bytes) {r : Prefix × Bytes} → read_prefix s ≡ ok r → length r.1 + 12 ≡ length s
unfolding read_prefix
read_prefix_takes s {r = r} h =
    let (a, ha, h₁) = >>=-eq-ok (readexactly (pos 12) s) _ h in
    let (p, hp, h₂) = >>=-eq-ok (unpack_prefix a.0) _ h₁ in
    rw (← ok-injective h₂) (readexactly_takes 12 s ha)

bytes_left_after :
    (s : Bytes) (a : Prefix × Bytes) (b c : Bytes × Bytes) (z n : ℤ)
    → read_prefix s ≡ ok a
    → readexactly z a.1 ≡ ok b
    → readexactly n b.1 ≡ ok c
    → length c.1 + 12 ≤ length s
bytes_left_after s a b c z n ha hb hc =
    omega (arith, read_prefix_takes s ha, readexactly_leaves z a.1 hb, readexactly_leaves n b.1 hc)

module _ (fl : Floats) (np : Numpy) where
  read_one_message-Ensures :
      (s : Bytes)
      → Ensures
          (λ (r : Message fl np × Bytes). length r.1 + 12 ≤ length s)
          (read_one_message fl np s)
  unfolding read_one_message
  read_one_message-Ensures s = Ensures-bind (read_prefix s) _ (λ a ha.
      Ensures-bind (determine_header_struct a.0.version a.0.size) _ (λ l _.
        Ensures-bind (readexactly (bytes_left l a.0.size) a.1) _ (λ b hb.
          let head = read a.0.order (fields l) (a.0.bytes ++ b.0) in
          Ensures-bind (int_attr Field.length head) _ (λ n _.
            Ensures-bind (readexactly n b.1) _ (λ c hc.
              let left = bytes_left_after s a b c (bytes_left l a.0.size) n ha hb hc in
              Ensures-bind (deserialize_data fl np head c.0 a.0.order) _ (λ d _.
                Ensures-bind (int_attr Field.command head) _ (λ k _.
                  Ensures-bind (Command.of_value k) _ (λ m _.
                    Ensures-bind (int_attr Field.sequence_number head) _ (λ q _.
                      Ensures-bind (chars_attr Field.name head) _
                        (λ t _. Ensures-bind (decode t) _ (λ u _. returns left)))))))))))

  -- A message takes at least the twelve bytes of its prefix.
  pub read_one_message_takes :
      (s : Bytes) {r : Message fl np × Bytes}
      → read_one_message fl np s ≡ ok r
      → length r.1 + 12 ≤ length s
  read_one_message_takes s h = Ensures-eq (read_one_message fl np s) (read_one_message-Ensures s) h

  -- With more fuel than the stream has bytes, the fuel makes no difference.
  pub message_stream_enough :
      (n m : ℕ) (s : Bytes)
      → length s < n
      → length s < m
      → message_stream fl np n s ≡ message_stream fl np m s
  unfolding message_stream
  message_stream_enough zero m s h k = absurd (omega arith)
  message_stream_enough (suc n) zero s h k = absurd (omega arith)
  message_stream_enough (suc n) (suc m) s h k = elim (Result-cases (read_one_message fl np s)) [
    | inl (r, e) ↦
        let less = read_one_message_takes s e in
        rw (e, message_stream)
          (ap (◌∷◌ r.0) (message_stream_enough n m r.1 (omega (arith, less)) (omega (arith, less))))
    | inr (x, e) ↦ rw (e, message_stream) refl
  ]

  -- The packets that a peer sends in a row, and the messages that they stand for.
  pub data Sends : List Packet → List (Message fl np) → Type 1 where
    done : Sends [] []
    send :
        {pk : Packet} {pks : List Packet} {ms : List (Message fl np)} (native : Endian) (h : Header)
        (d : Data fl np) (order : Option Endian) (now : Clock)
        → IsSafe fl np h d (order_of fl np native order)
        → serialize fl np native h d order now ≡ ok pk
        → Sends pks ms
        → Sends (pk ∷ pks) (
            record {
              header = h;
              payload = received fl np (order_of fl np native order) d;
              order = order_of fl np native order;
            }
            ∷ ms)

  pub wires : List Packet → Bytes
  wires [] = []
  wires (pk ∷ pks) = wire pk ++ wires pks

  stream_unit :
      (n : ℕ) (s : Bytes) {m : Message fl np} {rest : Bytes}
      → read_one_message fl np s ≡ ok (m, rest)
      → message_stream fl np (suc n) s ≡ m ∷ message_stream fl np n rest
  unfolding message_stream
  stream_unit n s e = rw (e, message_stream) refl

  stream_end :
      (n : ℕ) (s : Bytes) {x : Error}
      → read_one_message fl np s ≡ err x
      → message_stream fl np (suc n) s ≡ []
  unfolding message_stream
  stream_end n s e = rw (e, message_stream) refl

  stream-wires :
      (tail : Bytes) {x : Error}
      → read_one_message fl np tail ≡ err x
      → {pks : List Packet} {ms : List (Message fl np)} → Sends pks ms
      → (n : ℕ) → length (wires pks ++ tail) < n
      → message_stream fl np n (wires pks ++ tail) ≡ ms
  unfolding wires
  stream-wires tail e s zero h = absurd (omega arith)
  stream-wires tail e done (suc n) h = stream_end n tail e
  stream-wires tail e (send {pk = pk} {pks = pks} {ms = ms} native head d order now safe q s)
        (suc n) h =
      let one = read-serialize fl np native head d order now (wires pks ++ tail) safe q in
      let size = ap (length {0}) (append_assoc (wire pk) (wires pks) tail) in
      rw (append_assoc (wire pk) (wires pks) tail) (
        stream_unit n (wire pk ++ (wires pks ++ tail)) one
        ∙ ap
            (λ (r : List (Message fl np)).
              record {
                header = head;
                payload = received fl np (order_of fl np native order) d;
                order = order_of fl np native order;
              }
              ∷ r)
            (stream-wires tail e {pks = pks} {ms = ms} s n
              (omega (arith, read_one_message_takes _ one, size))))

  -- A stream of whole messages, followed by bytes that are no message (none, or one that is cut
  -- off, or one that cannot be read), yields exactly these messages in their order.
  pub messages-wires :
      {pks : List Packet} {ms : List (Message fl np)} (tail : Bytes) {x : Error}
      → Sends pks ms
      → read_one_message fl np tail ≡ err x
      → messages fl np (wires pks ++ tail) ≡ ms
  unfolding messages
  messages-wires {pks = pks} tail s e =
      stream-wires tail e s (suc (length (wires pks ++ tail))) (omega arith)
