-- ===== src/Tokio/Io/Framing.antt =====
-- `read_packet` takes the packets off the stream, however the reads cut it.
use picobroker.Base.{
  ℕ, ◌+◌, ◌-◌, ◌≤◌, ◌<◌, ◌≡◌, ◌⊎◌, inl, inr, refl, ap, ◌∙◌, sym, subst, arith, false, Option, some,
  List, [], ◌∷◌, ◌++◌, ltb, ge→ltb, length, drop, ◌%◌, ◌/◌, ◌==◌, ne→==, length-append,
  append_assoc, take-append, drop-append,
}
use picobroker.Base.Result.{Outcome, ok, err, panic, Step, done, fail, crash}
use picobroker.Codec.Packet
use picobroker.Packets.{Packet}
use picobroker.Protocol.{ProtocolError, incomplete_packet}
use picobroker.Wire.{slice, max_variable_length, variable_length_length}
use picobroker.Wire.Fields.{length_bytes, length-length_bytes}
use picobroker.Wire.Reads.{read_variable_length_lem}
use picobroker.Wire.Lengths.{variable_length_length-pos, variable_length_length-small}
use picobroker.Tokio.Io.{
  parse_remaining_length, parse_length_loop, BytesMut, filled, read_until, take_packet, read_body,
  read_length, read_packet,
}
use picobroker.Tokio.Io.Lengths.{parse-ok}
use picobroker.Tokio.Io.Filling.{BytesMutLaws, joined, AllData, prefix-append, read_until-Filled}

module _ (B : BytesMut) (laws : BytesMutLaws B) where
  -- What `read_packet` gives for a frame that decodes, or does not.
  abbrev pub Delivers :
      {L P : ℕ}
      → List ℕ
      → Outcome ProtocolError (Packet L P)
      → Step (B.Buffer × List (List ℕ)) ProtocolError (Option (Packet L P))
      → Type 0
  Delivers rest (ok p) m =
      (buffer : B.Buffer) × (socket : List (List ℕ)) × (m ≡ done (buffer, socket) (some p))
      × (B.bytes buffer ++ joined socket ≡ rest)
      × AllData socket
  Delivers rest (err e) m =
      (buffer : B.Buffer) × (socket : List (List ℕ)) × (m ≡ fail (buffer, socket) e)
  Delivers rest panic m = m ≡ crash

  take_packet-Delivers :
      (L P : ℕ) (frame more rest : List ℕ) (buffer : B.Buffer) (socket : List (List ℕ))
      → B.bytes buffer ≡ frame ++ more
      → more ++ joined socket ≡ rest
      → AllData socket
      → Delivers rest
          (Packet.decode {L = L} {P = P} frame)
          (take_packet B {L = L} {P = P} (length frame) buffer socket)
  unfolding take_packet slice
  take_packet-Delivers L P frame more rest buffer socket e left d =
      let inside : ltb (length (frame ++ more)) (length frame) ≡ false =
        ge→ltb _ _ (omega (arith, length-append frame more)) in
      let from : ltb (length frame) 0 ≡ false = ge→ltb _ _ (omega arith) in
      let zero_off : length frame - 0 ≡ length frame = omega arith in
      let advanced : B.bytes (B.advance buffer (length frame)) ≡ more =
        laws.advance_lem buffer (length frame)
          (omega (arith, ap length e, length-append frame more))
        ∙ ap (drop (length frame)) e
        ∙ drop-append frame more in
      rw (take_packet, e, from, inside, zero_off, take-append frame more)
        (by_packet (Packet.decode frame) advanced)
    where
      by_packet :
          (m : Outcome ProtocolError (Packet L P))
          → B.bytes (B.advance buffer (length frame)) ≡ more
          → Delivers rest m (elim m [
            | panic ↦ crash
            | err x ↦ fail (buffer, socket) x
            | ok packet ↦ done (B.advance buffer (length frame), socket) (some packet)
          ])
      by_packet (ok p) advanced = (
        B.advance buffer (length frame),
        socket,
        refl,
        ap (λ k. k ++ joined socket) advanced ∙ left,
        d,
      )
      by_packet (err x) advanced = (buffer, socket, refl)
      by_packet panic advanced = refl

  -- With a buffer that does what it documents: where a stream has a frame next (a first byte, a
  -- remaining length and as many bytes as it says), however the reads cut it, and the remaining
  -- length takes one byte or its bytes are in the buffer already, read_packet gives what
  -- Packet::decode gives for that frame, and where that is a packet, what follows the frame is
  -- left.
  pub read_packet-Delivers :
      (L P : ℕ) (buffer : B.Buffer) (socket : List (List ℕ)) (first v : ℕ) (body rest : List ℕ)
      → AllData socket
      → v ≤ max_variable_length
      → length body ≡ v
      → (v < 128) ⊎ (1 + variable_length_length v ≤ length (B.bytes buffer))
      → B.bytes buffer ++ joined socket ≡ first ∷ (length_bytes v ++ (body ++ rest))
      → Delivers rest
          (Packet.decode {L = L} {P = P} (first ∷ (length_bytes v ++ body)))
          (read_packet B {L = L} {P = P} buffer socket)
  unfolding read_packet read_length read_body
  read_packet-Delivers L P buffer socket first v body rest d small len_body whole_length e =
      let n = variable_length_length v in
      let frame = first ∷ (length_bytes v ++ body) in
      let n_len = length-length_bytes v in
      let f_len : length frame ≡ 1 + n + v =
        omega (arith, length-append (length_bytes v) body, n_len) in
      let n_pos = variable_length_length-pos v in
      let all : length (B.bytes buffer ++ joined socket) ≡ 1 + n + v + length rest = omega (
        arith,
        ap length e,
        length-append (length_bytes v) (body ++ rest),
        length-append body rest,
        n_len,
      ) in
      let two = read_until-Filled B laws 2 buffer socket d (omega arith) in
      let front_len : length (first ∷ length_bytes v) ≤ length (B.bytes two.buffer') =
        elim whole_length [
          | inl one ↦ omega (arith, variable_length_length-small v one, n_len, two.enough)
          | inr held ↦ omega (arith, n_len, two.grown)
        ] in
      let (more, starts, left) =
        prefix-append (B.bytes two.buffer') (joined two.socket') (first ∷ length_bytes v)
          (body ++ rest) (two.same ∙ e) front_len in
      let parsed =
        parse-ok first (length_bytes v ++ more) (read_variable_length_lem v more small) in
      let full =
        read_until-Filled B laws (1 + n + v) two.buffer' two.socket' two.data_left
          (omega (arith, all, ap length two.same)) in
      let (more', starts', left') =
        prefix-append (B.bytes full.buffer') (joined full.socket') frame rest
          (full.same
            ∙ two.same
            ∙ e
            ∙ ap (◌∷◌ first) (sym (append_assoc (length_bytes v) body rest)))
          (omega (arith, f_len, full.enough)) in
      rw (read_packet, two.reads, read_length, starts, parsed, read_body, full.reads)
        (subst
          (λ k.
            Delivers rest (Packet.decode {L = L} {P = P} frame)
              (take_packet B {L = L} {P = P} k full.buffer' full.socket'))
          f_len
          (take_packet-Delivers L P frame more' rest full.buffer' full.socket' starts' left'
            full.data_left))

  -- Where the buffer holds two bytes, of which the second says that the remaining length goes
  -- on, read_packet returns IncompletePacket, whatever the socket gives next.
  pub read_packet-split :
      (L P : ℕ) (buffer : B.Buffer) (socket : List (List ℕ)) (first byte : ℕ)
      → B.bytes buffer ≡ first ∷ byte ∷ []
      → 128 ≤ byte
      → byte < 256
      → read_packet B {L = L} {P = P} buffer socket ≡ fail (buffer, socket) (incomplete_packet 2)
  unfolding read_packet read_length parse_remaining_length parse_length_loop
  read_packet-split L P buffer socket first byte e h small =
      let more : (byte / 128 % 2 == 0) ≡ false = ne→== (byte / 128 % 2) 0 (λ z. omega arith) in
      rw (read_packet, no_read socket)
        (rw (read_length, e, more)
          (ap (λ k. fail (buffer, socket) (incomplete_packet (length k))) e))
    where
      no_read : (s : List (List ℕ)) → read_until B 2 buffer s ≡ filled buffer s
      no_read [] = rw (read_until, e) refl
      no_read ([] ∷ s) = rw (read_until, e) refl
      no_read ((c ∷ chunk) ∷ s) = rw (read_until, e) refl
