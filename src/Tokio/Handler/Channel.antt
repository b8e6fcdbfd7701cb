-- ===== src/Tokio/Handler/Channel.antt =====
-- The loop that sends packets into the channel of frames which the same task empties.
use picobroker.Base.{
  ℕ, suc, ◌+◌, ◌≤◌, ◌≡◌, refl, sym, ◌∙◌, arith, Bool-cases, Option-cases, inl, inr, Option, none,
  some, List, [], ◌∷◌, ◌++◌, append_assoc, append-nil, false, ltb→lt, length, length-append, leb,
  ltb, if◌then◌else◌,
}
use picobroker.Base.Result.{Outcome, ok, err, panic}
use picobroker.Packets.{Packet}
use picobroker.Tokio.Io.{IoError, encode_frame}
use picobroker.Tokio.Handler.{Sending, sent, blocked, crashed, send_packets}

-- The frame of a packet before those of the packets behind it; none where the encoder panics.
abbrev pub with_frame : Outcome IoError (List ℕ) → Option (List (List ℕ)) → Option (List (List ℕ))
with_frame (ok frame) (some frames) = some (frame ∷ frames)
with_frame (ok frame) none = none
with_frame (err _) frames = frames
with_frame panic frames = none

full :
    (capacity n : ℕ) (out : Sending)
    → ltb n capacity ≡ false
    → (k : ℕ) → (if leb (n + suc k) capacity then out else blocked) ≡ blocked
full capacity n out e k = ground arith

shifted :
    (capacity : ℕ) (frames : List (List ℕ)) (f : List ℕ) (rest : List (List ℕ))
    → (if leb (length (frames ++ f ∷ []) + length rest) capacity
        then sent ((frames ++ f ∷ []) ++ rest)
        else blocked)
      ≡ (if leb (length frames + suc (length rest)) capacity
          then sent (frames ++ f ∷ rest)
          else blocked)
shifted capacity frames f rest =
    let size : length (frames ++ f ∷ []) + length rest ≡ length frames + suc (length rest) =
      omega (arith, length-append frames (f ∷ [])) in
    rw (append_assoc frames (f ∷ []) rest, size) refl

module _ {L P : ℕ} where
  -- The frames of the packets that are encoded.
  abbrev pub encoded : List (Packet L P) → Option (List (List ℕ))
  encoded [] = some []
  encoded (packet ∷ packets) = with_frame (encode_frame packet) (encoded packets)

  -- Where no more frames wait in the channel than it has room for, and the encoder panics on
  -- none of the packets, the loop over the packets to send does not panic. If the waiting frames
  -- and those of the packets that encode_frame accepts are together no more than the capacity of
  -- the channel, the loop ends and exactly the frames of these packets are behind the waiting
  -- ones, in order; the refused packets are left out. If they are more, the task blocks on its
  -- own channel.
  pub send_packets_lem :
      (capacity : ℕ) (frames : List (List ℕ)) (packets : List (Packet L P)) {more : List (List ℕ)}
      → length frames ≤ capacity
      → encoded packets ≡ some more
      → send_packets capacity frames packets
        ≡ (if leb (length frames + length more) capacity then sent (frames ++ more) else blocked)
  unfolding send_packets
  send_packets_lem capacity frames [] {more} room e =
      let none_more : more ≡ [] = cc in rw (none_more, append-nil) (ground arith)
  send_packets_lem capacity frames (p ∷ packets) {more} room e =
      by_frame (encode_frame p) e (send_packets_lem capacity frames packets room)
        (λ f rest. send_packets_lem capacity (frames ++ f ∷ []) packets {more = rest})
    where
      by_frame :
          (m : Outcome IoError (List ℕ))
          → with_frame m (encoded packets) ≡ some more
          → (encoded packets ≡ some more
              → send_packets capacity frames packets ≡ (
                  if leb (length frames + length more) capacity
                  then sent (frames ++ more)
                  else blocked))
          → ((f : List ℕ) (rest : List (List ℕ))
              → length (frames ++ f ∷ []) ≤ capacity
              → encoded packets ≡ some rest
              → send_packets capacity (frames ++ f ∷ []) packets ≡ (
                  if leb (length (frames ++ f ∷ []) + length rest) capacity
                  then sent ((frames ++ f ∷ []) ++ rest)
                  else blocked))
          → elim m [
            | panic ↦ crashed
            | err _ ↦ send_packets capacity frames packets
            | ok frame ↦
                let rest = send_packets capacity (frames ++ frame ∷ []) packets in
                if ltb (length frames) capacity then rest else blocked
          ]
            ≡ (if leb (length frames + length more) capacity
                then sent (frames ++ more)
                else blocked)
      by_frame (ok f) h skip next = elim (Option-cases (encoded packets)) [
        | inl nothing ↦ cc (rw nothing at h)
        | inr (rest, found) ↦
            let here : more ≡ f ∷ rest = cc (rw found at h) in
            elim (Bool-cases (ltb (length frames) capacity)) [
              | inl fits ↦
                  rw (fits, here)
                    (next f rest (omega (arith, ltb→lt _ _ fits, length-append frames (f ∷ [])))
                        found
                      ∙ shifted capacity frames f rest)
              | inr over ↦
                  rw (over, here) (sym (full capacity (length frames) _ over (length rest)))
            ]
      ]
      by_frame (err e) h skip next = skip h
      by_frame panic h skip next = cc
