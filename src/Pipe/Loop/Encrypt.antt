-- ===== src/Pipe/Loop/Encrypt.antt =====
-- lib/proto/proto_pipe.c: the loop of callback_pipe_read on the encrypting side.
use spiped.Base.{
  ℕ, zero, suc, ◌+◌, ◌*◌, ◌≤◌, ◌<◌, ◌≡◌, ◌⊎◌, refl, ap, ap₂, sym, ◌∙◌, inl, inr, false, [], ◌∷◌,
  ◌++◌, List, length, take, drop, length-append, length-drop, length-take_le, take-append-drop,
  append-nil, append_assoc, arith,
}
use spiped.Primitives.{Bytes, Primitives, IsDocumented}
use spiped.Crypt.{pcrypt_maxdsz}
use spiped.Crypt.Keys.{ProtoKeys}
use spiped.Crypt.Packet.{next_pnum}
use spiped.Crypt.Packet.Shape.{packet, length-packet}
use spiped.Pipe.{stop, go, finished, round}
use spiped.Pipe.Stream.{AreMessages, bytes_of, advance, packets}
use spiped.Pipe.Loop.{process, process_stop, process_go, chunk, round_enc}

module _ (p : Primitives) (d : IsDocumented p) where
  -- What the loop has done with `rest`, from `inpos` on and behind the `out` in `outbuf`: the
  -- messages it made and the input that is left, for want of input or of room.
  pub record Encrypts (fuel : ℕ) (k : ProtoKeys p) (rest : Bytes) (inpos : ℕ) (out : Bytes)
      : Type 0 where
    pub messages : List Bytes
    pub left : Bytes
    pub are_messages : AreMessages messages
    pub input : rest ≡ bytes_of messages ++ left
    pub ends :
        process p fuel false pcrypt_maxdsz k rest inpos out
        ≡ finished
            (inpos + length (bytes_of messages))
            (out ++ packets p k messages)
            (advance p k messages)
    pub fits : length (out ++ packets p k messages) ≤ 8480
    pub why : (length left ≡ 0) ⊎ (8480 < length (out ++ packets p k messages) + 1024)

  Encrypts-stop :
      (fuel : ℕ) (k : ProtoKeys p) (rest : Bytes) (inpos : ℕ) (out : Bytes)
      → length out ≤ 8480
      → round p false pcrypt_maxdsz k rest (length out) ≡ stop
      → (length rest ≡ 0) ⊎ (8480 < length out + 1024)
      → Encrypts (suc fuel) k rest inpos out
  Encrypts-stop fuel k rest inpos out small e why = record {
    messages = [];
    left = rest;
    are_messages = tt;
    input = refl;
    ends =
        process_stop p fuel false pcrypt_maxdsz k rest inpos out e
        ∙ ap₂ (λ (n : ℕ) (o : Bytes). finished n o k) (omega arith) (sym (append-nil out));
    fits = rw append-nil small;
    why = rw append-nil why;
  }

  Encrypts-go :
      (fuel : ℕ) (k : ProtoKeys p) (rest : Bytes) (inpos : ℕ) (out : Bytes) (n : ℕ)
      → n ≤ length rest
      → 0 < n
      → n ≤ 1024
      → round p false pcrypt_maxdsz k rest (length out)
        ≡ go (next_pnum p k) (packet p k (take n rest)) n
      → Encrypts fuel (next_pnum p k) (drop n rest) (inpos + n) (out ++ packet p k (take n rest))
      → Encrypts (suc fuel) k rest inpos out
  Encrypts-go fuel k rest inpos out n within some_input short e next =
      let m = take n rest in
      let l : length m ≡ n = length-take_le n rest within in
      let ms = next.messages in
      let regroup = append_assoc out (packet p k m) (packets p (next_pnum p k) ms) in
      record {
        messages = m ∷ ms;
        left = next.left;
        are_messages = ((omega arith, omega arith), next.are_messages);
        input =
            sym (take-append-drop n rest)
            ∙ (ap (λ (t : Bytes). m ++ t) next.input
                ∙ sym (append_assoc m (bytes_of ms) next.left));
        ends =
            process_go p fuel false pcrypt_maxdsz k rest inpos out e
            ∙ (next.ends
                ∙ ap₂ (λ (i : ℕ) (o : Bytes). finished i o (advance p (next_pnum p k) ms))
                    (omega (arith, length-append m (bytes_of ms))) regroup);
        fits = rw (← regroup) next.fits;
        why = rw (← regroup) next.why;
      }

  -- With more fuel than there is input, and whole packets already in `outbuf`, the loop ends.
  pub encrypts :
      (fuel : ℕ) (k : ProtoKeys p) (rest : Bytes) (inpos : ℕ) (out : Bytes) (done : ℕ)
      → length rest < fuel
      → length out ≡ 1060 * done
      → length out ≤ 8480
      → Encrypts fuel k rest inpos out
  encrypts zero k rest inpos out done enough whole small = absurd (omega arith)
  encrypts (suc fuel) k rest inpos out done enough whole small =
      elim (round_enc p d k rest (length out)) [
        | inl (e, why) ↦ Encrypts-stop fuel k rest inpos out small e why
        | inr (e, some_input, within, short, room) ↦
            let n = chunk p d rest in
            let grown : length (out ++ packet p k (take n rest)) ≡ 1060 * (done + 1) = omega (
              arith,
              length-append out (packet p k (take n rest)),
              length-packet p d k (take n rest),
              length-take_le n rest within,
            ) in
            Encrypts-go fuel k rest inpos out n within some_input short e (
              encrypts fuel (next_pnum p k) (drop n rest) (inpos + n)
                (out ++ packet p k (take n rest)) (done + 1) (omega (arith, length-drop n rest))
                grown (omega arith))
      ]
