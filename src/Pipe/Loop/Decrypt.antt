-- ===== src/Pipe/Loop/Decrypt.antt =====
-- lib/proto/proto_pipe.c: the loop of callback_pipe_read on the decrypting side, on packets of the peer.
use spiped.Base.{
  ℕ, zero, suc, ◌+◌, ◌≤◌, ◌<◌, ◌≡◌, ◌⊎◌, refl, ap, ap₂, sym, ◌∙◌, inl, inr, true, [], ◌∷◌, ◌++◌,
  List, length, take, drop, length-append, length-drop, length-take_le, take-append-drop,
  append-nil, append_assoc, append_cut, drop-append, subst, Option, arith,
}
use spiped.Primitives.{Bytes, Primitives, IsDocumented}
use spiped.Crypt.{pcrypt_esz}
use spiped.Crypt.Keys.{ProtoKeys}
use spiped.Crypt.Packet.{next_pnum, proto_crypt_dec}
use spiped.Crypt.Packet.Shape.{packet, length-packet}
use spiped.Crypt.Packet.RoundTrip.{dec-enc}
use spiped.Pipe.{stop, go, finished, round, decrypted}
use spiped.Pipe.Stream.{AreMessages, bytes_of, advance, packets}
use spiped.Pipe.Loop.{process, process_stop, process_go, round_dec}

module _ (p : Primitives) (d : IsDocumented p) where
  -- What the loop has done with `rest`, which begins the packets of `ms`: the messages it opened
  -- and those it did not, for want of input or of room.
  pub record Decrypts (fuel : ℕ) (k : ProtoKeys p) (rest : Bytes) (inpos : ℕ) (out : Bytes)
      (ms : List Bytes) (later : Bytes) : Type 0 where
    pub opened : List Bytes
    pub unopened : List Bytes
    pub left : Bytes
    pub split : ms ≡ opened ++ unopened
    pub are_opened : AreMessages opened
    pub are_unopened : AreMessages unopened
    pub input : rest ≡ packets p k opened ++ left
    pub stream : left ++ later ≡ packets p (advance p k opened) unopened
    pub ends :
        process p fuel true pcrypt_esz k rest inpos out
        ≡ finished
            (inpos + length (packets p k opened))
            (out ++ bytes_of opened)
            (advance p k opened)
    pub fits : length (out ++ bytes_of opened) ≤ 8480
    pub why : (length left < 1060) ⊎ (8480 < length (out ++ bytes_of opened) + 1060)

  Decrypts-stop :
      (fuel : ℕ) (k : ProtoKeys p) (rest : Bytes) (inpos : ℕ) (out : Bytes) (ms : List Bytes)
      (later : Bytes)
      → AreMessages ms
      → rest ++ later ≡ packets p k ms
      → length out ≤ 8480
      → round p true pcrypt_esz k rest (length out) ≡ stop
      → (length rest < 1060) ⊎ (8480 < length out + 1060)
      → Decrypts (suc fuel) k rest inpos out ms later
  Decrypts-stop fuel k rest inpos out ms later valid stream small e why = record {
    opened = [];
    unopened = ms;
    left = rest;
    split = refl;
    are_opened = tt;
    are_unopened = valid;
    input = refl;
    stream = stream;
    ends =
        process_stop p fuel true pcrypt_esz k rest inpos out e
        ∙ ap₂ (λ (n : ℕ) (o : Bytes). finished n o k) (omega arith) (sym (append-nil out));
    fits = rw append-nil small;
    why = rw append-nil why;
  }

  Decrypts-go :
      (fuel : ℕ) (k : ProtoKeys p) (m tail : Bytes) (inpos : ℕ) (out : Bytes) (ms : List Bytes)
      (later : Bytes)
      → (0 < length m) × (length m ≤ 1024)
      → round p true pcrypt_esz k (packet p k m ++ tail) (length out) ≡ go (next_pnum p k) m 1060
      → Decrypts fuel (next_pnum p k) tail (inpos + 1060) (out ++ m) ms later
      → drop 1060 (packet p k m ++ tail) ≡ tail
      → Decrypts (suc fuel) k (packet p k m ++ tail) inpos out (m ∷ ms) later
  Decrypts-go fuel k m tail inpos out ms later valid e next tail_lem =
      let opened = next.opened in
      let regroup = append_assoc out m (bytes_of opened) in
      let k' = next_pnum p k in
      record {
        opened = m ∷ opened;
        unopened = next.unopened;
        left = next.left;
        split = ap (λ (l : List Bytes). m ∷ l) next.split;
        are_opened = (valid, next.are_opened);
        are_unopened = next.are_unopened;
        input =
            ap (λ (t : Bytes). packet p k m ++ t) next.input
            ∙ sym (append_assoc (packet p k m) (packets p k' opened) next.left);
        stream = next.stream;
        ends =
            process_go p fuel true pcrypt_esz k (packet p k m ++ tail) inpos out e
            ∙ (ap (λ (t : Bytes). process p fuel true pcrypt_esz k' t (inpos + 1060) (out ++ m))
                  tail_lem
                ∙ (next.ends
                    ∙ ap₂ (λ (i : ℕ) (o : Bytes). finished i o (advance p k' opened))
                        (omega (
                          arith,
                          length-append (packet p k m) (packets p k' opened),
                          length-packet p d k m valid.1,
                        ))
                        regroup));
        fits = rw (← regroup) next.fits;
        why = rw (← regroup) next.why;
      }

  -- The round on a whole packet of the peer.
  round-packet :
      (k : ProtoKeys p) (m tail : Bytes) (outpos : ℕ)
      → (0 < length m) × (length m ≤ 1024)
      → round p true pcrypt_esz k (packet p k m ++ tail) outpos
        ≡ decrypted p
            (proto_crypt_dec p (packet p k m ++ tail) k).0
            (proto_crypt_dec p (packet p k m ++ tail) k).1
            1060
      → round p true pcrypt_esz k (packet p k m ++ tail) outpos ≡ go (next_pnum p k) m 1060
  unfolding decrypted
  round-packet k m tail outpos valid e =
      e
      ∙ ap (λ (r : Option Bytes × ProtoKeys p). decrypted p r.0 r.1 1060)
          (dec-enc p d k m tail valid.0 valid.1).2

  -- A buffer of at least a packet's size that begins the packets of `m ∷ ms` begins with that of `m`.
  first_packet :
      (k : ProtoKeys p) (rest m : Bytes) (ms : List Bytes) (later : Bytes)
      → 1060 ≤ length rest
      → length m ≤ 1024
      → rest ++ later ≡ packets p k (m ∷ ms)
      → (rest ≡ packet p k m ++ drop 1060 rest)
        × (drop 1060 rest ++ later ≡ packets p (next_pnum p k) ms)
  first_packet k rest m ms later big short stream =
      let front = take 1060 rest in
      let back = drop 1060 rest in
      let whole = take-append-drop 1060 rest in
      let cut =
        append_cut front (back ++ later) (packet p k m) (packets p (next_pnum p k) ms)
          (length-take_le 1060 rest big ∙ sym (length-packet p d k m short))
          (sym (append_assoc front back later) ∙ (ap (λ (t : Bytes). t ++ later) whole ∙ stream)) in
      (sym whole ∙ ap (λ (t : Bytes). t ++ back) cut.0, cut.1)

  -- With more fuel than there is input, the loop on a part of the peer's packets ends, and never
  -- at a packet that it refuses.
  pub decrypts :
      (fuel : ℕ) (k : ProtoKeys p) (rest : Bytes) (inpos : ℕ) (out : Bytes) (ms : List Bytes)
      (later : Bytes)
      → length rest < fuel
      → AreMessages ms
      → rest ++ later ≡ packets p k ms
      → length out ≤ 8480
      → Decrypts fuel k rest inpos out ms later
  decrypts zero k rest inpos out ms later enough valid stream small = absurd (omega arith)
  decrypts (suc fuel) k rest inpos out [] later enough valid stream small =
      elim (round_dec p d k rest (length out)) [
        | inl (e, why) ↦ Decrypts-stop fuel k rest inpos out [] later valid stream small e why
        | inr (big, room, e) ↦ absurd (omega (arith, ap length stream, length-append rest later))
      ]
  decrypts (suc fuel) k rest inpos out (m ∷ ms) later enough valid stream small =
      elim (round_dec p d k rest (length out)) [
        | inl (e, why) ↦ Decrypts-stop fuel k rest inpos out (m ∷ ms) later valid stream small e why
        | inr (big, room, e) ↦
            let tail = drop 1060 rest in
            let first = first_packet k rest m ms later big valid.0.1 stream in
            let same = sym first.0 in
            let next =
              decrypts fuel (next_pnum p k) tail (inpos + 1060) (out ++ m) ms later
                (omega (arith, length-drop 1060 rest)) valid.1 first.1
                (omega (arith, length-append out m)) in
            let cut = drop-append 1060 (packet p k m) tail (length-packet p d k m valid.0.1) in
            let e' =
              subst
                (λ (r : Bytes).
                  round p true pcrypt_esz k r (length out)
                  ≡ decrypted p (proto_crypt_dec p r k).0 (proto_crypt_dec p r k).1 1060)
                first.0 e in
            subst (λ (r : Bytes). Decrypts (suc fuel) k r inpos out (m ∷ ms) later) same
              (Decrypts-go fuel k m tail inpos out ms later valid.0
                (round-packet k m tail (length out) valid.0 e') next cut)
      ]
