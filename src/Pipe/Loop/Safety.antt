-- ===== src/Pipe/Loop/Safety.antt =====
-- lib/proto/proto_pipe.c: the loop of callback_pipe_read on any input at all.
use spiped.Base.{
  ℕ, zero, suc, ◌+◌, ◌≤◌, ◌<◌, ◌≡◌, refl, ap, ◌∙◌, inl, inr, Bool, true, false, Option,
  Option-cases, [], ◌++◌, length, drop, length-append, length-drop, subst, arith,
}
use spiped.Primitives.{Bytes, Primitives, IsDocumented}
use spiped.Crypt.{pcrypt_esz}
use spiped.Crypt.Keys.{ProtoKeys}
use spiped.Crypt.Packet.{proto_crypt_dec}
use spiped.Crypt.Packet.RoundTrip.{dec_accepted}
use spiped.Pipe.{LoopEnd, finished, refused, aborted, unfinished, decrypted}
use spiped.Pipe.Loop.{process, process_stop, process_bad, process_go, round_dec, full_buflen_of}
use spiped.Pipe.Loop.Encrypt.{encrypts}
use spiped.Pipe.Stream.{bytes_of}

module _ (p : Primitives) where
  -- The end of a loop that had `inlen` bytes from `inpos` on: it is no failed assertion, and a
  -- refusal is of a packet; what was used is there, and what was written has room.
  unfoldable pub EndsWell : Bool → ℕ → LoopEnd p → Type 0
  EndsWell decr limit (finished inpos out k) = (inpos ≤ limit) × (length out ≤ 8480)
  EndsWell decr limit (refused k) = decr ≡ true
  EndsWell decr limit aborted = ⊥
  EndsWell decr limit unfinished = ⊥

module _ (p : Primitives) (d : IsDocumented p) where
  dec-EndsWell :
      (fuel : ℕ) (k : ProtoKeys p) (rest : Bytes) (inpos : ℕ) (out : Bytes)
      → length rest < fuel
      → length out ≤ 8480
      → EndsWell p true (inpos + length rest) (process p fuel true pcrypt_esz k rest inpos out)
  unfolding EndsWell decrypted
  dec-EndsWell zero k rest inpos out enough small = absurd (omega arith)
  dec-EndsWell (suc fuel) k rest inpos out enough small = elim (round_dec p d k rest (length out)) [
    | inl (e, why) ↦
        rw (process_stop p fuel true pcrypt_esz k rest inpos out e) (omega arith, small)
    | inr (big, room, e) ↦ elim (Option-cases (proto_crypt_dec p rest k).0) [
      | inl no_message ↦
          rw
            (process_bad p fuel true pcrypt_esz k rest inpos out (
              e
              ∙ ap (λ (o : Option Bytes). decrypted p o (proto_crypt_dec p rest k).1 1060)
                  no_message))
            refl
      | inr (o, message) ↦
          let k' = (proto_crypt_dec p rest k).1 in
          let opened = dec_accepted p d k rest big (ap (λ (r : Option Bytes). (r, k')) message) in
          let e' = e ∙ ap (λ (r : Option Bytes). decrypted p r k' 1060) message in
          let next =
            dec-EndsWell fuel k' (drop 1060 rest) (inpos + 1060) (out ++ o)
              (omega (arith, length-drop 1060 rest))
              (omega (arith, length-append out o, opened.2)) in
          rw (process_go p fuel true pcrypt_esz k rest inpos out e') (
            subst
              (λ (n : ℕ).
                EndsWell p true n
                  (process p fuel true pcrypt_esz k' (drop 1060 rest) (inpos + 1060) (out ++ o)))
              (omega (arith, length-drop 1060 rest)) next)
    ]
  ]

  -- The loop of `callback_pipe_read` over all that is buffered, whoever sent it: with one pass more
  -- than there are bytes it ends, no assertion fails, no more is used than is there, what is
  -- written fits `outbuf`, and only a decrypting pipe refuses a packet.
  pub process-EndsWell :
      (decr : Bool) (k : ProtoKeys p) (buffered : Bytes)
      → EndsWell p decr
          (length buffered)
          (process p (suc (length buffered)) decr (full_buflen_of decr) k buffered 0 [])
  unfolding EndsWell
  process-EndsWell true k buffered =
      subst
        (λ (n : ℕ).
          EndsWell p true n (process p (suc (length buffered)) true pcrypt_esz k buffered 0 []))
        (omega arith)
        (dec-EndsWell (suc (length buffered)) k buffered 0 [] (omega arith) (omega arith))
  process-EndsWell false k buffered =
      let r =
        encrypts p d (suc (length buffered)) k buffered 0 [] 0 (omega arith) (omega arith)
          (omega arith) in
      rw r.ends
        (omega (arith, ap length r.input, length-append (bytes_of r.messages) r.left), r.fits)
