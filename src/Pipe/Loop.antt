-- ===== src/Pipe/Loop.antt =====
-- lib/proto/proto_pipe.c: the loop of callback_pipe_read.
pub mod Encrypt
pub mod Decrypt
pub mod Safety
use spiped.Base.{
  ℕ, zero, suc, ◌+◌, ◌*◌, ◌%◌, ◌≤◌, ◌<◌, ◌≡◌, ◌≢◌, ◌⊎◌, refl, ap, sym, ◌∙◌, inl, inr, Bool, true,
  false, Option, none, some, [], ◌∷◌, ◌++◌, length, take, drop, length-append, length-drop, ltb,
  ◌==◌, if◌then◌else◌, arith,
}
use spiped.Primitives.{Bytes, Primitives, IsDocumented}
use spiped.Crypt.{pcrypt_maxdsz, pcrypt_esz}
use spiped.Crypt.Keys.{ProtoKeys}
use spiped.Crypt.Packet.{next_pnum, proto_crypt_enc, proto_crypt_dec}
use spiped.Crypt.Packet.Shape.{packet, enc-take}
use spiped.Crypt.Packet.RoundTrip.{dec_accepted}
use spiped.Pipe.{
  Round, stop, bad, abort, go, LoopEnd, finished, refused, aborted, unfinished, round, decrypted,
  outbufsize,
}

module _ (p : Primitives) where
  -- `while (inlen > 0)`, from `inpos` on, with `out` in `outbuf`.
  unfoldable pub process : ℕ → Bool → ℕ → ProtoKeys p → Bytes → ℕ → Bytes → LoopEnd p
  process zero decr full k rest inpos out = unfinished
  process (suc fuel) decr full k rest inpos out = elim (round p decr full k rest (length out)) [
    | stop ↦ finished inpos out k
    | bad k' ↦ refused k'
    | abort ↦ aborted
    | go k' o n ↦ process fuel decr full k' (drop n rest) (inpos + n) (out ++ o)
  ]

  module _ (fuel : ℕ) (decr : Bool) (full : ℕ) (k : ProtoKeys p) (rest : Bytes) (inpos : ℕ)
      (out : Bytes) where
    pub process_stop :
        round p decr full k rest (length out) ≡ stop
        → process (suc fuel) decr full k rest inpos out ≡ finished inpos out k
    unfolding process
    process_stop e = rw (e, process)

    pub process_bad :
        {k' : ProtoKeys p}
        → round p decr full k rest (length out) ≡ bad k'
        → process (suc fuel) decr full k rest inpos out ≡ refused k'
    unfolding process
    process_bad e = rw (e, process)

    pub process_go :
        {k' : ProtoKeys p} {o : Bytes} {n : ℕ}
        → round p decr full k rest (length out) ≡ go k' o n
        → process (suc fuel) decr full k rest inpos out
          ≡ process fuel decr full k' (drop n rest) (inpos + n) (out ++ o)
    unfolding process
    process_go e = rw (e, process)

-- `P->minread` and `P->full_buflen`.
abbrev pub minread_of : Bool → ℕ
minread_of decr = if decr then pcrypt_esz else 1

abbrev pub full_buflen_of : Bool → ℕ
full_buflen_of decr = if decr then pcrypt_esz else pcrypt_maxdsz

module _ (p : Primitives) (d : IsDocumented p) where
  -- How much the encrypting loop takes in a round.
  abbrev pub chunk : Bytes → ℕ
  chunk rest = if ltb pcrypt_maxdsz (length rest) then pcrypt_maxdsz else length rest

  -- An encrypting round stops only when there is no more input or no more room; otherwise it makes
  -- the packet of the next 1024 bytes, or of what there is.
  pub round_enc :
      (k : ProtoKeys p) (rest : Bytes) (outpos : ℕ)
      → ((round p false pcrypt_maxdsz k rest outpos ≡ stop)
          × ((length rest ≡ 0) ⊎ (8480 < outpos + 1024)))
        ⊎ ((round p false pcrypt_maxdsz k rest outpos
              ≡ go (next_pnum p k) (packet p k (take (chunk rest) rest)) (chunk rest))
            × (0 < chunk rest)
            × (chunk rest ≤ length rest)
            × (chunk rest ≤ 1024)
            × (outpos + 1024 ≤ 8480))
  unfolding round
  round_enc k rest outpos = ground (arith, enc-take p d k rest (chunk rest))

  -- A decrypting round that goes on used one packet, and gives 1 to 1024 bytes, for which there is
  -- room; it stops only when less than a packet is left or there is no more room.
  pub round_dec :
      (k : ProtoKeys p) (rest : Bytes) (outpos : ℕ)
      → ((round p true pcrypt_esz k rest outpos ≡ stop)
          × ((length rest < 1060) ⊎ (8480 < outpos + 1060)))
        ⊎ ((1060 ≤ length rest)
            × (outpos + 1060 ≤ 8480)
            × (round p true pcrypt_esz k rest outpos
                ≡ decrypted p (proto_crypt_dec p rest k).0 (proto_crypt_dec p rest k).1 1060))
  unfolding round
  round_dec k rest outpos = ground arith
