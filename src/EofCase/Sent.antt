-- ===== src/EofCase/Sent.antt =====
-- pipe_decr_eof_case: what is sent, as packets.
use spiped.Base.{
  ℕ, zero, suc, ◌-◌, ◌*◌, ◌≡◌, refl, ap, sym, ◌∙◌, subst, Bool, true, false, Option, some, [], ◌∷◌,
  ◌++◌, List, length, take, drop, append_assoc, append-nil, take-append-drop, length-append,
  length-replicate, length-drop, pos, arith, if◌then◌else◌, ◌==◌, Bool-cases, inl, inr,
}
use mathlib.Core.Option.{some-injective}
use spiped.Primitives.{Bytes, Primitives, IsDocumented}
use spiped.Crypt.Keys.{ProtoKeys}
use spiped.Crypt.Packet.{next_pnum, proto_crypt_enc}
use spiped.Crypt.Packet.Shape.{packet, enc-packet, length-packet}
use spiped.Pipe.Stream.{AreMessages, advance, packets, packets-append}
use spiped.Pipe.Callbacks.{PipeCookie, proto_pipe}
use spiped.EofCase.{inbuf, encbuf, send_frames, send_tail, send, started}
use spiped.EofCase.Keeps.{Receives}

-- The messages of the frames.
abbrev pub frames : ℕ → List Bytes
frames zero = []
frames (suc n) = inbuf ∷ frames n

frames-AreMessages : (n : ℕ) → AreMessages (frames n)
frames-AreMessages zero = tt
frames-AreMessages (suc n) =
    let size = length-replicate {A = ℕ} 1024 0 in
    ((omega (arith, size), omega (arith, size)), frames-AreMessages n)

pub frames-suc : (n : ℕ) → frames (suc n) ≡ frames n ++ inbuf ∷ []
frames-suc zero = refl
frames-suc (suc n) = ap (λ (l : List Bytes). inbuf ∷ l) (frames-suc n)

module _ (p : Primitives) (d : IsDocumented p) where
  encbuf_lem : (k : ProtoKeys p) → encbuf p k ≡ some (packet p k inbuf, next_pnum p k)
  encbuf_lem k =
      let size = length-replicate {A = ℕ} 1024 0 in
      ap (λ (n : ℕ). proto_crypt_enc p inbuf n k) (sym size)
      ∙ enc-packet p d k inbuf (omega (arith, size))

  send_frames_lem :
      (n : ℕ) (k : ProtoKeys p)
      → send_frames p n k ≡ some (packets p k (frames n), advance p k (frames n))
  unfolding send_frames
  send_frames_lem zero k = refl
  send_frames_lem (suc n) k = rw (encbuf_lem k) (rw (send_frames_lem n (next_pnum p k)) refl)

  -- What of the last packet is not sent.
  abbrev pub unsent : ℕ → ℕ → ProtoKeys p → Bytes
  unsent n tail_len k =
      if tail_len == 0 then [] else drop tail_len (packet p (advance p k (frames n)) inbuf)

  -- The frames that are at least begun.
  abbrev pub begun : ℕ → ℕ → List Bytes
  begun n tail_len = if tail_len == 0 then frames n else frames (suc n)

  send_split :
      (n tail_len : ℕ) (k : ProtoKeys p)
      → send p n tail_len k ≡ (
          if tail_len == 0
          then some (packets p k (frames n))
          else some
              (packets p k (frames n) ++ take tail_len (packet p (advance p k (frames n)) inbuf)))
  unfolding send send_tail
  send_split n tail_len k = rw (send_frames_lem n k) (rw (encbuf_lem (advance p k (frames n))) refl)

  send_lem :
      (n tail_len : ℕ) (k : ProtoKeys p) (sent : Bytes)
      → send p n tail_len k ≡ some sent
      → sent ++ unsent n tail_len k ≡ packets p k (begun n tail_len)
  send_lem n tail_len k sent e =
      let all = packets p k (frames n) in
      let last = packet p (advance p k (frames n)) inbuf in
      let way : Bool → Option Bytes =
        λ b. if b then some all else some (all ++ take tail_len last) in
      let sends = sym e ∙ send_split n tail_len k in
      elim (Bool-cases (tail_len == 0)) [
        | inl whole ↦
            let is_sent : sent ≡ all = some-injective _ _ (sends ∙ ap way whole) in
            rw whole (append-nil sent ∙ is_sent)
        | inr cut ↦
            let is_sent : sent ≡ all ++ take tail_len last =
              some-injective _ _ (sends ∙ ap way cut) in
            rw cut (
              ap (λ (x : Bytes). x ++ drop tail_len last) is_sent
              ∙ (append_assoc all (take tail_len last) (drop tail_len last)
                  ∙ (ap (λ (x : Bytes). all ++ x)
                        (take-append-drop tail_len last ∙ sym (append-nil last))
                      ∙ (sym (packets-append p k (frames n) (inbuf ∷ []))
                          ∙ ap (packets p k) (sym (frames-suc n))))))
      ]

  pub length-packets :
      (k : ProtoKeys p) (ms : List Bytes)
      → AreMessages ms
      → length (packets p k ms) ≡ 1060 * length ms
  length-packets k [] v = refl
  length-packets k (m ∷ ms) v = omega (
    arith,
    length-append (packet p k m) (packets p (next_pnum p k) ms),
    length-packet p d k m v.0.1,
    length-packets (next_pnum p k) ms v.1,
  )

  begun-AreMessages : (n tail_len : ℕ) → AreMessages (begun n tail_len)
  begun-AreMessages n tail_len =
      elim (tail_len == 0) as (λ b. AreMessages (if b then frames n else frames (suc n))) [
        | true ↦ frames-AreMessages n
        | false ↦ frames-AreMessages (suc n)
      ]

  pub length-unsent :
      (n tail_len : ℕ) (k : ProtoKeys p)
      → length (unsent n tail_len k) ≡ (if tail_len == 0 then 0 else 1060 - tail_len)
  length-unsent n tail_len k =
      let k' = advance p k (frames n) in
      let size = length-packet p d k' inbuf (omega (arith, length-replicate {A = ℕ} 1024 0)) in
      elim (tail_len == 0)
        as (λ b.
          length (if b then [] else drop tail_len (packet p k' inbuf))
          ≡ (if b then 0 else 1060 - tail_len)) [
            | true ↦ refl
            | false ↦ length-drop tail_len (packet p k' inbuf) ∙ ap (λ (x : ℕ). x - tail_len) size
          ]

  -- The state in which the pipe has just been made.
  pub Receives-started :
      (n tail_len : ℕ) (k : ProtoKeys p) (c : PipeCookie p) (sent : Bytes)
      → proto_pipe p true true true true k (pos 1) ≡ some c
      → send p n tail_len k ≡ some sent
      → Receives p d (begun n tail_len) (unsent n tail_len k) (started p sent c)
  unfolding proto_pipe
  Receives-started n tail_len k c sent made sends =
      subst
        (λ (c' : PipeCookie p).
          Receives p d (begun n tail_len) (unsent n tail_len k) (started p sent c'))
        (some-injective _ c made)
        (record {
          opened = [];
          unopened = begun n tail_len;
          split = refl;
          are_unopened = begun-AreMessages n tail_len;
          runs = record {
            direction = refl;
            full_size = refl;
            one_at_a_time = refl;
            whole = refl;
            is_open = refl;
          };
          stream = send_lem n tail_len k sent sends;
          plain = refl;
        })
